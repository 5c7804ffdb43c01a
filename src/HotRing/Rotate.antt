-- ===== src/HotRing/Rotate.antt =====
-- A ring that begins at another of its nodes.
use jeopardy.Prelude.{
  All, All-append, append-All, Absent, Distinct, Distinct-append, append-Distinct, ℕ, ◌+◌, ◌≤◌, ◌≡◌,
  refl, ap, List, [], ◌∷◌, ◌++◌, some, arith,
}
use jeopardy.Memory.{Ptr, Cells, read}
use jeopardy.HotRing.State.{Node}
use jeopardy.HotRing.Order.{descents, IsCyclic}
use jeopardy.HotRing.Ring.{Item, tags, Seg, Outside, Apart}

-- From `p` the links lead through `xs` to `z`.
abbrev pub Course : Cells Node → Ptr → List Item → Ptr → Type 0
Course c p [] z = p ≡ z
Course c p ((q, v) ∷ xs) z = (p ≡ q) × (read c q ≡ some v) × Course c v.list.addr xs z

module _ (c : Cells Node) where
  pub Seg-Course :
      (stop p : Ptr) (xs : List Item) → Seg c stop p xs → Course c p xs stop × Outside stop xs
  Seg-Course stop p [] s = (s, tt)
  Seg-Course stop p ((q, v) ∷ xs) s =
      let r = Seg-Course stop v.list.addr xs s.3 in ((s.0, s.1, r.0), (s.2, r.1))

  pub Course-Seg :
      (stop p : Ptr) (xs : List Item) → Course c p xs stop → Outside stop xs → Seg c stop p xs
  Course-Seg stop p [] s o = s
  Course-Seg stop p ((q, v) ∷ xs) s o = (s.0, s.1, o.0, Course-Seg stop v.list.addr xs s.2 o.1)

  pub Course-append :
      (p : Ptr) (xs : List Item) (q : Ptr) (v : Node) (ys : List Item) (z : Ptr)
      → Course c p (xs ++ (q, v) ∷ ys) z
      → Course c p xs q × (read c q ≡ some v) × Course c v.list.addr ys z
  Course-append p [] q v ys z s = (s.0, s.1, s.2)
  Course-append p ((a, u) ∷ xs) q v ys z s =
      let r = Course-append u.list.addr xs q v ys z s.2 in ((s.0, s.1, r.0), r.1, r.2)

  pub append-Course :
      (p : Ptr) (xs : List Item) (q : Ptr) (v : Node) (ys : List Item) (z : Ptr)
      → Course c p xs q
      → read c q ≡ some v
      → Course c v.list.addr ys z
      → Course c p (xs ++ (q, v) ∷ ys) z
  append-Course p [] q v ys z a e b = (a, e, b)
  append-Course p ((d, u) ∷ xs) q v ys z a e b =
      (a.0, a.1, append-Course u.list.addr xs q v ys z a.2 e b)

tags-append : (xs ys : List Item) → tags (xs ++ ys) ≡ tags xs ++ tags ys
tags-append [] ys = refl
tags-append ((q, v) ∷ xs) ys = ap (λ ts. v.tag ∷ ts) (tags-append xs ys)

descents-append :
    (a : ℕ) (ks : List ℕ) (b : ℕ) (ls : List ℕ) (z : ℕ)
    → descents a (ks ++ b ∷ ls) z ≡ descents a ks b + descents b ls z
unfolding descents
descents-append a [] b ls z = refl
descents-append a (c ∷ ks) b ls z = let r = descents-append c ks b ls z in omega arith

-- A ring has one descent wherever it begins.
pub rotate-IsCyclic :
    (a : Node) (p q : Ptr) (b : Node) (xs ys : List Item)
    → IsCyclic a.tag (tags (xs ++ (q, b) ∷ ys))
    → IsCyclic b.tag (tags (ys ++ (p, a) ∷ xs))
rotate-IsCyclic a p q b xs ys h =
    let d = descents-append a.tag (tags xs) b.tag (tags ys) a.tag in
    let e = descents-append b.tag (tags ys) a.tag (tags xs) b.tag in
    let h' : descents a.tag (tags xs ++ b.tag ∷ tags ys) a.tag ≤ 1 =
      rw (tags-append xs ((q, b) ∷ ys)) at h in
    rw (tags-append ys ((p, a) ∷ xs)) (omega arith)

-- The addresses of nodes that are apart are distinct.
abbrev addresses : List Item → List ℕ
addresses [] = []
addresses ((q, v) ∷ xs) = q ∷ addresses xs

Outside-Absent : (p : Ptr) (xs : List Item) → Outside p xs → Absent p (addresses xs)
Outside-Absent p [] h = tt
Outside-Absent p ((q, v) ∷ xs) h = (h.0, Outside-Absent p xs h.1)

Absent-Outside : (p : Ptr) (xs : List Item) → Absent p (addresses xs) → Outside p xs
Absent-Outside p [] h = tt
Absent-Outside p ((q, v) ∷ xs) h = (h.0, Absent-Outside p xs h.1)

Apart-Distinct : (xs : List Item) → Apart xs → Distinct (addresses xs)
Apart-Distinct [] h = tt
Apart-Distinct ((q, v) ∷ xs) h = (Outside-Absent q xs h.0, Apart-Distinct xs h.1)

Distinct-Apart : (xs : List Item) → Distinct (addresses xs) → Apart xs
Distinct-Apart [] h = tt
Distinct-Apart ((q, v) ∷ xs) h = (Absent-Outside q xs h.0, Distinct-Apart xs h.1)

addresses-append : (xs ys : List Item) → addresses (xs ++ ys) ≡ addresses xs ++ addresses ys
addresses-append [] ys = refl
addresses-append ((q, v) ∷ xs) ys = ap (λ ps. q ∷ ps) (addresses-append xs ys)

pub rotate-Apart : (xs ys : List Item) → Apart (xs ++ ys) → Apart (ys ++ xs)
rotate-Apart xs ys h =
    let d : Distinct (addresses xs ++ addresses ys) =
      rw (addresses-append xs ys) at (Apart-Distinct (xs ++ ys) h) in
    let s = Distinct-append (addresses xs) (addresses ys) d in
    Distinct-Apart (ys ++ xs)
      (rw (addresses-append ys xs) (append-Distinct (addresses ys) (addresses xs) s.1 s.0 s.2))

pub rotate-All : (P : Item → Type 0) (xs ys : List Item) → All P (xs ++ ys) → All P (ys ++ xs)
rotate-All P xs ys h = let s = All-append P xs ys h in append-All P ys xs s.1 s.0
