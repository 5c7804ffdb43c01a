-- ===== src/HotRing/Ring.antt =====
-- Rings in memory: the nodes that the `addr` fields link, and what the writes do to them.
use jeopardy.Prelude.{
  All, Absent, ℕ, zero, suc, ◌+◌, ◌<◌, ◌≡◌, ◌≢◌, refl, sym, ◌∙◌, List, [], ◌∷◌, Option, none, some,
  arith, ◌==◌, if◌then◌else◌, length, true, false, inl, inr, Bool-cases, ap,
}
use jeopardy.Memory.{Ptr, Cells, read, write, Run, ok}
use jeopardy.HotRing.State.{Node, Mem}
use jeopardy.HotRing.Order.{Walk, Walk-step, passed-Absent}
use jeopardy.HotRing.Get.{Got, not_found, cold, counted, passed, get_loop}

-- A node with its address.
abbrev pub Item : Type 0
Item = Ptr × Node

abbrev pub tags : List Item → List ℕ
tags [] = []
tags ((q, v) ∷ xs) = v.tag ∷ tags xs

-- From `p` the links lead through `xs` to `stop`.
abbrev pub Seg : Cells Node → Ptr → Ptr → List Item → Type 0
Seg c stop p [] = p ≡ stop
Seg c stop p ((q, v) ∷ xs) = (p ≡ q) × (read c q ≡ some v) × (q ≢ stop) × Seg c stop v.list.addr xs

-- `p` is the address of none of the nodes.
abbrev pub Outside : Ptr → List Item → Type 0
Outside p xs = All (λ x. x.0 ≢ p) xs

abbrev pub Apart : List Item → Type 0
Apart [] = Unit
Apart ((q, v) ∷ xs) = Outside q xs × Apart xs

-- A write that leaves the links alone: the node at `q` becomes `w`.
unfoldable pub replace : Ptr → Node → List Item → List Item
replace q w [] = []
replace q w ((a, v) ∷ xs) = (a, if a == q then w else v) ∷ replace q w xs

module _ (c : Cells Node) (stop : Ptr) where
  pub Seg-replace :
      (q : Ptr) (v w : Node) (p : Ptr) (xs : List Item)
      → read c q ≡ some v
      → w.list.addr ≡ v.list.addr
      → Seg c stop p xs
      → Seg (write c q w) stop p (replace q w xs)
  unfolding replace read
  Seg-replace q v w p [] e same s = s
  Seg-replace q v w p ((a, u) ∷ xs) e same s =
      let still : (if a == q then w else u).list.addr ≡ u.list.addr = ground arith in
      (s.0, ground arith, s.2, rw still (Seg-replace q v w u.list.addr xs e same s.3))

  pub Seg-write :
      (q : Ptr) (w : Node) (p : Ptr) (xs : List Item)
      → Outside q xs
      → Seg c stop p xs
      → Seg (write c q w) stop p xs
  unfolding read
  Seg-write q w p [] out s = s
  Seg-write q w p ((a, u) ∷ xs) out s =
      (s.0, ground arith, s.2, Seg-write q w u.list.addr xs out.1 s.3)

-- The first node with `key` behind `prev`, and the node before it; no exit on the way.
unfoldable pub locate : ℕ → Ptr → List Item → Option (Ptr × Node × Ptr)
locate key prev [] = none
locate key prev ((q, v) ∷ xs) = if v.key == key then some (q, v, prev) else locate key q xs

-- In one bucket, the keys are the tags from a base upwards.
abbrev pub Based : ℕ → List Item → Type 0
Based base xs = All (λ x. x.1.key ≡ base + x.1.tag) xs

locate-Absent :
    (base t : ℕ) (prev : Ptr) (xs : List Item)
    → Based base xs
    → Absent t (tags xs)
    → locate (base + t) prev xs ≡ none
unfolding locate
locate-Absent base t prev [] b h = refl
locate-Absent base t prev ((q, v) ∷ xs) b h = ground (arith, locate-Absent base t q xs b.1 h.1)

-- What the walk returns, and the access that it counts.
abbrev pub walked : Mem → Option (Ptr × Node × Ptr) → Run Mem Got
walked m none = ok not_found m
walked m (some (q, v, prev)) = ok (cold q prev) (record m { nodes = write m.nodes q (counted v) })

-- `passed` on keys is `passed` on tags.
passed-base : (base t a b : ℕ) → passed (base + t) (base + a) (base + b) ≡ passed t a b
unfolding passed
passed-base base t a b = ground arith

-- The early exits lose nothing: the walk finds what a search of the whole ring finds.
pub get_loop-locate :
    (fuel : ℕ) (head : Ptr) (base t z : ℕ) (m : Mem) (prev cur : Ptr) (u : Node) (xs : List Item)
    → read m.nodes prev ≡ some u
    → u.key ≡ base + u.tag
    → Seg m.nodes head cur xs
    → Based base xs
    → Walk z u.tag (tags xs)
    → length xs < fuel
    → get_loop fuel head (base + t) prev cur m ≡ walked m (locate (base + t) prev xs)
unfolding get_loop locate
get_loop-locate zero head base t z m prev cur u xs e k s b w enough = absurd (omega arith)
get_loop-locate (suc fuel) head base t z m prev cur u [] e k s b w enough = ground arith
get_loop-locate (suc fuel) head base t z m prev cur u ((q, v) ∷ xs) e k s b w enough =
    let moved : (cur == head) ≡ false = ground arith in
    let here : read m.nodes cur ≡ some v = ground arith in
    rw (moved, here)
      (elim (Bool-cases (v.key == (base + t))) [
        | inl hit ↦ rw hit (rw s.0 refl)
        | inr miss ↦
            rw (miss, e, s.0)
              (elim (Bool-cases (passed (base + t) u.key v.key)) [
                | inl stop ↦
                    let stop' : passed t u.tag v.tag ≡ true =
                      sym (passed-base base t u.tag v.tag) ∙ (rw (k, b.0) at stop) in
                    rw (stop, locate-Absent base t q xs b.1 (passed-Absent t z _ _ _ w stop').1)
                      refl
                | inr on ↦ rw on (
                    get_loop-locate fuel head base t z m q v.list.addr v xs s.1 b.0 s.3 b.1
                      (Walk-step z u.tag v.tag (tags xs) w) (omega arith))
              ])
      ])

pub length-replace : (q : Ptr) (w : Node) (xs : List Item) → length (replace q w xs) ≡ length xs
unfolding replace
length-replace q w [] = refl
length-replace q w ((a, u) ∷ xs) = ap (λ n. suc n) (length-replace q w xs)
