-- ===== src/HotRing/Cut.antt =====
-- A ring with one node less: what `list_del` leaves, and what the ring is then.
use jeopardy.Prelude.{
  All, ℕ, ◌≤◌, ◌≡◌, ◌≢◌, refl, sym, ◌∙◌, List, [], ◌∷◌, Option, some, arith, inl, inr, Bool-cases,
  ◌==◌, if◌then◌else◌,
}
use jeopardy.Memory.{Ptr, Cells, read}
use jeopardy.HotRing.State.{Node, Hash}
use jeopardy.HotRing.Order.{descents, descents-skip}
use jeopardy.HotRing.Ring.{Item, tags, Seg, Outside, Apart, locate}
use jeopardy.HotRing.Place.{relink}
use jeopardy.HotRing.Frame.{Seg-Same, Same-Outside}
use jeopardy.HotRing.Valid.{Home, find_value}

-- The node before, and the nodes behind it, without the first node that has the key.
unfoldable pub cut_front : ℕ → Node → List Item → Node
cut_front key u [] = u
cut_front key u ((a, v) ∷ xs) = if v.key == key then relink u v.list.addr else u

unfoldable pub cut_back : ℕ → List Item → List Item
unfolding cut_front
cut_back key [] = []
cut_back key ((a, v) ∷ xs) = if v.key == key then xs else (a, cut_front key v xs) ∷ cut_back key xs

-- A memory where the node before `q` links to the node behind it.
pub record Unlinked (c d : Cells Node) (q : Ptr) (v : Node) (prev : Ptr) : Type 0 where
  pub link : (u : Node) → read c prev ≡ some u → read d prev ≡ some (relink u v.list.addr)
  pub rest : (a : Ptr) → a ≢ q → a ≢ prev → read d a ≡ read c a

module _ (key : ℕ) where
  pub cut_front-tag : (u : Node) (xs : List Item) → (cut_front key u xs).tag ≡ u.tag
  unfolding cut_front
  cut_front-tag u [] = refl
  cut_front-tag u ((a, v) ∷ xs) = ground arith

  pub at-cut :
      (P : Ptr → Type 0) (xs : List Item) → All (λ x. P x.0) xs → All (λ x. P x.0) (cut_back key xs)
  unfolding cut_back
  at-cut P [] a = tt
  at-cut P ((b, v) ∷ xs) a = elim (Bool-cases (v.key == key)) [
    | inl e ↦ rw e a.1
    | inr e ↦ rw e (a.0, at-cut P xs a.1)
  ]

  pub Apart-cut : (xs : List Item) → Apart xs → Apart (cut_back key xs)
  unfolding cut_back
  Apart-cut [] d = tt
  Apart-cut ((b, v) ∷ xs) d = elim (Bool-cases (v.key == key)) [
    | inl e ↦ rw e d.1
    | inr e ↦ rw e (at-cut (λ a. a ≢ b) xs d.0, Apart-cut xs d.1)
  ]

  module _ (h : Hash) (i : ℕ) where
    pub Home-cut_front : (u : Node) (xs : List Item) → Home h i u → Home h i (cut_front key u xs)
    unfolding cut_front
    Home-cut_front u [] a = a
    Home-cut_front u ((b, v) ∷ xs) a = elim (Bool-cases (v.key == key)) [
      | inl e ↦ rw e a
      | inr e ↦ rw e a
    ]

    pub Home-cut :
        (xs : List Item) → All (λ x. Home h i x.1) xs → All (λ x. Home h i x.1) (cut_back key xs)
    unfolding cut_back
    Home-cut [] a = tt
    Home-cut ((b, v) ∷ xs) a = elim (Bool-cases (v.key == key)) [
      | inl e ↦ rw e a.1
      | inr e ↦ rw e (Home-cut_front v xs a.0, Home-cut xs a.1)
    ]

  pub descents-cut :
      (a : ℕ) (xs : List Item) (z : ℕ)
      → descents a (tags (cut_back key xs)) z ≤ descents a (tags xs) z
  unfolding descents cut_back
  descents-cut a [] z = omega arith
  descents-cut a ((b, v) ∷ xs) z =
      ground (arith, descents-skip a v.tag (tags xs) z, descents-cut v.tag xs z, cut_front-tag v xs)

  pub find-cut_other :
      (k : ℕ) (q : Ptr) (u : Node) (xs : List Item)
      → key ≢ k
      → find_value k ((q, cut_front key u xs) ∷ cut_back key xs) ≡ find_value k ((q, u) ∷ xs)
  unfolding cut_front cut_back
  find-cut_other k q u [] ne = refl
  find-cut_other k q u ((a, v) ∷ xs) ne = ground (arith, find-cut_other k a v xs)

  -- The addresses that the walk ends at are not ahead of it.
  locate_ne :
      (b p : Ptr) (xs : List Item) (q : Ptr) (v : Node) (prev : Ptr)
      → p ≢ b
      → Outside b xs
      → locate key p xs ≡ some (q, v, prev)
      → (q ≢ b) × (prev ≢ b)
  unfolding locate
  locate_ne b p [] q v prev ne o e = cc
  locate_ne b p ((a, w) ∷ xs) q v prev ne o e = elim (Bool-cases (w.key == key)) [
    | inl hit ↦
        let e' : ◌≡◌ {A = Option (Ptr × Node × Ptr)} (some (a, w, p)) (some (q, v, prev)) =
          rw hit at e in
        (ground (arith, o.0), ground (arith, ne))
    | inr miss ↦ locate_ne b a xs q v prev o.0 o.1 (rw miss at e)
  ]

  pub Seg-cut :
      (c d : Cells Node) (stop p : Ptr) (u : Node) (xs : List Item) (q : Ptr) (v : Node)
      (prev : Ptr)
      → read c p ≡ some u
      → Seg c stop u.list.addr xs
      → Outside p xs
      → Apart xs
      → locate key p xs ≡ some (q, v, prev)
      → Unlinked c d q v prev
      → (read d p ≡ some (cut_front key u xs))
        × Seg d stop (cut_front key u xs).list.addr (cut_back key xs)
  unfolding cut_front cut_back locate
  Seg-cut c d stop p u [] q v prev e s o ap found l = cc
  Seg-cut c d stop p u ((a, w) ∷ xs) q v prev e s o ap found l = elim (Bool-cases (w.key == key)) [
    | inl hit ↦
        let e' : ◌≡◌ {A = Option (Ptr × Node × Ptr)} (some (a, w, p)) (some (q, v, prev)) =
          rw hit at found in
        let at : a ≡ q = ground arith in
        let same : w ≡ v = ground arith in
        let before : p ≡ prev = ground arith in
        let l' : Unlinked c d a w p = rw (at, same, before) l in
        rw hit (
          l'.link u e,
          Seg-Same c d stop w.list.addr xs (Same-Outside c d a p xs l'.rest ap.0 o.1) s.3,
        )
    | inr miss ↦
        let found' = rw miss at found in
        let ih = Seg-cut c d stop a w xs q v prev s.1 s.3 ap.0 ap.1 found' l in
        let away = locate_ne p a xs q v prev o.0 o.1 found' in
        rw miss (l.rest p (λ x. away.0 (sym x)) (λ x. away.1 (sym x)) ∙ e, (s.0, ih.0, s.2, ih.1))
  ]
