-- ===== src/HotRing/Place.antt =====
-- A ring with one node more: where `__hash_create` links it, and what the ring is then.
use jeopardy.Prelude.{
  All, ℕ, suc, length, ◌≡◌, ◌≢◌, refl, sym, ◌∙◌, ap, List, [], ◌∷◌, some, arith, Bool, true, false,
  inl, inr, Bool-cases, if◌then◌else◌,
}
use jeopardy.Memory.{Ptr, Cells, read}
use jeopardy.HotRing.State.{Node, Hash}
use jeopardy.HotRing.Create.{fits_between}
use jeopardy.HotRing.Order.{place}
use jeopardy.HotRing.Ring.{Item, tags, Seg, Outside, Apart}
use jeopardy.HotRing.Frame.{Reads, Seg-Same, Same-Outside}
use jeopardy.HotRing.Valid.{Home}

-- The node behind which the new one is linked, and whether the loop finds it before the ring ends.
unfoldable pub spot : ℕ → Ptr → Node → List Item → Item
spot t q u [] = (q, u)
spot t q u ((a, v) ∷ xs) = if fits_between t u.tag v.tag then (q, u) else spot t a v xs

unfoldable pub in_walk : ℕ → Node → List Item → Bool
in_walk t u [] = false
in_walk t u ((a, v) ∷ xs) = if fits_between t u.tag v.tag then true else in_walk t v xs

-- The link to `p`, and the new node behind `u`: its link is that of `u`, but for the counter.
abbrev pub relink : Node → Ptr → Node
relink u p = let l = u.list in record u { list = record l { addr = p } }

abbrev pub behind : Node → ℕ → ℕ → Ptr → Node
behind u t key value =
    let l = u.list in record { list = record l { counter = 1 }; tag = t; key = key; value = value }

module _ (t : ℕ) where
  pub spot-ne :
      (b q : Ptr) (u : Node) (xs : List Item) → q ≢ b → Outside b xs → (spot t q u xs).0 ≢ b
  unfolding spot
  spot-ne b q u [] ne o = ne
  spot-ne b q u ((a, v) ∷ xs) ne o = elim (Bool-cases (fits_between t u.tag v.tag)) [
    | inl e ↦ rw e ne
    | inr e ↦ rw e (spot-ne b a v xs o.0 o.1)
  ]

  pub spot-Reads :
      (c : Cells Node) (q : Ptr) (u : Node) (xs : List Item)
      → read c q ≡ some u
      → Reads c xs
      → read c (spot t q u xs).0 ≡ some (spot t q u xs).1
  unfolding spot
  spot-Reads c q u [] e r = e
  spot-Reads c q u ((a, v) ∷ xs) e r = elim (Bool-cases (fits_between t u.tag v.tag)) [
    | inl f ↦ rw f e
    | inr f ↦ rw f (spot-Reads c a v xs r.0 r.1)
  ]

module _ (p : Ptr) (t key : ℕ) (value : Ptr) where
  -- The node before, as it is after the insertion, and the nodes that follow it.
  unfoldable pub front : Node → List Item → Node
  front u [] = relink u p
  front u ((a, v) ∷ xs) = if fits_between t u.tag v.tag then relink u p else u

  unfoldable pub back : Node → List Item → List Item
  unfolding front
  back u [] = (p, behind u t key value) ∷ []
  back u ((a, v) ∷ xs) =
      if fits_between t u.tag v.tag
      then (p, behind u t key value) ∷ (a, v) ∷ xs
      else (a, front v xs) ∷ back v xs

  pub front-tag : (u : Node) (xs : List Item) → (front u xs).tag ≡ u.tag
  unfolding front
  front-tag u [] = refl
  front-tag u ((a, v) ∷ xs) = ground arith

  pub tags-back : (u : Node) (xs : List Item) → tags (back u xs) ≡ place t u.tag (tags xs)
  unfolding back place front
  tags-back u [] = refl
  tags-back u ((a, v) ∷ xs) = ground (arith, tags-back v xs, front-tag v xs)

  pub length-back : (u : Node) (xs : List Item) → length (back u xs) ≡ suc (length xs)
  unfolding back
  length-back u [] = refl
  length-back u ((a, v) ∷ xs) = ground (arith, length-back v xs)

  pub at-back :
      (P : Ptr → Type 0) (u : Node) (xs : List Item)
      → P p
      → All (λ x. P x.0) xs
      → All (λ x. P x.0) (back u xs)
  unfolding back
  at-back P u [] ne o = (ne, tt)
  at-back P u ((a, v) ∷ xs) ne o = elim (Bool-cases (fits_between t u.tag v.tag)) [
    | inl e ↦ rw e (ne, o)
    | inr e ↦ rw e (o.0, at-back P v xs ne o.1)
  ]

  pub Apart-back : (u : Node) (xs : List Item) → Outside p xs → Apart xs → Apart (back u xs)
  unfolding back
  Apart-back u [] o d = (tt, tt)
  Apart-back u ((a, v) ∷ xs) o d = elim (Bool-cases (fits_between t u.tag v.tag)) [
    | inl e ↦ rw e (o, d)
    | inr e ↦ rw e (at-back (λ b. b ≢ a) v xs (λ s. o.0 (sym s)) d.0, Apart-back v xs o.1 d.1)
  ]

  module _ (h : Hash) (i : ℕ) where
    pub Home-front : (u : Node) (xs : List Item) → Home h i u → Home h i (front u xs)
    unfolding front
    Home-front u [] a = a
    Home-front u ((b, v) ∷ xs) a = elim (Bool-cases (fits_between t u.tag v.tag)) [
      | inl e ↦ rw e a
      | inr e ↦ rw e a
    ]

    pub Home-back :
        (u : Node) (xs : List Item)
        → Home h i (behind u t key value)
        → All (λ x. Home h i x.1) xs
        → All (λ x. Home h i x.1) (back u xs)
    unfolding back
    Home-back u [] new a = (new, tt)
    Home-back u ((b, v) ∷ xs) new a = elim (Bool-cases (fits_between t u.tag v.tag)) [
      | inl e ↦ rw e (new, a)
      | inr e ↦ rw e (Home-front v xs a.0, Home-back v xs new a.1)
    ]

  -- A memory that differs from `c` by the new node and by the link of the node before it.
  pub record Linked (c d : Cells Node) (at : Item) : Type 0 where
    pub new : read d p ≡ some (behind at.1 t key value)
    pub link : read d at.0 ≡ some (relink at.1 p)
    pub rest : (a : Ptr) → a ≢ p → a ≢ at.0 → read d a ≡ read c a

  pub Seg-back :
      (c d : Cells Node) (stop q : Ptr) (u : Node) (xs : List Item)
      → read c q ≡ some u
      → Seg c stop u.list.addr xs
      → Outside p xs
      → q ≢ p
      → p ≢ stop
      → Outside q xs
      → Apart xs
      → Linked c d (spot t q u xs)
      → (read d q ≡ some (front u xs)) × Seg d stop (front u xs).list.addr (back u xs)
  unfolding front back spot
  Seg-back c d stop q u [] e s op qp ps oq ap l = (l.link, (refl, l.new, ps, s))
  Seg-back c d stop q u ((a, v) ∷ xs) e s op qp ps oq ap l =
      elim (Bool-cases (fits_between t u.tag v.tag)) [
        | inl f ↦
            let l' : Linked c d (q, u) = rw f at l in
            rw f (
              l'.link,
              (
                refl,
                l'.new,
                ps,
                (
                  s.0,
                  l'.rest a op.0 oq.0 ∙ s.1,
                  s.2,
                  Seg-Same c d stop v.list.addr xs (Same-Outside c d p q xs l'.rest op.1 oq.1) s.3,
                ),
              ),
            )
        | inr f ↦
            let l' : Linked c d (spot t a v xs) = rw f at l in
            let ih = Seg-back c d stop a v xs s.1 s.3 op.1 op.0 ps ap.0 ap.1 l' in
            rw f (
              l'.rest q qp (λ e'. spot-ne t q a v xs oq.0 oq.1 (sym e')) ∙ e,
              (s.0, ih.0, s.2, ih.1),
            )
      ]
