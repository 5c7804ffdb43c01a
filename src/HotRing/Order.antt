-- ===== src/HotRing/Order.antt =====
-- The order of a ring: ascending but for one place, where it starts again. What the early exits of
-- `__hash_get` and the insertion points of `__hash_create` do to it, on plain numbers.
use jeopardy.Prelude.{
  Absent, ℕ, ◌+◌, ◌≤◌, ◌<◌, ◌≡◌, ◌≢◌, ◌⊎◌, inl, inr, true, List, [], ◌∷◌, arith, ltb, if◌then◌else◌,
  Bool-cases,
}
use jeopardy.HotRing.Get.{passed}
use jeopardy.HotRing.Create.{fits_between}

abbrev pub drop_at : ℕ → ℕ → ℕ
drop_at a b = if ltb b a then 1 else 0

-- The number of descents in the walk from `a` through `ks` to `z`.
unfoldable pub descents : ℕ → List ℕ → ℕ → ℕ
descents a [] z = drop_at a z
descents a (b ∷ ks) z = drop_at a b + descents b ks z

-- A ring that begins at `a`: the walk comes back to `a` with one descent at most.
abbrev pub IsCyclic : ℕ → List ℕ → Type 0
IsCyclic a ks = descents a ks a ≤ 1

pub alone-IsCyclic : (a : ℕ) → IsCyclic a []
unfolding descents
alone-IsCyclic a = ground arith

-- Where the early exit is sound: the walk has passed no descent yet, or it meets no more.
abbrev pub Walk : ℕ → ℕ → List ℕ → Type 0
Walk z a ks = (descents a ks z ≤ 1) × ((z ≤ a) ⊎ (descents a ks z ≡ 0))

pub Walk-start : (a : ℕ) (ks : List ℕ) → IsCyclic a ks → Walk a a ks
Walk-start a ks h = (h, inl (omega arith))

pub Walk-step : (z a b : ℕ) (ks : List ℕ) → Walk z a (b ∷ ks) → Walk z b ks
unfolding descents
Walk-step z a b ks w = (ground arith, ground arith)

ascending-le : (a : ℕ) (ks : List ℕ) (z : ℕ) → descents a ks z ≡ 0 → a ≤ z
unfolding descents
ascending-le a [] z h = ground arith
ascending-le a (b ∷ ks) z h = ground (arith, ascending-le b ks z)

module _ (key : ℕ) where
  Absent-below : (b : ℕ) (ks : List ℕ) (z : ℕ) → key < b → descents b ks z ≡ 0 → Absent key ks
  unfolding descents
  Absent-below b [] z lo h = tt
  Absent-below b (c ∷ ks) z lo h = (ground arith, Absent-below c ks z (ground arith) (ground arith))

  Absent-above : (b : ℕ) (ks : List ℕ) (z : ℕ) → z < key → descents b ks z ≡ 0 → Absent key ks
  unfolding descents
  Absent-above b [] z hi h = tt
  Absent-above b (c ∷ ks) z hi h =
      let rest : descents c ks z ≡ 0 = ground arith in
      (ground (arith, ascending-le c ks z), Absent-above c ks z hi rest)

  Absent-gap :
      (b : ℕ) (ks : List ℕ) (z : ℕ) → key < b → z < key → descents b ks z ≤ 1 → Absent key ks
  unfolding descents
  Absent-gap b [] z lo hi h = tt
  Absent-gap b (c ∷ ks) z lo hi h = elim (Bool-cases (ltb c b)) [
    | inl down ↦
        let rest : descents c ks z ≡ 0 = ground arith in
        (ground (arith, ascending-le c ks z), Absent-above c ks z hi rest)
    | inr up ↦ (ground arith, Absent-gap c ks z (ground arith) hi (ground arith))
  ]

  -- When one of the three tests stops the walk, the key is in no node ahead.
  pub passed-Absent :
      (z a b : ℕ) (ks : List ℕ)
      → Walk z a (b ∷ ks)
      → passed key a b ≡ true
      → (b ≢ key) × Absent key ks
  unfolding descents passed
  passed-Absent z a b ks w stop = elim (Bool-cases (ltb b a)) [
    | inl down ↦
        let rest : descents b ks z ≡ 0 = ground arith in
        elim (Bool-cases (ltb key b)) [
          | inl lo ↦ (ground arith, Absent-below b ks z (ground arith) rest)
          | inr no_lo ↦ (ground arith, Absent-above b ks z (ground arith) rest)
        ]
    | inr up ↦ (
      ground arith,
      elim w.1 [
        | inl le ↦ Absent-gap b ks z (ground arith) (ground arith) (ground arith)
        | inr flat ↦ Absent-below b ks z (ground arith) (ground arith)
      ],
    )
  ]

-- Where `__hash_create` puts a tag behind `a`.
unfoldable pub place : ℕ → ℕ → List ℕ → List ℕ
place t a [] = t ∷ []
place t a (b ∷ ks) = if fits_between t a b then t ∷ b ∷ ks else b ∷ place t b ks

-- What the walk has skipped: before the descent `t` is beside the range, behind it `t` is ahead.
abbrev Ahead : ℕ → ℕ → ℕ → List ℕ → Type 0
Ahead z t a ks = (a < t) × (t ≤ z) × (descents a ks z ≡ 0)

abbrev Beside : ℕ → ℕ → ℕ → List ℕ → Type 0
Beside z t a ks = (z ≤ a) × ((t ≤ z) ⊎ (a < t)) × (descents a ks z ≤ 1)

descents-place-Ahead : (z t a : ℕ) (ks : List ℕ) → Ahead z t a ks → descents a (place t a ks) z ≡ 0
unfolding descents place fits_between
descents-place-Ahead z t a [] h = ground arith
descents-place-Ahead z t a (b ∷ ks) h = ground (arith, descents-place-Ahead z t b ks)

descents-place-Beside :
    (z t a : ℕ) (ks : List ℕ) → Beside z t a ks → descents a (place t a ks) z ≤ 1
unfolding descents place fits_between
descents-place-Beside z t a [] h = ground arith
descents-place-Beside z t a (b ∷ ks) h =
    ground (arith, descents-place-Ahead z t b ks, descents-place-Beside z t b ks)

-- The insertion point that `__hash_create` takes keeps the cyclic order: a tag placed in a ring with
-- at most one descent leaves a ring with at most one descent.
pub place-IsCyclic : (t a : ℕ) (ks : List ℕ) → IsCyclic a ks → IsCyclic a (place t a ks)
place-IsCyclic t a ks h = descents-place-Beside a t a ks (ground arith)

-- One node less makes no more descents.
pub descents-skip :
    (a b : ℕ) (ks : List ℕ) (z : ℕ) → descents a ks z ≤ drop_at a b + descents b ks z
unfolding descents
descents-skip a b [] z = ground arith
descents-skip a b (c ∷ ks) z = ground arith
