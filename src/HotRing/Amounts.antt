-- ===== src/HotRing/Amounts.antt =====
-- How often a key stands in the rings of a table, and that the rings do not grow.
use jeopardy.Prelude.{
  ℕ, suc, ◌≡◌, ◌≤◌, refl, List, [], ◌∷◌, Option, none, some, arith, inl, inr, Bool-cases, ◌==◌,
  ==_iff, if◌then◌else◌,
}
use jeopardy.HotRing.Ring.{Item}
use jeopardy.HotRing.Valid.{Ring, items, ring_size, put_ring, find_value}

-- How often a key stands in a ring.
unfoldable pub occurrences : ℕ → List Item → ℕ
occurrences key [] = 0
occurrences key ((q, v) ∷ xs) =
    if v.key == key then suc (occurrences key xs) else occurrences key xs

pub occurrences-none :
    (key : ℕ) (xs : List Item) → find_value key xs ≡ none → occurrences key xs ≡ 0
unfolding occurrences
occurrences-none key [] h = refl
occurrences-none key ((q, v) ∷ xs) h = ground (arith, occurrences-none key xs)

abbrev pub ring_count : ℕ → Option Ring → ℕ
ring_count key none = 0
ring_count key (some r) = occurrences key (items r)

-- The rings hold every key at most once.
abbrev pub IsOnce : (ℕ → Option Ring) → Type 0
IsOnce rings = (j key : ℕ) → ring_count key (rings j) ≤ 1

-- No ring is longer than before, or holds a key more often.
abbrev pub NoMore : (ℕ → Option Ring) → (ℕ → Option Ring) → Type 0
NoMore rings rings' =
    (j : ℕ)
    → (ring_size (rings' j) ≤ ring_size (rings j))
      × ((key : ℕ) → ring_count key (rings' j) ≤ ring_count key (rings j))

pub put_ring-NoMore :
    (rings : ℕ → Option Ring) (i : ℕ) (o : Option Ring)
    → ring_size o ≤ ring_size (rings i)
    → ((key : ℕ) → ring_count key o ≤ ring_count key (rings i))
    → NoMore rings (put_ring rings i o)
put_ring-NoMore rings i o size count j = elim (Bool-cases (j == i)) [
  | inl same ↦ rw same (rw ((==_iff j i).0 same) (size, count))
  | inr away ↦ rw away (omega arith, λ key. omega arith)
]
