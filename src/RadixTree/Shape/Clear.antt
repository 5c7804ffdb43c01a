-- ===== src/RadixTree/Shape/Clear.antt =====
-- radix_tree/: what a place or a slot that is emptied leaves of the shape of a tree.
use jeopardy.Prelude.{
  ℕ, zero, suc, ◌+◌, ◌-◌, ◌*◌, ◌%◌, ◌/◌, ◌^◌, ◌≡◌, ◌≢◌, ◌<◌, refl, inl, inr, none, some, List, [],
  ◌∷◌, arith, ◌==◌, ◌&&◌, get_elem?, set, length-set, get_elem?-set_self, get_elem?-set_ne, false,
  Bool-cases, some-some, sym, ◌∙◌, ap, if◌then◌else◌,
}
use jeopardy.Memory.{Ptr, null}
use jeopardy.RadixTree.State.{Node}
use jeopardy.RadixTree.Shape.Place.{Places, pointer_of, below, filled, IsAt}
use jeopardy.RadixTree.Shape.Frame.{filled_le}

abbrev pub place_off : Places → ℕ → ℕ → Places
place_off place n q i j = if (i == n) && (j == q) then none else place i j

pub place_off_self : (place : Places) (n q : ℕ) → place_off place n q n q ≡ none
place_off_self place n q = ground arith

pub place_off-ne :
    (place : Places) (n q i j : ℕ) → (i ≡ n → j ≢ q) → place_off place n q i j ≡ place i j
place_off-ne place n q i j ne = ground arith

pub place_off-some :
    (place : Places) (n q i j : ℕ) (a : Ptr)
    → place_off place n q i j ≡ some a
    → (i ≡ n → j ≢ q) × (place i j ≡ some a)
place_off-some place n q i j a e = elim (Bool-cases (i == n)) [
  | inl y ↦ elim (Bool-cases (j == q)) [
    | inl z ↦ absurd (ground arith)
    | inr z ↦ (λ u. ground arith, ground arith)
  ]
  | inr y ↦ (λ u. ground arith, ground arith)
]

pub below-place_off :
    (place : Places) (items : ℕ → Ptr) (n q i j : ℕ)
    → (i ≡ suc n → j ≢ q)
    → below (place_off place n q) items i j ≡ below place items i j
below-place_off place items n q zero j ne = refl
below-place_off place items n q (suc i) j ne =
    rw (place_off-ne place n q i j (λ e. ne (ap suc e))) refl

pub filled-zero :
    (es : List Ptr) (k : ℕ) (e : Ptr) → filled es ≡ 0 → get_elem? es k ≡ some e → e ≡ null
filled-zero [] k e z at = cc
filled-zero (x ∷ es) zero e z at = ground arith
filled-zero (x ∷ es) (suc k) e z at = filled-zero es k e (ground arith) at

-- Where one slot is filled and it is the first, the others are empty.
pub filled-one :
    (es : List Ptr) (k : ℕ) (x e : Ptr)
    → filled es ≡ 1
    → get_elem? es 0 ≡ some x
    → x ≢ null
    → get_elem? es (suc k) ≡ some e
    → e ≡ null
filled-one [] k x e z first ne at = cc
filled-one (y ∷ es) k x e z first ne at =
    let s : y ≡ x = some-some y x first in
    let u : y ≢ null = λ w. ne (sym s ∙ w) in filled-zero es k e (ground arith) at

filled-clear :
    (es : List Ptr) (k : ℕ) (e : Ptr)
    → get_elem? es k ≡ some e
    → (e == null) ≡ false
    → suc (filled (set es k null)) ≡ filled es
filled-clear [] k e at ne = cc
filled-clear (x ∷ es) zero e at ne = let s : x ≡ e = some-some x e at in ground arith
filled-clear (x ∷ es) (suc k) e at ne = let rest = filled-clear es k e at ne in ground arith

module _ (place place' : Places) (items items' : ℕ → Ptr) (n q : ℕ) (v : Node)
    (a : IsAt place items n q v)
    (same_parent : pointer_of (place' (suc n) (q / 64)) ≡ pointer_of (place (suc n) (q / 64)))
    (o count nr_values : ℕ) (less : count ≡ (v.count + (2 ^ 32 - 1)) % 2 ^ 32) (lt : o < 64)
    (ne : (below place items n (q * 64 + o) == null) ≡ false)
    (cleared : below place' items' n (q * 64 + o) ≡ null)
    (same : (k : ℕ)
      → k < 64
      → k ≢ o
      → below place' items' n (q * 64 + k) ≡ below place items n (q * 64 + k)) where
  -- The node after its slot `o` is emptied.
  abbrev pub without_entry : Node
  without_entry = record v { count = count; nr_values = nr_values; slots = set v.slots o null }

  pub clear-IsAt : IsAt place' items' n q without_entry
  clear-IsAt = record {
    shifted = a.shifted;
    full = length-set v.slots o null ∙ a.full;
    offset_is = a.offset_is;
    parent_is = a.parent_is ∙ sym same_parent;
    counted =
        let f = filled-clear v.slots o (below place items n (q * 64 + o)) (a.slot o lt) ne in
        let l = filled_le v.slots in let c = a.counted in let u = a.full in omega arith;
    slot = λ k below64. elim (Bool-cases (k == o)) [
      | inl y ↦
          let s : k ≡ o = ground arith in
          rw (s, cleared) (get_elem?-set_self v.slots o null (a.slot o lt))
      | inr y ↦
          let s : k ≢ o = ground arith in
          rw (same k below64 s, get_elem?-set_ne v.slots o k null (λ z. s (sym z)))
            (a.slot k below64)
    ];
  }
