-- ===== src/RadixTree/Shape/Frame.antt =====
-- radix_tree/: what a change to one node or one item leaves of the shape of a tree.
use jeopardy.Prelude.{
  ℕ, zero, suc, ◌+◌, ◌*◌, ◌%◌, ◌/◌, ◌^◌, ◌≡◌, ◌≢◌, ◌≤◌, ◌<◌, refl, ◌⊎◌, inl, inr, none, some, List,
  [], ◌∷◌, arith, ◌==◌, length, get_elem?, set, length-set, get_elem?-set_self, get_elem?-set_ne,
  false, Bool-cases, sym, ◌∙◌, ap,
}
use jeopardy.Memory.{Ptr, null, read}
use jeopardy.RadixTree.State.{Node, Mem}
use jeopardy.RadixTree.Shape.Place.{Places, pointer_of, below, filled, place_at, IsAt, Held}

pub place_at_self : (place : Places) (n q : ℕ) (p : Ptr) → place_at place n q p n q ≡ some p
place_at_self place n q p = ground arith

pub place_at-ne :
    (place : Places) (n q : ℕ) (p : Ptr) (i j : ℕ)
    → (i ≡ n → j ≢ q)
    → place_at place n q p i j ≡ place i j
place_at-ne place n q p i j ne = ground arith

pub place_at-cases :
    (place : Places) (n q : ℕ) (p : Ptr) (i j : ℕ) (a : Ptr)
    → place_at place n q p i j ≡ some a
    → ((i ≡ n) × (j ≡ q) × (a ≡ p)) ⊎ ((i ≡ n → j ≢ q) × (place i j ≡ some a))
place_at-cases place n q p i j a e = elim (Bool-cases (i == n)) [
  | inl y ↦ elim (Bool-cases (j == q)) [
    | inl z ↦ inl (ground arith, ground arith, ground arith)
    | inr z ↦ inr (λ u. ground arith, ground arith)
  ]
  | inr y ↦ inr (λ u. ground arith, ground arith)
]

-- A new place for a node hides no other.
pub place_at-keeps :
    (place : Places) (n q : ℕ) (p : Ptr) (i j : ℕ) (a : Ptr)
    → place n q ≡ none
    → place i j ≡ some a
    → place_at place n q p i j ≡ some a
place_at-keeps place n q p i j a e s =
    place_at-ne place n q p i j (λ x y. let z : place i j ≡ none = rw (x, y) e in absurd (cc)) ∙ s

pub place_at-apart :
    (place : Places) (n q : ℕ) (p : Ptr)
    → ((i j : ℕ) (a : Ptr) → place i j ≡ some a → a ≢ p)
    → ((b c i j : ℕ) (a : Ptr) → place b c ≡ some a → place i j ≡ some a → (b ≡ i) × (c ≡ j))
    → (b c i j : ℕ) (a : Ptr) → place_at place n q p b c ≡ some a
    → place_at place n q p i j ≡ some a
    → (b ≡ i) × (c ≡ j)
place_at-apart place n q p ne apart b c i j a x y = elim (place_at-cases place n q p b c a x) [
  | inl (d, e, f) ↦ elim (place_at-cases place n q p i j a y) [
    | inl (g, k, l) ↦ (d ∙ sym g, e ∙ sym k)
    | inr (g, k) ↦ absurd (ne i j a k f)
  ]
  | inr (d, e) ↦ elim (place_at-cases place n q p i j a y) [
    | inl (f, g, k) ↦ absurd (ne b c a e k)
    | inr (f, g) ↦ apart b c i j a e g
  ]
]

pub below-place_at :
    (place : Places) (items : ℕ → Ptr) (n q : ℕ) (p : Ptr) (i j : ℕ)
    → (i ≡ suc n → j ≢ q)
    → below (place_at place n q p) items i j ≡ below place items i j
below-place_at place items n q p zero j ne = refl
below-place_at place items n q p (suc i) j ne =
    rw (place_at-ne place n q p i j (λ e. ne (ap suc e))) refl

pub filled_le : (es : List Ptr) → filled es ≤ length es
filled_le [] = omega arith
filled_le (e ∷ es) = let rest = filled_le es in ground arith

filled-set :
    (es : List Ptr) (k : ℕ) (e : Ptr)
    → get_elem? es k ≡ some null
    → (e == null) ≡ false
    → filled (set es k e) ≡ suc (filled es)
filled-set [] k e at ne = cc
filled-set (x ∷ es) zero e at ne = ground arith
filled-set (x ∷ es) (suc k) e at ne = let rest = filled-set es k e at ne in ground arith

module _ (place place' : Places) (items items' : ℕ → Ptr) (n q : ℕ) (v : Node)
    (a : IsAt place items n q v)
    (same_parent : pointer_of (place' (suc n) (q / 64)) ≡ pointer_of (place (suc n) (q / 64))) where
  frame-IsAt :
      ((k : ℕ) → k < 64 → below place' items' n (q * 64 + k) ≡ below place items n (q * 64 + k))
      → IsAt place' items' n q v
  frame-IsAt same = record {
    shifted = a.shifted;
    full = a.full;
    offset_is = a.offset_is;
    parent_is = a.parent_is ∙ sym same_parent;
    counted = a.counted;
    slot = λ k lt. rw (same k lt) (a.slot k lt);
  }

  module _ (o : ℕ) (e : Ptr) (nr_values : ℕ) (lt : o < 64) (ne : (e == null) ≡ false)
      (free : below place items n (q * 64 + o) ≡ null)
      (filled_with : below place' items' n (q * 64 + o) ≡ e)
      (same : (k : ℕ)
        → k < 64
        → k ≢ o
        → below place' items' n (q * 64 + k) ≡ below place items n (q * 64 + k)) where
    -- The node after an entry is put in its free slot `o`.
    abbrev pub with_entry : Node
    with_entry = record v {
      count = (v.count + 1) % 2 ^ 32;
      nr_values = nr_values;
      slots = set v.slots o e;
    }

    free_slot : get_elem? v.slots o ≡ some null
    free_slot = rw (← free) (a.slot o lt)

    pub fill-IsAt : IsAt place' items' n q with_entry
    fill-IsAt = record {
      shifted = a.shifted;
      full = length-set v.slots o e ∙ a.full;
      offset_is = a.offset_is;
      parent_is = a.parent_is ∙ sym same_parent;
      counted =
          let f = filled-set v.slots o e free_slot ne in
          let l = filled_le v.slots in let c = a.counted in let u = a.full in omega arith;
      slot = λ k below64. elim (Bool-cases (k == o)) [
        | inl y ↦
            let s : k ≡ o = ground arith in
            rw (s, filled_with) (get_elem?-set_self v.slots o e free_slot)
        | inr y ↦
            let s : k ≢ o = ground arith in
            rw (same k below64 s, get_elem?-set_ne v.slots o k e (λ z. s (sym z)))
              (a.slot k below64)
      ];
    }

module _ (m m' : Mem) (place place' : Places) (items items' : ℕ → Ptr) (n q : ℕ) (p : Ptr)
    (a : Held m place items n q p) where
  pub frame-Held :
      read m'.nodes p ≡ read m.nodes p
      → pointer_of (place' (suc n) (q / 64)) ≡ pointer_of (place (suc n) (q / 64))
      → ((k : ℕ) → k < 64 → below place' items' n (q * 64 + k) ≡ below place items n (q * 64 + k))
      → Held m' place' items' n q p
  frame-Held unchanged same_parent same = record {
    node = a.node;
    loaded = unchanged ∙ a.loaded;
    aligned = a.aligned;
    ptr_ne = a.ptr_ne;
    at = frame-IsAt place place' items items' n q a.node a.at same_parent same;
  }

  pub change-Held :
      (v : Node) → read m'.nodes p ≡ some v → IsAt place' items' n q v → Held m' place' items' n q p
  change-Held v loaded at = record {
    node = v;
    loaded = loaded;
    aligned = a.aligned;
    ptr_ne = a.ptr_ne;
    at = at;
  }
