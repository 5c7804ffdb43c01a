-- ===== src/Tests/HeightSamples.antt =====
-- A `calloc` with room for some nodes, and a tree made with it.
use jeopardy.Prelude.{
  ℕ, zero, suc, ◌+◌, ◌*◌, ◌%◌, ◌/◌, ◌≡◌, ◌≢◌, refl, ◌⊎◌, inl, inr, none, some, arith, ◌==◌,
  replicate, get_elem?-replicate, get_elem?-set_ne, Bool-cases, Option-cases, none-some, sym, ◌∙◌,
}
use jeopardy.Memory.{Ptr, null, read}
use jeopardy.RadixTree.State.{Mem, Calloc}
use jeopardy.RadixTree.Entry.{node_to_entry}
use jeopardy.RadixTree.Shape.Place.{Places, IsAt, Held, IsTree, IsCalloc, place_at, item_at}
use jeopardy.RadixTree.Shape.Frame.{place_at-cases}
use jeopardy.Tests.TreeSamples.{leaf, leaf_root, leaf_mem}

-- The first of `n` places that is free.
unfoldable pub first_free : ℕ → Mem → Ptr
first_free zero m = null
first_free (suc n) m =
    let rest = first_free n m in
    elim (read m.nodes (4096 * suc n)) [ none ↦ 4096 * suc n | some v ↦ rest ]

abbrev pub pool : Calloc
pool = record { node = first_free 8; root = λ m. 64 }

first_free-fresh :
    (n : ℕ) (m : Mem)
    → (first_free n m ≡ null) ⊎ ((first_free n m % 4 ≡ 0) × (read m.nodes (first_free n m) ≡ none))
unfolding first_free
first_free-fresh zero m = inl refl
first_free-fresh (suc n) m = elim (Option-cases (read m.nodes (4096 * suc n))) [
  | inl e ↦ inr (rw (first_free, e) (omega arith), rw (first_free, e) e)
  | inr a ↦ rw (first_free, a.1) (first_free-fresh n m)
]

pub pool-IsCalloc : IsCalloc pool
pool-IsCalloc = record { fresh = first_free-fresh 8 }

-- The tree of one node that holds 800 at index 3.
abbrev pub leaf_places : Places
leaf_places = place_at (λ n q. none) 0 0 1024

abbrev pub leaf_items : ℕ → Ptr
leaf_items = item_at (λ i. null) 3 800

only_there : (n q : ℕ) (p : Ptr) → leaf_places n q ≡ some p → (n ≡ 0) × (q ≡ 0) × (p ≡ 1024)
only_there n q p e = elim (place_at-cases (λ n q. none) 0 0 1024 n q p e) [
  | inl s ↦ s
  | inr (x, y) ↦ absurd (none-some none p refl y)
]

leaf-IsAt : IsAt leaf_places leaf_items 0 0 leaf
leaf-IsAt = record {
  shifted = refl;
  full = refl;
  offset_is = refl;
  parent_is = refl;
  counted = refl;
  slot = λ k lt. elim (Bool-cases (k == 3)) [
    | inl y ↦ let e : k ≡ 3 = ground arith in rw e refl
    | inr y ↦
        let ne : 0 * 64 + k ≢ 3 = ground arith in
        let none_there : leaf_items (0 * 64 + k) ≡ null = ground arith in
        rw none_there (
          get_elem?-set_ne (replicate 64 null) 3 k 800 (λ e. ground arith)
          ∙ get_elem?-replicate 64 k null lt)
  ];
}

pub leaf-IsTree : IsTree leaf_mem 64 leaf_places leaf_items 0
unfolding read node_to_entry
leaf-IsTree = record {
  low = omega arith;
  top = 1024;
  top_is = refl;
  node = leaf_root;
  has_root = refl;
  root_is = refl;
  held = λ n q p e.
      let s = only_there n q p e in
      let b : Held leaf_mem leaf_places leaf_items 0 0 1024 = record {
        node = leaf;
        loaded = refl;
        aligned = refl;
        ptr_ne = omega arith;
        at = leaf-IsAt;
      } in
      rw (s.0, s.1, s.2) b;
  apart = λ n q i j p x y.
      let s = only_there n q p x in let u = only_there i j p y in (s.0 ∙ sym u.0, s.1 ∙ sym u.1);
  above = λ n q p e lt. absurd (omega arith);
  inside = λ n q p e. let s = only_there n q p e in (let z = s.0 in omega arith, λ z. s.1);
  holds = λ i ne.
      let small : i / 64 ≡ 0 = elim (Bool-cases (i == 3)) [
        | inl y ↦ let e : i ≡ 3 = ground arith in omega arith
        | inr y ↦ absurd (ne (ground arith))
      ] in
      (1024, rw small refl);
}
