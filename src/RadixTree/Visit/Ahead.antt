-- ===== src/RadixTree/Visit/Ahead.antt =====
-- radix_tree/radix-tree.c: one node on the walk of `radix_tree_next_chunk`.
use jeopardy.Prelude.{
  ℕ, zero, suc, ◌+◌, ◌*◌, ◌%◌, ◌/◌, ◌^◌, ◌≡◌, ◌≢◌, ◌≤◌, ◌<◌, refl, inl, inr, true, false, Option,
  none, some, arith, ltb, ◌==◌, Bool-cases,
}
use native.Mathlib.Nat.{mod-eq_of_lt}
use jeopardy.Memory.{Ptr, null, ok}
use jeopardy.RadixTree.Entry.{node_to_entry, shift_maxindex, chunk_start}
use jeopardy.RadixTree.State.{Node, Mem, Slot, node_slot, node_maxindex}
use jeopardy.RadixTree.Iterate.{Iter, restarts, goes_on, is_contiguous, skip_hole, walk_round}
use jeopardy.RadixTree.Shape.Digits.{up, up-suc}
use jeopardy.RadixTree.Shape.Place.{Places, below, IsTree}
use jeopardy.RadixTree.Shape.Search.{back, tree-descend}
use jeopardy.RadixTree.Visit.Blocks.{
  block, block-suc, small_block, lt-start, slot_start, slot_small,
}
use jeopardy.RadixTree.Visit.Hole.{Hole, IsClear}

-- What the walk from `index` ends with: no slot, where nothing stands from there on, or the slot of the next item.
abbrev pub IsNext : Places → (ℕ → Ptr) → ℕ → Option Slot → Iter → Type 0
IsNext place items index none at = (j : ℕ) → index ≤ j → items j ≡ null
IsNext place items index (some s) at =
    (p : Ptr) × (place 0 (at.index / 64) ≡ some p)
    × (s ≡ node_slot p (at.index % 64))
    × (at.node ≡ p)
    × (at.next_index ≡ (at.index / 64 + 1) * 64)
    × (items at.index ≢ null)
    × (index ≤ at.index)
    × IsClear items index at.index

pub later-IsNext :
    (place : Places) (items : ℕ → Ptr) (index i : ℕ) (slot : Option Slot) (at : Iter)
    → index ≤ i
    → IsClear items index i
    → IsNext place items i slot at
    → IsNext place items index slot at
later-IsNext place items index i none at le clear next = λ j from. elim (Bool-cases (ltb j i)) [
  | inl lt ↦ clear j from (ground arith)
  | inr ge ↦ next j (ground arith)
]
later-IsNext place items index i (some s) at le clear (p, a, b, c, d, e, f, g) = (
  p,
  a,
  b,
  c,
  d,
  e,
  omega arith,
  λ j from lt. elim (Bool-cases (ltb j i)) [
    | inl low ↦ clear j from (ground arith)
    | inr ge ↦ g j (ground arith) lt
  ],
)

-- Indices that share the digits from `n` on share those above.
pub up-agree : (k n i j : ℕ) → up n i ≡ up n j → up (n + k) i ≡ up (n + k) j
up-agree zero n i j e = let s : n + 0 ≡ n = omega arith in rw s e
up-agree (suc k) n i j e =
    let s : n + suc k ≡ suc (n + k) = omega arith in
    rw (s, up-suc (n + k) i, up-suc (n + k) j, up-agree k n i j e) refl

module _ (m : Mem) (root : Ptr) (place : Places) (items : ℕ → Ptr) (h : ℕ)
    (t : IsTree m root place items h) (low : h ≤ 9) (flags : ℕ)
    (plain : is_contiguous flags ≡ false) (iter : Iter) where
  pub covered : (index : ℕ) → up (suc h) index ≡ 0 → index < 2 ^ 60
  covered index e =
      let l : index < 1 * block (suc h) = lt-start (suc h) 1 index (omega arith) in
      let b = (small_block h low).0 in let s = block-suc h in omega arith

  module _ (n index : ℕ) (p : Ptr) (at : place n (up (suc n) index) ≡ some p)
      (inner : up (suc h) index ≡ 0) where
    abbrev pub v : Node
    v = (t.held n (up (suc n) index) p at).node

    pub level : n ≤ h
    level = (t.inside n (up (suc n) index) p at).0

    -- The index that the round goes to, behind the empty slots.
    abbrev pub target : ℕ → ℕ
    target o = (up (suc n) index * 64 + o) * block n

    pub round_here :
        (fuel : ℕ)
        → below place items n (up n index) ≢ null
        → walk_round fuel flags (node_to_entry p) index m
          ≡ ok (goes_on v p (up n index % 64) index (below place items n (up n index))) m
    unfolding walk_round
    round_here fuel ne =
        let e : (below place items n (up n index) == null) ≡ false = ground arith in
        rw
          (
            back m root place items h t n (up (suc n) index) p at,
            (t.held n (up (suc n) index) p at).loaded,
            tree-descend m root place items h t n index p at,
            e,
          )
          refl

    pub round_skips :
        (fuel : ℕ) (g : Hole place items n (up (suc n) index) (up n index % 64))
        → below place items n (up n index) ≡ null
        → skip_hole fuel v (up n index % 64) m ≡ ok g.to m
        → (g.to < 64
            → walk_round fuel flags (node_to_entry p) index m
              ≡ ok
                  (goes_on v p g.to
                    (target g.to)
                    (below place items n (up (suc n) index * 64 + g.to)))
                  m)
          × (g.to ≡ 64
              → walk_round fuel flags (node_to_entry p) index m ≡ ok (restarts (target g.to)) m)
    unfolding walk_round node_maxindex
    round_skips fuel g here skips =
        let e : (below place items n (up n index) == null) ≡ true = ground arith in
        let held = t.held n (up (suc n) index) p at in
        let start = slot_start n index g.to (omega (arith, level)) in
        let small = slot_small n index g.to (omega (arith, level)) (covered index inner) g.within in
        let same : target g.to % 2 ^ 64 ≡ target g.to = mod-eq_of_lt (omega arith) in
        let goes : (chunk_start index (shift_maxindex v.shift) + g.to * 2 ^ v.shift) % 2 ^ 64
            ≡ target g.to =
          rw (held.at.shifted, start, same) refl in
        let ahead : index < target g.to =
          lt-start n (up (suc n) index * 64 + g.to) index
            (let s = up-suc n index in let f = g.past in omega arith) in
        let on : (target g.to == 0) ≡ false = ground arith in
        (
          λ more.
              let less : (g.to == 64) ≡ false = ground arith in
              let filled : below place items n (up (suc n) index * 64 + g.to) ≢ null =
                elim g.stops [ inl x ↦ absurd (omega arith) | inr x ↦ x.1 ] in
              let ne : (below place items n (up (suc n) index * 64 + g.to) == null) ≡ false =
                ground arith in
              rw
                (
                  back m root place items h t n (up (suc n) index) p at,
                  held.loaded,
                  tree-descend m root place items h t n index p at,
                  e,
                  plain,
                  skips,
                  goes,
                  on,
                  less,
                  held.at.slot g.to more,
                  ne,
                )
                refl,
          λ last.
              let whole : (g.to == 64) ≡ true = ground arith in
              rw
                (
                  back m root place items h t n (up (suc n) index) p at,
                  held.loaded,
                  tree-descend m root place items h t n index p at,
                  e,
                  plain,
                  skips,
                  goes,
                  on,
                  whole,
                )
                refl,
        )
