-- ===== src/RadixTree/Visit/Next.antt =====
-- radix_tree/radix-tree.c: `radix_tree_next_chunk` from the root, in a tree over indices of at most 60
-- bits.
use jeopardy.Prelude.{
  ℕ, zero, suc, ◌+◌, ◌*◌, ◌^◌, ◌≡◌, ◌≢◌, ◌≤◌, ◌<◌, refl, ◌∙◌, ap, inl, inr, not, ◌&&◌, true, false,
  Option, none, some, arith, ltb, ◌==◌, ==_iff, Bool-cases, Option-cases,
}
use jeopardy.Memory.{Ptr, null, ok}
use jeopardy.RadixTree.Entry.{node_to_entry, shift_maxindex}
use jeopardy.RadixTree.State.{Mem, Slot}
use jeopardy.RadixTree.Iterate.{Iter, is_contiguous, is_tagged, walk, next_chunk}
use jeopardy.RadixTree.Shape.Digits.{up}
use jeopardy.RadixTree.Shape.Place.{Places, IsTree, on_path}
use jeopardy.RadixTree.Shape.Search.{internal, entry_ne, tree-root_state}
use jeopardy.RadixTree.Visit.Blocks.{block-suc, small_block, lt-start, up-lt}
use jeopardy.RadixTree.Visit.Hole.{one_round}
use jeopardy.RadixTree.Visit.Ahead.{IsNext, covered}
use jeopardy.RadixTree.Visit.Round.{Walks, at_item-Resumes, below-Resumes}
use jeopardy.RadixTree.Visit.Chunk.{at_node}

module _ (m : Mem) (root : Ptr) (place : Places) (items : ℕ → Ptr) (h : ℕ)
    (t : IsTree m root place items h) (low : h ≤ 9) (flags : ℕ)
    (plain : is_contiguous flags ≡ false) (iter : Iter) where
  abbrev From : Option Ptr → ℕ → Type 0
  From child index = Walks m root place items h t low flags plain iter child index

  -- Behind the last index of the tree.
  outside : (index : ℕ) → shift_maxindex (6 * h) < index → items index ≡ null
  outside index past = elim (Bool-cases (items index == null)) [
    | inl e ↦ (==_iff (items index) null).0 e
    | inr held ↦
        let a = on_path m root place items h t h index (λ z. ground arith) (omega arith) in
        let z = (t.inside h (up (suc h) index) a.0 a.1).1 refl in
        let l = lt-start (suc h) 1 index (omega arith) in
        let s = small_block h low in let b = block-suc h in absurd (omega arith)
  ]

  pub item-small : (index : ℕ) → items index ≢ null → index < 2 ^ 60
  item-small index ne = elim (Bool-cases (ltb index (2 ^ 60))) [
    | inl lt ↦ ground arith
    | inr ge ↦ absurd (ne (outside index (let s = small_block h low in ground arith)))
  ]

  past_end : (index : ℕ) → shift_maxindex (6 * h) < index → From none index
  unfolding walk
  past_end index past = record {
    slot = none;
    at = iter;
    next = λ j from. outside j (omega arith);
    rounds = 1;
    returns = λ fuel enough.
        let f = one_round 0 fuel enough in
        let lt : ltb (shift_maxindex (6 * h)) index ≡ true = ground arith in
        rw (f.1, tree-root_state m root place items h t, lt) refl;
  }

  -- From the entry of the node over `index` in level `n`.
  down :
      (n index : ℕ) (p : Ptr)
      → place n (up (suc n) index) ≡ some p
      → up (suc h) index ≡ 0
      → ((i : ℕ) → index < i → From none i)
      → From (some (node_to_entry p)) index
  down zero index p at inner again =
      at_node m root place items h t low flags plain iter 0 index p at inner
        (λ i u s a top from ne.
          at_item-Resumes m root place items h t low flags plain iter i p u a s
            (covered m root place items h t low flags plain iter i top) ne)
        again
  down (suc n) index p at inner again =
      at_node m root place items h t low flags plain iter (suc n) index p at inner
        (λ i u s a top from ne. elim (Option-cases (place n (up (suc n) i))) [
          | inl e ↦ absurd (ne (rw e refl))
          | inr x ↦
              below-Resumes m root place items h t low flags plain iter n i p u x.0 s x.1
                (down n i x.0 x.1 top (λ j l. again j (omega arith)))
        ])
        again

  -- From the root.
  ahead : (left index : ℕ) → 2 ^ 60 < index + left → From none index
  unfolding walk
  ahead zero index far = past_end index (let s = small_block h low in omega arith)
  ahead (suc left) index far = elim (Bool-cases (ltb (shift_maxindex (6 * h)) index)) [
    | inl past ↦ past_end index (ground arith)
    | inr within ↦
        let s = small_block h low in
        let b = block-suc h in
        let l : up (suc h) index < 1 = up-lt (suc h) 1 index (ground arith) in
        let inner : up (suc h) index ≡ 0 = omega arith in
        let w =
          down h index t.top (ap (place h) inner ∙ t.top_is) inner
            (λ i from. ahead left i (omega arith)) in
        record {
          slot = w.slot;
          at = w.at;
          next = w.next;
          rounds = suc w.rounds;
          returns = λ fuel enough.
              let f = one_round w.rounds fuel enough in
              rw
                (
                  f.1,
                  tree-root_state m root place items h t,
                  within,
                  t.root_is,
                  entry_ne m root place items h t h 0 t.top t.top_is,
                  internal m root place items h t h 0 t.top t.top_is,
                )
                (w.returns f.0 f.2);
        }
  ]

-- In a tree of at most 60 bits, with flags that ask neither for a tag nor for neighbours, and an iterator
-- that has not wrapped around, `radix_tree_next_chunk` returns: there is a number of rounds with which,
-- or with more, it gives the slot of the first item whose index is `next_index` or more, the iterator at
-- that item, in its node, with `next_index` behind the node; or no slot, and then no item is left.
pub next_chunk-finds :
    (m : Mem) (root : Ptr) (place : Places) (items : ℕ → Ptr) (h : ℕ)
    → IsTree m root place items h
    → h ≤ 9
    → (flags : ℕ) → is_tagged flags ≡ false
    → is_contiguous flags ≡ false
    → (iter : Iter) → (iter.next_index ≡ 0 → iter.index ≡ 0)
    → (slot : Option Slot) × (at : Iter) × IsNext place items iter.next_index slot at
      × (rounds : ℕ) × ((fuel : ℕ)
          → rounds ≤ fuel
          → next_chunk fuel root iter flags m ≡ ok (slot, at) m)
unfolding next_chunk
next_chunk-finds m root place items h t low flags untagged plain iter fresh =
    let w =
      ahead m root place items h t low flags plain iter (suc (2 ^ 60)) iter.next_index
        (omega arith) in
    let go : ((iter.next_index == 0) && not (iter.index == 0)) ≡ false = ground arith in
    (w.slot, w.at, w.next, w.rounds, λ fuel enough. rw (untagged, go) (w.returns fuel enough))
