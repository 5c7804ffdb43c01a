-- ===== src/RadixTree/Visit/Each.antt =====
-- radix_tree/radix-tree.h: the loop of `radix_tree_for_each_slot`.
use jeopardy.Prelude.{
  ℕ, zero, suc, ◌+◌, ◌^◌, ◌≡◌, ◌≢◌, ◌≤◌, ◌<◌, refl, Option, none, some, List, [], ◌∷◌, arith,
}
use jeopardy.Memory.{Ptr, null, ok}
use jeopardy.RadixTree.State.{Mem, Slot}
use jeopardy.RadixTree.Iterate.{Iter, iter_init, next_chunk, for_each_slot}
use jeopardy.RadixTree.Shape.Place.{Places, IsTree}
use jeopardy.RadixTree.Visit.Hole.{IsClear, one_round}
use jeopardy.RadixTree.Visit.Ahead.{IsNext, later-IsNext}
use jeopardy.RadixTree.Visit.Next.{item-small, next_chunk-finds}
use jeopardy.RadixTree.Visit.Slots.{Ready, load_slot-item, next_slot-Ready}

-- The items from `from` on, with their indices, in ascending order, each once.
abbrev pub Enumerates : (ℕ → Ptr) → ℕ → List (ℕ × Ptr) → Type 0
Enumerates items from [] = (i : ℕ) → from ≤ i → items i ≡ null
Enumerates items from ((i, e) ∷ rest) =
    (from ≤ i)
    × IsClear items from i
    × (e ≡ items i)
    × (items i ≢ null)
    × Enumerates items (i + 1) rest

module _ (m : Mem) (root : Ptr) (place : Places) (items : ℕ → Ptr) (h : ℕ)
    (t : IsTree m root place items h) (low : h ≤ 9) where
  -- The loop at a slot, or where it looks for the next chunk.
  record Visits (from : ℕ) (slot : Option Slot) (iter : Iter) : Type 0 where
    list : List (ℕ × Ptr)
    all : Enumerates items from list
    rounds : ℕ
    returns : (fuel : ℕ) → rounds ≤ fuel → for_each_slot fuel root slot iter m ≡ ok list m

  abbrev Later : ℕ → Type 0
  Later from =
      (next : ℕ) (slot : Option Slot) (iter : Iter)
      → from < next
      → next ≤ 2 ^ 60
      → Ready place items next slot iter
      → Visits next slot iter

  at_slot :
      (from : ℕ) (s : Slot) (iter : Iter)
      → IsNext place items from (some s) iter
      → Later from
      → Visits from (some s) iter
  unfolding for_each_slot
  at_slot from s iter (p, there, slot_is, node_is, next_is, ne, le, clear) later =
      let small = item-small m root place items h t low 0 refl iter iter.index ne in
      let r = next_slot-Ready m root place items h t p iter there node_is next_is small in
      let w = later (iter.index + 1) r.slot r.to (omega arith) (omega arith) r.ready in
      record {
        list = (iter.index, items iter.index) ∷ w.list;
        all = (le, clear, refl, ne, w.all);
        rounds = suc w.rounds;
        returns = λ fuel enough.
            let f = one_round w.rounds fuel enough in
            rw (f.1, slot_is, load_slot-item m root place items h t iter.index p there, r.returns)
              (rw (w.returns f.0 f.2) refl);
      }

  by_chunk :
      (fuel : ℕ) (iter at : Iter) (s : Slot) (list : List (ℕ × Ptr))
      → next_chunk fuel root iter 0 m ≡ ok (some s, at) m
      → for_each_slot (suc fuel) root (some s) at m ≡ ok list m
      → for_each_slot (suc fuel) root none iter m ≡ ok list m
  unfolding for_each_slot
  by_chunk fuel iter at s list found rest = rw found rest

  no_chunk :
      (fuel : ℕ) (iter at : Iter)
      → next_chunk fuel root iter 0 m ≡ ok (none, at) m
      → for_each_slot (suc fuel) root none iter m ≡ ok [] m
  unfolding for_each_slot
  no_chunk fuel iter at found = rw found refl

  behind_chunk :
      (from : ℕ) (iter at : Iter) (slot : Option Slot) (need : ℕ)
      → IsNext place items from slot at
      → ((fuel : ℕ) → need ≤ fuel → next_chunk fuel root iter 0 m ≡ ok (slot, at) m)
      → Later from
      → Visits from none iter
  behind_chunk from iter at none need next returns later = record {
    list = [];
    all = next;
    rounds = suc need;
    returns = λ fuel enough.
        let f = one_round need fuel enough in rw f.1 (no_chunk f.0 iter at (returns f.0 f.2));
  }
  behind_chunk from iter at (some s) need next returns later =
      let w = at_slot from s at next later in
      record {
        list = w.list;
        all = w.all;
        rounds = suc (need + w.rounds);
        returns = λ fuel enough.
            let f = one_round (need + w.rounds) fuel enough in
            rw f.1 (
              by_chunk f.0 iter at s w.list (returns f.0 (let l = f.2 in omega arith))
                (w.returns (suc f.0) (let l = f.2 in omega arith)));
      }

  finds :
      (from : ℕ) (iter : Iter)
      → from ≤ iter.next_index
      → IsClear items from iter.next_index
      → (iter.next_index ≡ 0 → iter.index ≡ 0)
      → Later from
      → Visits from none iter
  finds from iter le clear fresh later =
      let (slot, at, next, need, returns) =
        next_chunk-finds m root place items h t low 0 refl refl iter fresh in
      behind_chunk from iter at slot need
        (later-IsNext place items from iter.next_index slot at le clear next) returns later

  visits :
      (from : ℕ) (slot : Option Slot) (iter : Iter)
      → Ready place items from slot iter
      → Later from
      → Visits from slot iter
  visits from none iter (le, clear, ne) later = finds from iter le clear (λ e. absurd (ne e)) later
  visits from (some s) iter next later = at_slot from s iter next later

  Later-from : (left from : ℕ) → 2 ^ 60 ≤ from + left → Later from
  Later-from zero from far next slot iter lt le ready = absurd (omega arith)
  Later-from (suc left) from far next slot iter lt le ready =
      visits next slot iter ready (Later-from left next (omega arith))

  -- In a tree of at most 60 bits, with enough fuel, `radix_tree_for_each_slot` visits the items whose
  -- index is `start` or more, each once, in ascending order, and then ends.
  pub for_each_slot-items :
      (start : ℕ) (iter : Iter)
      → (list : List (ℕ × Ptr)) × Enumerates items start list
        × (rounds : ℕ) × ((fuel : ℕ)
            → rounds ≤ fuel
            → for_each_slot fuel root none (iter_init iter start) m ≡ ok list m)
  unfolding iter_init
  for_each_slot-items start iter =
      let w =
        finds start (iter_init iter start) (omega arith) (λ k a b. absurd (omega arith)) (λ e. refl)
          (Later-from (2 ^ 60) start (omega arith)) in
      (w.list, w.all, w.rounds, w.returns)
