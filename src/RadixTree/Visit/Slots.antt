-- ===== src/RadixTree/Visit/Slots.antt =====
-- radix_tree/radix-tree.h: `radix_tree_next_slot` in a node of the items.
use jeopardy.Prelude.{
  ℕ, zero, suc, ◌+◌, ◌-◌, ◌*◌, ◌/◌, ◌%◌, ◌^◌, ◌≡◌, ◌≢◌, ◌≤◌, ◌<◌, refl, sym, ◌∙◌, ap, inl, inr,
  true, Option, none, some, arith, ltb, get_elem?, ◌==◌, ==_iff, Bool-cases,
}
use jeopardy.Memory.{Ptr, null, ok}
use jeopardy.RadixTree.State.{Mem, Slot, node_slot, load_slot}
use jeopardy.RadixTree.Iterate.{Iter, iter_add, chunk_size, next_slot_loop, iter_next_slot}
use jeopardy.RadixTree.Shape.Place.{Places, IsTree}
use jeopardy.RadixTree.Visit.Hole.{IsClear}
use jeopardy.RadixTree.Visit.Ahead.{IsNext, later-IsNext}

-- What an iteration has still to visit: nothing stands from `from` up to where it goes on.
abbrev pub Ready : Places → (ℕ → Ptr) → ℕ → Option Slot → Iter → Type 0
Ready place items from none at =
    (from ≤ at.next_index) × IsClear items from at.next_index × (at.next_index ≢ 0)
Ready place items from (some s) at = IsNext place items from (some s) at

earlier-Ready :
    (place : Places) (items : ℕ → Ptr) (from i : ℕ) (slot : Option Slot) (at : Iter)
    → from ≤ i
    → IsClear items from i
    → Ready place items i slot at
    → Ready place items from slot at
earlier-Ready place items from i none at le clear (past, rest, ne) = (
  omega arith,
  λ k a b. elim (Bool-cases (ltb k i)) [
    | inl low ↦ clear k a (ground arith)
    | inr high ↦ rest k (ground arith) b
  ],
  ne,
)
earlier-Ready place items from i (some s) at le clear next =
    later-IsNext place items from i (some s) at le clear next

module _ (m : Mem) (root : Ptr) (place : Places) (items : ℕ → Ptr) (h : ℕ)
    (t : IsTree m root place items h) where
  -- The slot of an index in its node.
  pub load_slot-item :
      (i : ℕ) (p : Ptr)
      → place 0 (i / 64) ≡ some p
      → load_slot (node_slot p (i % 64)) m ≡ ok (items i) m
  unfolding load_slot
  load_slot-item i p at =
      let v = t.held 0 (i / 64) p at in
      let same : i / 64 * 64 + i % 64 ≡ i = omega arith in
      let e = v.at.slot (i % 64) (omega arith) in
      let here : get_elem? v.node.slots (i % 64) ≡ some (items i) = rw same at e in
      rw (v.loaded, here) refl

  record Steps (count : ℕ) (p : Ptr) (at : Iter) : Type 0 where
    pub slot : Option Slot
    pub to : Iter
    pub returns : next_slot_loop count 0 (node_slot p (at.index % 64)) at m ≡ ok (slot, to) m
    pub ready : Ready place items (at.index + 1) slot to

  -- One round, over an empty slot.
  over_empty :
      (count : ℕ) (p : Ptr) (at : Iter) (res : Option Slot × Iter)
      → (at.index + 1) % 2 ^ 64 ≡ at.index + 1
      → at.index % 64 + 1 ≡ (at.index + 1) % 64
      → place 0 ((at.index + 1) / 64) ≡ some p
      → (items (at.index + 1) == null) ≡ true
      → next_slot_loop count 0
          (node_slot p ((at.index + 1) % 64))
          (record at { index = at.index + 1 })
          m
        ≡ ok res m
      → next_slot_loop (suc count) 0 (node_slot p (at.index % 64)) at m ≡ ok res m
  unfolding next_slot_loop iter_add
  over_empty count p at res wraps digit there e rest =
      rw (wraps, digit, load_slot-item (at.index + 1) p there, e) rest

  steps :
      (count : ℕ) (p : Ptr) (at : Iter)
      → place 0 (at.index / 64) ≡ some p
      → at.node ≡ p
      → at.next_index ≡ (at.index / 64 + 1) * 64
      → at.index < 2 ^ 60
      → at.index % 64 + count ≡ 63
      → Steps count p at
  unfolding next_slot_loop iter_add
  steps zero p at there node_is next_is small left = record {
    slot = none;
    to = at;
    returns = refl;
    ready = (omega arith, (λ k a b. absurd (omega arith)), omega arith);
  }
  steps (suc count) p at there node_is next_is small left =
      let i = at.index in
      let wraps : (i + 1) % 2 ^ 64 ≡ i + 1 = omega arith in
      let digit : i % 64 + 1 ≡ (i + 1) % 64 = omega arith in
      let same : i / 64 ≡ (i + 1) / 64 = omega arith in
      let there' : place 0 ((i + 1) / 64) ≡ some p = ap (place 0) (sym same) ∙ there in
      let loads = load_slot-item (i + 1) p there' in
      let block_is : at.next_index ≡ ((i + 1) / 64 + 1) * 64 =
        next_is ∙ ap (λ x. (x + 1) * 64) same in
      let on = record at { index = i + 1 } in
      elim (Bool-cases (items (i + 1) == null)) [
        | inl e ↦
            let r = steps count p on there' node_is block_is (omega arith) (omega arith) in
            record {
              slot = r.slot;
              to = r.to;
              returns = over_empty count p at (r.slot, r.to) wraps digit there' e r.returns;
              ready =
                  earlier-Ready place items (i + 1) (i + 1 + 1) r.slot r.to (omega arith)
                    (λ k a b.
                      let k_is : i + 1 ≡ k = omega arith in
                      ap items (sym k_is) ∙ (==_iff (items (i + 1)) null).0 e)
                    r.ready;
            }
        | inr ne ↦ record {
          slot = some (node_slot p ((i + 1) % 64));
          to = on;
          returns = rw (wraps, digit, loads, ne) refl;
          ready = (
            p,
            there',
            refl,
            node_is,
            block_is,
            (λ z. ground arith),
            omega arith,
            (λ k a b. absurd (omega arith)),
          );
        }
      ]

  pub record Step (p : Ptr) (at : Iter) : Type 0 where
    pub slot : Option Slot
    pub to : Iter
    pub returns : iter_next_slot (node_slot p (at.index % 64)) at 0 m ≡ ok (slot, to) m
    pub ready : Ready place items (at.index + 1) slot to

  -- The next slot of the node that is not empty, or none, and then the walk goes on behind the node.
  pub next_slot-Ready :
      (p : Ptr) (at : Iter)
      → place 0 (at.index / 64) ≡ some p
      → at.node ≡ p
      → at.next_index ≡ (at.index / 64 + 1) * 64
      → at.index < 2 ^ 60
      → Step p at
  unfolding iter_next_slot chunk_size
  next_slot-Ready p at there node_is next_is small =
      let r = steps (63 - at.index % 64) p at there node_is next_is small (omega arith) in
      let size : (at.next_index + 2 ^ 64 - at.index) % 2 ^ 64 ≡ 64 - at.index % 64 = omega arith in
      let positive : ltb (64 - at.index % 64) (2 ^ 63) ≡ true = ground arith in
      let count : 64 - at.index % 64 - 1 ≡ 63 - at.index % 64 = omega arith in
      record {
        slot = r.slot;
        to = r.to;
        returns = rw (size, positive, count) r.returns;
        ready = r.ready;
      }
