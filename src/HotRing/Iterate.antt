-- ===== src/HotRing/Iterate.antt =====
-- hotring.h: the iterator over slots.
use jeopardy.Prelude.{ℕ, zero, suc, ◌+◌, ◌%◌, ◌^◌, none, some, List, get_elem?, ◌==◌, if◌then◌else◌}
use jeopardy.Memory.{Ptr, null}

-- `struct hash_iter`
pub record HashIter : Type 0 where
  pub index : ℕ
  pub next_index : ℕ
  pub node : Ptr

unfoldable pub hash_iter_init : HashIter → ℕ → HashIter
hash_iter_init iter start = record iter { index = 0; next_index = start }

unfoldable pub hash_iter_add : HashIter → ℕ → ℕ
hash_iter_add iter slots = (iter.index + slots) % 2 ^ 64

-- What the search for the next slot ends with: a slot read past the array, none in the rounds left,
-- or the position of one that is not empty.
pub data NextSlot : Type 0 where
  out_of_bounds : NextSlot
  no_slot : HashIter → NextSlot
  slot_found : ℕ → HashIter → NextSlot

-- The rounds of the loop, from the slot at position `at`.
unfoldable pub next_slot_loop : ℕ → List Ptr → ℕ → HashIter → NextSlot
unfolding hash_iter_add
next_slot_loop zero slots at iter = no_slot iter
next_slot_loop (suc count) slots at iter =
    let moved = record iter { index = hash_iter_add iter 1 } in
    let rest = next_slot_loop count slots (at + 1) moved in
    elim (get_elem? slots (at + 1)) [
      | none ↦ out_of_bounds
      | some p ↦ if p == null then rest else slot_found (at + 1) moved
    ]

-- `hash_next_slot`, which tries 19 slots.
unfoldable pub hash_next_slot : List Ptr → ℕ → HashIter → NextSlot
unfolding next_slot_loop
hash_next_slot slots at iter = next_slot_loop 19 slots at iter
