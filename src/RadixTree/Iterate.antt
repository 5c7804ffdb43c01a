-- ===== src/RadixTree/Iterate.antt =====
-- radix_tree/radix-tree.h and radix-tree.c: the iterator.
use jeopardy.Prelude.{
  ℕ, zero, suc, ◌+◌, ◌-◌, ◌*◌, ◌/◌, ◌^◌, ◌%◌, Bool, not, ◌&&◌, ◌||◌, Option, none, some, List, [],
  ◌∷◌, ltb, ◌==◌, if◌then◌else◌,
}
use jeopardy.Memory.{Ptr, null, M, out_of_fuel, pure, ◌>>=◌}
use jeopardy.RadixTree.Entry.{is_internal_node, entry_to_node, chunk_start, map_size}
use jeopardy.RadixTree.State.{
  Node, Mem, Slot, root_slot, node_slot, load_node, slot_at, load_slot, descend, root_state,
  node_maxindex,
}
use jeopardy.RadixTree.Remove.{delete_at}

-- `struct radix_tree_iter`
pub record Iter : Type 0 where
  pub index : ℕ
  pub next_index : ℕ
  pub tags : ℕ
  pub node : Ptr

-- `radix_tree_iter_init`, which leaves the rest as it is.
unfoldable pub iter_init : Iter → ℕ → Iter
iter_init iter start = record iter { index = 0; next_index = start }

-- `radix_tree_iter_retry`
unfoldable pub iter_retry : Iter → Iter
iter_retry iter = record iter { next_index = iter.index; tags = 0 }

-- `__radix_tree_iter_add`
unfoldable pub iter_add : Iter → ℕ → ℕ
iter_add iter slots = (iter.index + slots) % 2 ^ 64

-- `radix_tree_iter_resume`
unfoldable pub iter_resume : Iter → Iter
unfolding iter_add
iter_resume iter =
    let index = iter_add iter 1 in record iter { index = index; next_index = index; tags = 0 }

-- `radix_tree_chunk_size`, as the 64-bit word of a `long`.
unfoldable pub chunk_size : Iter → ℕ
chunk_size iter = (iter.next_index + 2 ^ 64 - iter.index) % 2 ^ 64

-- `flags & RADIX_TREE_ITER_TAGGED` and `flags & RADIX_TREE_ITER_CONTIG`
abbrev pub is_tagged : ℕ → Bool
is_tagged flags = flags / 16 % 2 == 1

abbrev pub is_contiguous : ℕ → Bool
is_contiguous flags = flags / 32 % 2 == 1

abbrev pub next_slot : Slot → Slot
next_slot (root_slot r) = root_slot r
next_slot (node_slot p offset) = node_slot p (offset + 1)

-- `while (++offset < RADIX_TREE_MAP_SIZE)`: the next offset whose slot is not empty.
unfoldable pub skip_hole : ℕ → Node → ℕ → M Mem ℕ
skip_hole zero v offset = λ _. out_of_fuel
skip_hole (suc fuel) v offset =
    if ltb (offset + 1) map_size
    then (do
      entry ← slot_at v (offset + 1)
      if entry == null then skip_hole fuel v (offset + 1) else pure (offset + 1))
    else pure (offset + 1)

-- How the walk down from one entry goes on.
pub data Walk : Type 0 where
  ended : Walk
  restarts : ℕ → Walk
  goes_on : Node → Ptr → ℕ → ℕ → Ptr → Walk

-- One round of the `do` loop.
unfoldable pub walk_round : ℕ → ℕ → Ptr → ℕ → M Mem Walk
unfolding descend skip_hole node_maxindex
walk_round fuel flags child index = do
  let p = entry_to_node child
  v ← load_node p
  (offset, entry) ← descend p index
  if not (entry == null)
      then pure (goes_on v p offset index entry)
      else if is_contiguous flags
      then pure ended
      else do
        o ← skip_hole fuel v offset
        let i = (chunk_start index (node_maxindex v) + o * 2 ^ v.shift) % 2 ^ 64
        if i == 0 then pure ended else if o == map_size then pure (restarts i) else do
          next ← slot_at v o
          pure (if next == null then restarts i else goes_on v p o i next)

-- The walk, and what it restarts.
unfoldable pub walk : ℕ → Ptr → ℕ → Iter → Option Ptr → ℕ → M Mem (Option Slot × Iter)
unfolding walk_round root_state node_maxindex
walk zero root flags iter child index = λ _. out_of_fuel
walk (suc fuel) root flags iter none index = do
  (child, maxindex, shift) ← root_state root
  if ltb maxindex index || (child == null)
      then pure (none, iter)
      else if is_internal_node child
      then walk fuel root flags iter (some child) index
      else (let i = record iter {
        index = index;
        next_index = (maxindex + 1) % 2 ^ 64;
        tags = 1;
        node = null;
      } in
          pure (some (root_slot root), i))
walk (suc fuel) root flags iter (some child) index = do
  w ← walk_round fuel flags child index
  elim w [
    | ended ↦ pure (none, iter)
    | restarts i ↦ walk fuel root flags iter none i
    | goes_on v p offset i entry ↦
        if not (v.shift == 0) && is_internal_node entry
        then walk fuel root flags iter (some entry) i
        else (let start = chunk_start i (node_maxindex v) in
            let at = record iter {
              index = start + offset;
              next_index = (start + node_maxindex v + 1) % 2 ^ 64;
              node = p;
            } in
            pure (some (node_slot p offset), at))
  ]

-- `radix_tree_next_chunk`
unfoldable pub next_chunk : ℕ → Ptr → Iter → ℕ → M Mem (Option Slot × Iter)
unfolding walk
next_chunk fuel root iter flags =
    if is_tagged flags || ((iter.next_index == 0) && not (iter.index == 0))
    then pure (none, iter)
    else walk fuel root flags iter none iter.next_index

-- `radix_tree_iter_lookup` and `radix_tree_iter_find`
unfoldable pub iter_lookup : ℕ → Ptr → Iter → ℕ → M Mem (Option Slot × Iter)
unfolding next_chunk iter_init
iter_lookup fuel root iter index = next_chunk fuel root (iter_init iter index) 32

unfoldable pub iter_find : ℕ → Ptr → Iter → ℕ → M Mem (Option Slot × Iter)
unfolding next_chunk iter_init
iter_find fuel root iter index = next_chunk fuel root (iter_init iter index) 0

-- The loop of `radix_tree_next_slot` with `count` rounds left.
unfoldable pub next_slot_loop : ℕ → ℕ → Slot → Iter → M Mem (Option Slot × Iter)
unfolding iter_add load_slot
next_slot_loop zero flags slot iter = pure (none, iter)
next_slot_loop (suc count) flags slot iter = do
  let at = record iter { index = iter_add iter 1 }
  entry ← load_slot (next_slot slot)
  if not (entry == null)
      then pure (some (next_slot slot), at)
      else if is_contiguous flags
      then pure (none, record at { next_index = 0 })
      else next_slot_loop count flags (next_slot slot) at

-- `radix_tree_next_slot`; a chunk size of 2 ^ 63 or more is negative.
unfoldable pub iter_next_slot : Slot → Iter → ℕ → M Mem (Option Slot × Iter)
unfolding next_slot_loop chunk_size
iter_next_slot slot iter flags =
    if is_tagged flags
    then pure (some slot, iter)
    else next_slot_loop (if ltb (chunk_size iter) (2 ^ 63) then chunk_size iter - 1 else 0) flags
        slot iter

-- `slot || (slot = radix_tree_next_chunk(root, iter, 0))`
abbrev pub here_or_chunk : ℕ → Ptr → Option Slot → Iter → M Mem (Option Slot × Iter)
here_or_chunk fuel root none iter = next_chunk fuel root iter 0
here_or_chunk fuel root (some slot) iter = pure (some slot, iter)

-- `radix_tree_for_each_slot` behind its first part, with a body that notes the index and the entry.
unfoldable pub for_each_slot : ℕ → Ptr → Option Slot → Iter → M Mem (List (ℕ × Ptr))
unfolding next_chunk iter_next_slot load_slot
for_each_slot zero root slot iter = λ _. out_of_fuel
for_each_slot (suc fuel) root slot iter = do
  (found, at) ← here_or_chunk fuel root slot iter
  elim found [
    | none ↦ pure []
    | some s ↦ (do
      entry ← load_slot s
      (next, at') ← iter_next_slot s at 0
      rest ← for_each_slot fuel root next at'
      pure ((at.index, entry) ∷ rest))
  ]

-- `radix_tree_iter_delete`
unfoldable pub iter_delete : ℕ → Ptr → Iter → Slot → M Mem Iter
unfolding delete_at
iter_delete fuel root iter slot = do
  deleted ← delete_at fuel root iter.node slot
  pure (if deleted then record iter { index = iter.next_index } else iter)
