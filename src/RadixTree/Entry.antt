-- ===== src/RadixTree/Entry.antt =====
-- radix_tree/radix-tree.h: the two low bits of a slot's word, and the index arithmetic of
-- radix-tree.c. A mask of low bits is written as a remainder.
use jeopardy.Prelude.{ℕ, ◌+◌, ◌-◌, ◌*◌, ◌/◌, ◌%◌, ◌^◌, Bool, ◌==◌}
use jeopardy.Memory.{Ptr}

unfoldable pub is_internal_node : Ptr → Bool
is_internal_node p = p % 4 == 2

unfoldable pub is_value : Ptr → Bool
is_value p = p % 2 == 1

-- `xa_to_value`
unfoldable pub to_value : Ptr → ℕ
to_value p = p / 2

-- `ptr & ~2UL` and `ptr | 2UL`
unfoldable pub entry_to_node : Ptr → Ptr
entry_to_node p = p - 2 * (p / 2 % 2)

unfoldable pub node_to_entry : Ptr → Ptr
node_to_entry p = p + 2 * (1 - p / 2 % 2)

abbrev pub map_shift : ℕ
map_shift = 6

abbrev pub map_size : ℕ
map_size = 64

-- On 64 bits.
unfoldable pub shift_maxindex : ℕ → ℕ
shift_maxindex shift = (map_size * 2 ^ shift + 2 ^ 64 - 1) % 2 ^ 64

-- `index & ~maxindex`, where `maxindex` is one less than a power of 2.
abbrev pub chunk_start : ℕ → ℕ → ℕ
chunk_start index maxindex = index - index % (maxindex + 1)

-- `(index >> shift) & RADIX_TREE_MAP_MASK`
unfoldable pub offset_at : ℕ → ℕ → ℕ
offset_at shift index = index / 2 ^ shift % map_size
