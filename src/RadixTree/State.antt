-- ===== src/RadixTree/State.antt =====
-- radix_tree/radix-tree.h: the structs of the tree, with slots as places, and the allocations.
use jeopardy.Prelude.{ℕ, ◌+◌, ◌^◌, ◌%◌, Bool, List, ◌==◌, if◌then◌else◌, get_elem?, set, replicate}
use jeopardy.Memory.{
  Ptr, null, Cells, read, write, erase, M, pure, checked, asks, modify, ◌>>=◌, ◌>>◌,
}
use jeopardy.RadixTree.Entry.{
  map_size, map_shift, is_internal_node, entry_to_node, node_to_entry, shift_maxindex, offset_at,
}

-- `struct radix_tree_node`, less the tags, which no code that is compiled reads.
pub record Node : Type 0 where
  pub count : ℕ
  pub shift : ℕ
  pub offset : ℕ
  pub nr_values : ℕ
  pub parent : Ptr
  pub slots : List Ptr

pub record Root : Type 0 where
  pub height : ℕ
  pub rnode : Ptr

pub record Mem : Type 0 where
  pub nodes : Cells Node
  pub roots : Cells Root

-- A `void **`: `&root->rnode`, or `&node->slots[offset]`.
pub data Slot : Type 0 where
  root_slot : Ptr → Slot
  node_slot : Ptr → ℕ → Slot

-- What `calloc` returns in a memory; null when there is no room.
pub record Calloc : Type 0 where
  pub node : Mem → Ptr
  pub root : Mem → Ptr

abbrev pub load_node : Ptr → M Mem Node
load_node p m = checked (read m.nodes p) m

abbrev pub put_node : Ptr → Node → M Mem (Unit {0})
put_node p v = modify λ m. record m { nodes = write m.nodes p v }

abbrev pub load_root : Ptr → M Mem Root
load_root p m = checked (read m.roots p) m

abbrev pub put_root : Ptr → Root → M Mem (Unit {0})
put_root p v = modify λ m. record m { roots = write m.roots p v }

-- `node->slots[offset]`
abbrev pub slot_at : Node → ℕ → M Mem Ptr
slot_at v offset = checked (get_elem? v.slots offset)

-- `*slot`
unfoldable pub load_slot : Slot → M Mem Ptr
load_slot (root_slot r) = do v ← load_root r; pure v.rnode
load_slot (node_slot p offset) = do v ← load_node p; slot_at v offset

-- `*slot = entry`
unfoldable pub put_slot : Slot → Ptr → M Mem (Unit {0})
put_slot (root_slot r) e = do v ← load_root r; put_root r (record v { rnode = e })
put_slot (node_slot p offset) e = do
  v ← load_node p
  slot_at v offset
  put_node p (record v { slots = set v.slots offset e })

-- `get_slot_offset`: 0 for the root's slot, which no node holds.
unfoldable pub slot_offset : Slot → ℕ
slot_offset (root_slot r) = 0
slot_offset (node_slot p offset) = offset

-- `radix_tree_descend`: the offset, and the entry in that slot.
unfoldable pub descend : Ptr → ℕ → M Mem (ℕ × Ptr)
descend parent index = do
  v ← load_node parent
  let offset = offset_at v.shift index
  entry ← slot_at v offset
  pure (offset, entry)

unfoldable pub node_maxindex : Node → ℕ
node_maxindex v = shift_maxindex v.shift

-- `radix_tree_load_root`: the entry of the root, the largest index, and the shift above it.
unfoldable pub root_state : Ptr → M Mem (Ptr × ℕ × ℕ)
unfolding node_maxindex
root_state root = do
  r ← load_root root
  if is_internal_node r.rnode
      then (do
        v ← load_node (entry_to_node r.rnode)
        pure (r.rnode, node_maxindex v, (v.shift + map_shift) % 2 ^ 32))
      else pure (r.rnode, 0, 0)

-- `radix_tree_empty`
unfoldable pub tree_empty : Ptr → M Mem Bool
tree_empty root = do r ← load_root root; pure (r.rnode == null)

-- `radix_tree_node_free`; the free that `call_rcu` defers is done at once.
abbrev pub node_free : Ptr → M Mem (Unit {0})
node_free p = do load_node p; modify λ m. record m { nodes = erase m.nodes p }

abbrev pub fresh_node : Ptr → ℕ → ℕ → ℕ → ℕ → Node
fresh_node parent shift offset count nr_values = record {
  count = count;
  shift = shift;
  offset = offset;
  nr_values = nr_values;
  parent = parent;
  slots = replicate map_size null;
}

module _ (calloc : Calloc) where
  unfoldable pub node_alloc : Ptr → ℕ → ℕ → ℕ → ℕ → M Mem Ptr
  node_alloc parent shift offset count nr_values = do
    p ← asks calloc.node
    if p == null
        then pure null
        else (do put_node p (fresh_node parent shift offset count nr_values); pure p)

  unfoldable pub root_alloc : M Mem Ptr
  unfolding node_alloc
  root_alloc = do
    r ← asks calloc.root
    if r == null then pure tt else put_root r (record { height = 0; rnode = null })
    node ← node_alloc null 0 0 0 0
    if r == null then pure tt else put_root r (record { height = 1; rnode = node_to_entry node })
    pure r
