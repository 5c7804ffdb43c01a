-- ===== src/RadixTree/Remove.antt =====
-- radix_tree/radix-tree.c: `radix_tree_shrink`, `delete_node`, the replacement of a slot, and
-- `radix_tree_delete`.
use jeopardy.Prelude.{
  ℕ, zero, suc, ◌+◌, ◌-◌, ◌^◌, ◌%◌, Bool, true, false, not, ◌&&◌, ◌||◌, none, some, ◌==◌,
  if◌then◌else◌, set,
}
use jeopardy.Memory.{Ptr, null, M, out_of_fuel, pure, ◌>>=◌, ◌>>◌}
use jeopardy.RadixTree.Entry.{is_internal_node, is_value, entry_to_node, node_to_entry}
use jeopardy.RadixTree.State.{
  Mem, Slot, load_node, put_node, load_root, put_root, slot_at, load_slot, put_slot, node_free,
}
use jeopardy.RadixTree.Lookup.{tree_find}

-- `radix_tree_shrink`: whether a node at the top was taken off, now or before.
unfoldable pub shrink : ℕ → Ptr → Bool → M Mem Bool
shrink zero root shrunk = λ _. out_of_fuel
shrink (suc fuel) root shrunk = do
  r ← load_root root
  if not (is_internal_node r.rnode) then pure shrunk else do
    let p = entry_to_node r.rnode
    v ← load_node p
    if not (v.count == 1) then pure shrunk else do
      child ← slot_at v 0
      if (child == null) || (v.shift == 0) then pure shrunk else do
        if is_internal_node child
            then (do
              w ← load_node (entry_to_node child)
              put_node (entry_to_node child) (record w { parent = null }))
            else pure tt
        put_root root (record r { rnode = child })
        u ← load_node p
        put_node p (record u { count = 0 })
        node_free p
        shrink fuel root true

-- `delete_node`: whether a node was freed, now or before.
unfoldable pub delete_node : ℕ → Ptr → Ptr → Bool → M Mem Bool
unfolding shrink
delete_node zero root node deleted = λ _. out_of_fuel
delete_node (suc fuel) root node deleted = do
  v ← load_node node
  if not (v.count == 0)
      then (do
        r ← load_root root
        if node_to_entry node == r.rnode
            then (do shrunk ← shrink fuel root false; pure (deleted || shrunk))
            else pure deleted)
      else do
        if v.parent == null
            then (do r ← load_root root; put_root root (record r { rnode = null }))
            else (do
              w ← load_node v.parent
              slot_at w v.offset
              put_node v.parent (record w {
                slots = set w.slots v.offset null;
                count = (w.count + 2 ^ 32 - 1) % 2 ^ 32;
              }))
        node_free node
        if v.parent == null then pure true else delete_node fuel root v.parent true

-- `!!item - !!old`, and the same of value entries, as what is added on 32 bits.
abbrev pub truth_difference : Bool → Bool → ℕ
truth_difference a b = ((if a then 1 else 0) + 2 ^ 32 - (if b then 1 else 0)) % 2 ^ 32

-- `replace_slot`; `count` and `values` are added on 32 bits.
unfoldable pub replace_slot : Slot → Ptr → Ptr → ℕ → ℕ → M Mem (Unit {0})
unfolding put_slot
replace_slot slot item node count values = do
  if (node == null) || ((count == 0) && (values == 0)) then pure tt else (do
    v ← load_node node
    put_node node (record v {
      count = (v.count + count) % 2 ^ 32;
      nr_values = (v.nr_values + values) % 2 ^ 32;
    }))
  put_slot slot item

-- `__radix_tree_replace`
unfoldable pub tree_replace : ℕ → Ptr → Ptr → Slot → Ptr → M Mem (Unit {0})
unfolding load_slot replace_slot delete_node
tree_replace fuel root node slot item = do
  old ← load_slot slot
  let values = truth_difference (is_value item) (is_value old)
  let count = truth_difference (not (item == null)) (not (old == null))
  replace_slot slot item node count values
  if node == null then pure tt else (do delete_node fuel root node false; pure tt)

-- `radix_tree_replace_slot`
unfoldable pub tree_replace_slot : ℕ → Ptr → Slot → Ptr → M Mem (Unit {0})
unfolding tree_replace
tree_replace_slot fuel root slot item = tree_replace fuel root null slot item

-- `__radix_tree_delete`
unfoldable pub delete_at : ℕ → Ptr → Ptr → Slot → M Mem Bool
unfolding load_slot replace_slot delete_node
delete_at fuel root node slot = do
  old ← load_slot slot
  replace_slot slot null node (2 ^ 32 - 1) (if is_value old then 2 ^ 32 - 1 else 0)
  if node == null then pure false else delete_node fuel root node false

-- `radix_tree_delete_item`
unfoldable pub delete_item : ℕ → Ptr → ℕ → Ptr → M Mem Ptr
unfolding tree_find delete_at
delete_item fuel root index item = do
  f ← tree_find fuel root index
  elim f.place [
    | none ↦ pure null
    | some (node, slot) ↦
        if not (item == null) && not (f.entry == item)
        then pure null
        else (do delete_at fuel root node slot; pure f.entry)
  ]

-- `radix_tree_delete`
unfoldable pub tree_delete : ℕ → Ptr → ℕ → M Mem Ptr
unfolding delete_item
tree_delete fuel root index = delete_item fuel root index null
