-- ===== src/RadixTree/Shed/Delete.antt =====
-- radix_tree/radix-tree.c: `radix_tree_delete` of an item in a tree of any height.
use jeopardy.Prelude.{
  ℕ, suc, ◌+◌, ◌^◌, ◌≡◌, ◌≢◌, ◌≤◌, ◌<◌, refl, ◌⊎◌, inl, inr, false, arith, ltb, Bool-cases,
}
use jeopardy.Memory.{Ptr, null, ok}
use jeopardy.RadixTree.State.{Mem, root_state}
use jeopardy.RadixTree.Lookup.{tree_lookup, tree_find, lookup_loop}
use jeopardy.RadixTree.Remove.{tree_delete, delete_item, delete_at}
use jeopardy.RadixTree.Shape.Digits.{up}
use jeopardy.RadixTree.Shape.Place.{Places, item_at, IsTree, Holds, IsEmpty}
use jeopardy.RadixTree.Shape.Search.{null_is_data}
use jeopardy.RadixTree.Shed.Take.{
  leaf, finds, load-item, take_slot, leaf_ne, mem_taken, taken-IsTree,
}
use jeopardy.RadixTree.Shed.Shrunk.{delete_node_ends}

module _ (m : Mem) (root : Ptr) (place : Places) (items : ℕ → Ptr) (h : ℕ)
    (t : IsTree m root place items h) (index : ℕ) (item_ne : items index ≢ null)
    (lt : index < 2 ^ 64) where
  -- In a tree of any height, with fuel for its levels, `radix_tree_delete` of a 64-bit index that holds
  -- an item returns the item. The memory is then a tree that holds nothing there and at every other
  -- index what the tree held before, or the root's entry is NULL and every other index held nothing.
  pub tree_delete-removes :
      (fuel : ℕ)
      → h + h + 2 ≤ fuel
      → (m' : Mem) × (tree_delete fuel root index m ≡ ok (items index) m')
        × (Holds m' root (item_at items index null) ⊎ IsEmpty m' root (item_at items index null))
  unfolding tree_delete delete_item delete_at
  tree_delete-removes fuel enough =
      let p = leaf m root place items h t index item_ne in
      let taken = mem_taken m root place items h t index item_ne in
      let d =
        delete_node_ends root (item_at items index null) h fuel 0 (up 1 index) taken place
          (taken-IsTree m root place items h t index item_ne) p.0 p.1 false (omega arith) in
      (
        d.after,
        rw
            (
              finds m root place items h t index item_ne fuel (omega arith) lt,
              load-item m root place items h t index item_ne,
              take_slot m root place items h t index item_ne,
              leaf_ne m root place items h t index item_ne,
              d.runs,
            )
            refl,
        d.holds,
      )

-- In a tree whose last node is gone, with fuel for a round, `radix_tree_lookup` of any index returns
-- NULL and changes nothing.
pub tree_lookup-empty :
    (m : Mem) (root : Ptr) (items : ℕ → Ptr)
    → IsEmpty m root items
    → (fuel index : ℕ) → tree_lookup (suc fuel) root index m ≡ ok (items index) m
unfolding tree_lookup tree_find lookup_loop root_state
tree_lookup-empty m root items e fuel index = elim (Bool-cases (ltb 0 index)) [
  | inl past ↦ rw (e.has_root, e.no_node, null_is_data, past, e.nothing index) refl
  | inr within ↦
      rw (e.has_root, e.no_node, null_is_data, within, null_is_data, e.nothing index) refl
]
