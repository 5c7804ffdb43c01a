-- ===== src/Tests/HeightExamples.antt =====
-- The theorems on trees of any height, at a tree of one node.
use jeopardy.Prelude.{
  ℕ, suc, List, [], ◌∷◌, Option, none, ◌≡◌, ◌≢◌, ◌≤◌, refl, false, ◌⊎◌, arith, ℤ,
}
use jeopardy.Memory.{Ptr, null, read, ok, fault}
use jeopardy.RadixTree.State.{Mem, Slot, Calloc, root_alloc, tree_empty}
use jeopardy.RadixTree.Create.{tree_insert, eexist}
use jeopardy.RadixTree.Lookup.{tree_lookup}
use jeopardy.RadixTree.Remove.{tree_delete}
use jeopardy.RadixTree.Shape.Place.{item_at, Holds, IsEmpty}
use jeopardy.RadixTree.Shape.Search.{tree_lookup-items}
use jeopardy.RadixTree.Grow.Insert.{tree_insert-adds, tree_insert-occupied, Added}
use jeopardy.RadixTree.Shed.Delete.{tree_delete-removes}
use jeopardy.RadixTree.Start.{root_alloc-no_node, mem_rooted, mem_started, root_alloc-started}
use jeopardy.RadixTree.Entry.{
  is_internal_node, entry_to_node, node_to_entry, shift_maxindex, offset_at,
}
use jeopardy.RadixTree.Reach.{inserts, perform, Reach, start, Reach-safe}
use jeopardy.RadixTree.Iterate.{Iter, iter_init, next_chunk, for_each_slot}
use jeopardy.RadixTree.Visit.Ahead.{IsNext}
use jeopardy.RadixTree.Visit.Next.{next_chunk-finds}
use jeopardy.RadixTree.Visit.Each.{Enumerates, for_each_slot-items}
use jeopardy.Tests.TreeSamples.{leaf_mem}
use jeopardy.Tests.HeightSamples.{
  first_free, pool, pool-IsCalloc, leaf_places, leaf_items, leaf-IsTree,
}

tree_lookup-items_example : tree_lookup 5 64 70000 leaf_mem ≡ ok (leaf_items 70000) leaf_mem
tree_lookup-items_example =
    tree_lookup-items leaf_mem 64 leaf_places leaf_items 0 leaf-IsTree 5 70000 (omega arith)
      (omega arith)

tree_insert-adds_example :
    (m' : Mem) × Added pool pool-IsCalloc 64 leaf_items leaf_mem leaf_places 0 11 70000 leaf-IsTree
      (omega arith)
      (omega arith)
      804
      m'
tree_insert-adds_example =
    tree_insert-adds pool pool-IsCalloc 64 leaf_items leaf_mem leaf_places 0 11 70000 leaf-IsTree
      (omega arith) (omega arith) 804 (omega arith) refl

tree_insert-occupied_example : tree_insert pool 12 64 3 804 leaf_mem ≡ ok eexist leaf_mem
tree_insert-occupied_example =
    tree_insert-occupied pool pool-IsCalloc 64 leaf_items leaf_mem leaf_places 0 11 3 leaf-IsTree
      (omega arith) (omega arith) 804 (omega arith)

tree_delete-removes_example :
    (m' : Mem) × (tree_delete 2 64 3 leaf_mem ≡ ok 800 m')
    × (Holds m' 64 (item_at leaf_items 3 null) ⊎ IsEmpty m' 64 (item_at leaf_items 3 null))
tree_delete-removes_example =
    tree_delete-removes leaf_mem 64 leaf_places leaf_items 0 leaf-IsTree 3 (omega arith)
      (omega arith) 2 (omega arith)

abbrev blank : Mem
blank = record { nodes = []; roots = [] }

abbrev poor : Calloc
poor = record { node = λ m. null; root = λ m. 64 }

root_alloc-no_node_example :
    (m' : Mem) × (root_alloc poor blank ≡ ok 64 m')
    × ((fuel index : ℕ) → tree_lookup (suc fuel) 64 index m' ≡ fault)
unfolding read
root_alloc-no_node_example = root_alloc-no_node poor blank (omega arith) refl refl

abbrev room_for_root : pool.root blank ≢ null
room_for_root = omega arith

abbrev room_for_node : pool.node (mem_rooted pool blank room_for_root) ≢ null
unfolding first_free read
room_for_node = omega arith

abbrev started : Mem
started = mem_started pool blank room_for_root room_for_node

started-Reach : Reach pool 64 started
started-Reach =
    start blank started room_for_root room_for_node
      (root_alloc-started pool blank room_for_root room_for_node)

holds_node : tree_empty 64 started ≡ ok false started
unfolding tree_empty read first_free node_to_entry
holds_node = refl

Reach-safe_example :
    (e : Ptr ⊎ ℤ) × (m' : Mem) × (perform pool
        (inserts 70000 804 (omega arith) (omega arith) holds_node)
      ≡ ok e m')
Reach-safe_example =
    Reach-safe pool pool-IsCalloc 64 started-Reach
      (inserts 70000 804 (omega arith) (omega arith) holds_node)

abbrev begun : Iter
begun = record { index = 0; next_index = 2; tags = 0; node = null }

visited : for_each_slot 70 64 none (iter_init begun 0) leaf_mem ≡ ok ((3, 800) ∷ []) leaf_mem
unfolding for_each_slot iter_init read is_internal_node entry_to_node shift_maxindex offset_at
visited = refl

next_chunk-finds_example :
    (slot : Option Slot) × (at : Iter) × IsNext leaf_places leaf_items 2 slot at
    × (rounds : ℕ) × ((fuel : ℕ)
        → rounds ≤ fuel
        → next_chunk fuel 64 begun 0 leaf_mem ≡ ok (slot, at) leaf_mem)
next_chunk-finds_example =
    next_chunk-finds leaf_mem 64 leaf_places leaf_items 0 leaf-IsTree (omega arith) 0 refl refl
      begun (λ e. refl)

for_each_slot-items_example :
    (list : List (ℕ × Ptr)) × Enumerates leaf_items 0 list
    × (rounds : ℕ) × ((fuel : ℕ)
        → rounds ≤ fuel
        → for_each_slot fuel 64 none (iter_init begun 0) leaf_mem ≡ ok list leaf_mem)
for_each_slot-items_example =
    for_each_slot-items leaf_mem 64 leaf_places leaf_items 0 leaf-IsTree (omega arith) 0 begun
