-- ===== src/Tests/TreeExamples.antt =====
-- The theorems of the radix tree at concrete trees.
use jeopardy.Prelude.{◌≡◌, refl, arith}
use jeopardy.Memory.{null, ok, ◌>>◌}
use jeopardy.RadixTree.Lookup.{tree_lookup}
use jeopardy.RadixTree.Remove.{tree_delete}
use jeopardy.RadixTree.Absent.{mem_dropped, tree_delete-drops}
use jeopardy.Tests.TreeSamples.{leaf, leaf_root, leaf_mem, leaf-IsLeaf}

tree_delete-drops_example :
    (tree_lookup 1 64 3 leaf_mem ≡ ok 800 leaf_mem)
    × ((do tree_delete 1 64 5; tree_lookup 1 64 3) leaf_mem
        ≡ ok null
            (mem_dropped leaf_mem 64 leaf_root 1024 leaf leaf-IsLeaf 0 5 (omega arith) refl refl))
tree_delete-drops_example =
    tree_delete-drops leaf_mem 64 leaf_root 1024 leaf leaf-IsLeaf 0 5 (omega arith) refl refl 3 800
      refl (omega arith) refl
