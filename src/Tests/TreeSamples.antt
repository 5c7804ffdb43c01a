-- ===== src/Tests/TreeSamples.antt =====
-- Two small radix trees, and a `calloc` for them.
use jeopardy.Prelude.{refl, arith, some, [], ◌∷◌, replicate, set}
use jeopardy.Memory.{null, read}
use jeopardy.RadixTree.State.{Node, Root, Mem, Calloc}
use jeopardy.RadixTree.Leaf.{IsLeaf}
use jeopardy.RadixTree.Entry.{node_to_entry}

abbrev pub steady : Calloc
steady = record { node = λ m. 4096; root = λ m. 64 }

-- One entry, 800 at index 3.
abbrev pub leaf : Node
leaf = record {
  count = 1;
  shift = 0;
  offset = 0;
  nr_values = 0;
  parent = null;
  slots = set (replicate 64 null) 3 800;
}

abbrev pub leaf_root : Root
leaf_root = record { height = 1; rnode = 1026 }

abbrev pub leaf_mem : Mem
leaf_mem = record { nodes = (1024, some leaf) ∷ []; roots = (64, some leaf_root) ∷ [] }

pub leaf-IsLeaf : IsLeaf leaf_mem 64 leaf_root 1024 leaf
unfolding read node_to_entry
leaf-IsLeaf = record {
  has_root = refl;
  top = refl;
  aligned = refl;
  ptr_ne = omega arith;
  has_node = refl;
  low = refl;
  full = refl;
}

-- A root without a node.
abbrev pub bare_root : Root
bare_root = record { height = 1; rnode = null }

abbrev pub bare_mem : Mem
bare_mem = record { nodes = []; roots = (64, some bare_root) ∷ [] }
