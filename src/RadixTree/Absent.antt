-- ===== src/RadixTree/Absent.antt =====
-- `radix_tree_delete` of an index that holds nothing, and insertions in an emptied tree.
use jeopardy.Prelude.{
  ℕ, suc, ◌+◌, ◌%◌, ◌^◌, ◌≡◌, ◌≢◌, ◌<◌, refl, true, false, some, arith, ltb, Bool-cases, ◌==◌,
  get_elem?, set, inl, inr,
}
use jeopardy.Memory.{Ptr, null, read, write, erase, read-write_self, ok, ◌>>◌}
use jeopardy.RadixTree.Entry.{is_internal_node, is_value}
use jeopardy.RadixTree.State.{Node, Root, Mem, Calloc, node_slot, load_slot, put_slot, root_state}
use jeopardy.RadixTree.Lookup.{lookup_loop, tree_find, tree_lookup}
use jeopardy.RadixTree.Remove.{tree_delete, delete_at, replace_slot, delete_node}
use jeopardy.RadixTree.Leaf.{
  IsLeaf, internal, back, leaf-root_state, leaf-descend, leaf-tree_lookup,
}

module _ (m : Mem) (root : Ptr) (r : Root) (p : Ptr) (v : Node) (l : IsLeaf m root r p v) where
  leaf-tree_find :
      (fuel k : ℕ) (e : Ptr)
      → k < 64
      → get_elem? v.slots k ≡ some e
      → tree_find (suc fuel) root k m ≡ ok (record { entry = e; place = some (p, node_slot p k) }) m
  unfolding tree_find lookup_loop
  leaf-tree_find fuel k e lt at =
      let inside : ltb 63 k ≡ false = ground arith in
      rw
        (
          leaf-root_state m root r p v l,
          inside,
          internal m root r p v l,
          back m root r p v l,
          leaf-descend m root r p v l k e lt at,
          l.has_node,
          l.low,
        )
        refl

  module _ (fuel k : ℕ) (lt : k < 64) (last : v.count ≡ 1) (top : v.parent ≡ null) where
    abbrev counted : Node
    counted = record v { count = 0; nr_values = (v.nr_values + 0) % 2 ^ 32 }

    abbrev cleared : Node
    cleared = record counted { slots = set v.slots k null }

    abbrev pub mem_dropped : Mem
    mem_dropped = record {
      nodes = erase (write (write m.nodes p counted) p cleared) p;
      roots = write m.roots root (record r { rnode = null });
    }

    absent-tree_delete :
        get_elem? v.slots k ≡ some null → tree_delete (suc fuel) root k m ≡ ok null mem_dropped
    unfolding tree_delete delete_at load_slot replace_slot delete_node put_slot is_value
    absent-tree_delete at =
        let ne : (p == null) ≡ false = let h = l.ptr_ne in ground arith in
        let no_parent : (v.parent == null) ≡ true = rw top refl in
        rw
          (
            leaf-tree_find fuel k null lt at,
            l.has_node,
            at,
            ne,
            l.has_node,
            last,
            read-write_self m.nodes p counted,
            at,
            read-write_self (write m.nodes p counted) p cleared,
            no_parent,
            l.has_root,
            read-write_self (write m.nodes p counted) p cleared,
          )
          refl

    dropped-tree_lookup : (j : ℕ) → tree_lookup (suc fuel) root j mem_dropped ≡ ok null mem_dropped
    unfolding tree_lookup tree_find lookup_loop root_state is_internal_node
    dropped-tree_lookup j =
        let there = read-write_self m.roots root (record r { rnode = null }) in
        elim (Bool-cases (ltb 0 j)) [ inl e ↦ rw (there, e) refl | inr e ↦ rw (there, e) refl ]

    -- In a tree whose root is a leaf that counts one entry, `radix_tree_delete` of an index below 64
    -- that holds nothing loses the entry of every other index, which a lookup finds before the call and
    -- does not find after it.
    pub tree_delete-drops :
        (j : ℕ) (e : Ptr)
        → get_elem? v.slots k ≡ some null
        → j < 64
        → get_elem? v.slots j ≡ some e
        → (tree_lookup (suc fuel) root j m ≡ ok e m)
          × ((do tree_delete (suc fuel) root k; tree_lookup (suc fuel) root j) m
              ≡ ok null mem_dropped)
    tree_delete-drops j e at small there = (
      leaf-tree_lookup m root r p v l fuel j e small there,
      rw (absent-tree_delete at) (dropped-tree_lookup j),
    )

-- Insertions in a tree that has no root node.
module _ (calloc : Calloc) (m : Mem) (root : Ptr) (r : Root) (item other : Ptr) (index : ℕ)
    (has_root : read m.roots root ≡ some r) (empty : r.rnode ≡ null) (item_ne : item ≢ null)
    (is_data : is_internal_node item ≡ false) where
  abbrev direct : Mem
  direct = record m { roots = write m.roots root (record r { rnode = item }) }
