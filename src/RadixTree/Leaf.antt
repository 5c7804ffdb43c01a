-- ===== src/RadixTree/Leaf.antt =====
-- A tree whose root is a leaf node: lookups, insertions and deletions of indices below 64.
use jeopardy.Prelude.{
  ℕ, suc, ◌+◌, ◌%◌, ◌/◌, ◌^◌, ◌≡◌, ◌≢◌, ◌<◌, refl, sym, ◌∙◌, true, false, some, arith, ltb, ◌==◌,
  length, length-set, get_elem?, get_elem?-set_self, get_elem?-set_ne, set, if◌then◌else◌, pos,
}
use jeopardy.Memory.{Ptr, null, read, write, read-write_self, ok, ◌>>◌}
use jeopardy.RadixTree.Entry.{
  is_internal_node, entry_to_node, node_to_entry, shift_maxindex, offset_at, is_value,
}
use jeopardy.RadixTree.State.{
  Node, Root, Mem, Calloc, node_slot, load_slot, put_slot, descend, node_maxindex, root_state,
}
use jeopardy.RadixTree.Create.{
  create_loop, create_from, tree_create, insert_entries, tree_insert, eexist,
}
use jeopardy.RadixTree.Lookup.{lookup_loop, tree_find, tree_lookup}
use jeopardy.RadixTree.Shift.{entry_to_node-node_to_entry}

pub record IsLeaf (m : Mem) (root : Ptr) (r : Root) (p : Ptr) (v : Node) : Type 0 where
  pub has_root : read m.roots root ≡ some r
  pub top : r.rnode ≡ node_to_entry p
  pub aligned : p % 4 ≡ 0
  pub ptr_ne : p ≢ null
  pub has_node : read m.nodes p ≡ some v
  pub low : v.shift ≡ 0
  pub full : length v.slots ≡ 64

module _ (m : Mem) (root : Ptr) (r : Root) (p : Ptr) (v : Node) (l : IsLeaf m root r p v) where
  pub internal : is_internal_node r.rnode ≡ true
  internal = rw l.top (entry_to_node-node_to_entry p l.aligned).0

  pub back : entry_to_node r.rnode ≡ p
  back = rw l.top (entry_to_node-node_to_entry p l.aligned).1

  rnode_ne : (r.rnode == null) ≡ false
  unfolding is_internal_node
  rnode_ne = let i : (r.rnode % 4 == 2) ≡ true = internal in ground arith

  pub leaf-root_state : root_state root m ≡ ok (r.rnode, 63, 6) m
  unfolding root_state node_maxindex shift_maxindex
  leaf-root_state = rw (l.has_root, internal, back, l.has_node, l.low) refl

  pub leaf-descend :
      (k : ℕ) (e : Ptr) → k < 64 → get_elem? v.slots k ≡ some e → descend p k m ≡ ok (k, e) m
  unfolding descend offset_at
  leaf-descend k e lt at =
      let same : k / 1 % 64 ≡ k = omega arith in rw (l.has_node, l.low, same, at) refl

  -- What `radix_tree_lookup` reads.
  pub leaf-tree_lookup :
      (fuel k : ℕ) (e : Ptr)
      → k < 64
      → get_elem? v.slots k ≡ some e
      → tree_lookup (suc fuel) root k m ≡ ok e m
  unfolding tree_lookup tree_find lookup_loop
  leaf-tree_lookup fuel k e lt at =
      let inside : ltb 63 k ≡ false = ground arith in
      rw (leaf-root_state, inside, internal, back, leaf-descend k e lt at, l.has_node, l.low) refl

  leaf-tree_create :
      (calloc : Calloc) (fuel k : ℕ) (e : Ptr)
      → k < 64
      → get_elem? v.slots k ≡ some e
      → tree_create calloc (suc (suc fuel)) root k m ≡ ok (some (p, node_slot p k)) m
  unfolding tree_create create_from create_loop
  leaf-tree_create calloc fuel k e lt at =
      let inside : ltb 63 k ≡ false = ground arith in
      rw (leaf-root_state, inside, l.has_root, rnode_ne, rnode_ne, back, leaf-descend k e lt at)
        refl

-- The insertion of an item in an empty slot.
module _ (m : Mem) (root : Ptr) (r : Root) (p : Ptr) (v : Node) (l : IsLeaf m root r p v)
    (calloc : Calloc) (fuel k : ℕ) (item : Ptr) (lt : k < 64) where
  abbrev values : ℕ
  values = if is_value item then (v.nr_values + 1) % 2 ^ 32 else v.nr_values

  abbrev pub inserted : Node
  inserted = record v {
    count = (v.count + 1) % 2 ^ 32;
    nr_values = values;
    slots = set v.slots k item;
  }

  abbrev slotted : Node
  slotted = record v { slots = set v.slots k item }

  abbrev pub mem_inserted : Mem
  mem_inserted = record m {
    nodes =
        write
          (write (write m.nodes p slotted) p (record slotted { count = (v.count + 1) % 2 ^ 32 })) p
          inserted;
  }

  leaf-tree_insert :
      get_elem? v.slots k ≡ some null
      → tree_insert calloc (suc (suc fuel)) root k item m ≡ ok (pos 0) mem_inserted
  unfolding tree_insert insert_entries load_slot put_slot
  leaf-tree_insert at =
      let ne : (p == null) ≡ false = let h = l.ptr_ne in ground arith in
      rw
        (
          leaf-tree_create m root r p v l calloc fuel k null lt at,
          l.has_node,
          at,
          l.has_node,
          at,
          ne,
          read-write_self m.nodes p slotted,
          read-write_self (write m.nodes p slotted) p
              (record slotted { count = (v.count + 1) % 2 ^ 32 }),
        )
        refl

  inserted-IsLeaf : IsLeaf mem_inserted root r p inserted
  inserted-IsLeaf = record {
    has_root = l.has_root;
    top = l.top;
    aligned = l.aligned;
    ptr_ne = l.ptr_ne;
    has_node = read-write_self _ p inserted;
    low = l.low;
    full = length-set v.slots k item ∙ l.full;
  }

  -- In a tree whose root is a leaf, with fuel for two rounds, `radix_tree_insert` of an item at an
  -- empty index below 64 succeeds, and `radix_tree_lookup` of that index then finds the item.
  tree_lookup-tree_insert_self :
      get_elem? v.slots k ≡ some null
      → (do tree_insert calloc (suc (suc fuel)) root k item; tree_lookup (suc fuel) root k) m
        ≡ ok item mem_inserted
  tree_lookup-tree_insert_self at = rw (leaf-tree_insert at) (
      leaf-tree_lookup mem_inserted root r p inserted inserted-IsLeaf fuel k item lt
        (get_elem?-set_self v.slots k item at))

  -- In a tree whose root is a leaf, with fuel for two rounds, after `radix_tree_insert` of an item at
  -- an empty index below 64, `radix_tree_lookup` of another index below 64 finds what it found before.
  tree_lookup-tree_insert_ne :
      (j : ℕ) (e : Ptr)
      → get_elem? v.slots k ≡ some null
      → j < 64
      → j ≢ k
      → get_elem? v.slots j ≡ some e
      → (tree_lookup (suc fuel) root j m ≡ ok e m)
        × ((do tree_insert calloc (suc (suc fuel)) root k item; tree_lookup (suc fuel) root j) m
            ≡ ok e mem_inserted)
  tree_lookup-tree_insert_ne j e at small ne there = (
    leaf-tree_lookup m root r p v l fuel j e small there,
    rw (leaf-tree_insert at) (
        leaf-tree_lookup mem_inserted root r p inserted inserted-IsLeaf fuel j e small
          (get_elem?-set_ne v.slots k j item (λ q. ne (sym q)) ∙ there)),
  )

  -- In a tree whose root is a leaf, with fuel for two rounds, `radix_tree_insert` at an index below 64
  -- that holds an entry returns -EEXIST and changes nothing.
  tree_insert-taken :
      (e : Ptr)
      → get_elem? v.slots k ≡ some e
      → e ≢ null
      → tree_insert calloc (suc (suc fuel)) root k item m ≡ ok eexist m
  unfolding tree_insert insert_entries load_slot
  tree_insert-taken e at ne =
      let off : (e == null) ≡ false = ground arith in
      rw (leaf-tree_create m root r p v l calloc fuel k e lt at, l.has_node, at, off) refl
