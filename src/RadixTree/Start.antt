-- ===== src/RadixTree/Start.antt =====
-- radix_tree/radix-tree.c: `radix_tree_root_alloc`, with and without room for the first node.
use jeopardy.Prelude.{
  ℕ, suc, ◌%◌, ◌≡◌, ◌≢◌, refl, inl, inr, some, none, arith, ◌==◌, false, get_elem?-replicate,
  none-some, sym, ◌∙◌,
}
use jeopardy.Memory.{Ptr, null, read, write, read-write_self, ok, fault}
use jeopardy.RadixTree.Entry.{node_to_entry, entry_to_node, is_internal_node}
use jeopardy.RadixTree.State.{
  Node, Root, Mem, Calloc, root_alloc, node_alloc, fresh_node, root_state,
}
use jeopardy.RadixTree.Lookup.{tree_lookup, tree_find}
use jeopardy.RadixTree.Shape.Place.{Places, place_at, IsAt, Held, IsTree}
use jeopardy.RadixTree.Shape.Frame.{place_at-cases}

abbrev no_items : ℕ → Ptr
no_items i = null

module _ (calloc : Calloc) (m : Mem) (root_ne : calloc.root m ≢ null) where
  abbrev root : Ptr
  root = calloc.root m

  abbrev blank : Root
  blank = record { height = 0; rnode = null }

  -- The memory in which the node is allocated.
  abbrev pub mem_rooted : Mem
  mem_rooted = record m { roots = write m.roots root blank }

  abbrev new : Ptr
  new = calloc.node mem_rooted

  abbrev first : Node
  first = fresh_node null 0 0 0 0

  abbrev ready : Root
  ready = record { height = 1; rnode = node_to_entry new }

  module _ (room : new ≢ null) where
    abbrev pub mem_started : Mem
    mem_started = record {
      nodes = write m.nodes new first;
      roots = write (write m.roots root blank) root ready;
    }

    pub root_alloc-started : root_alloc calloc m ≡ ok root mem_started
    unfolding root_alloc node_alloc
    root_alloc-started =
        let r : (root == null) ≡ false = ground arith in
        let n : (new == null) ≡ false = ground arith in rw (r, n) refl

    abbrev only : Places
    only = place_at (λ n q. none) 0 0 new

    only_there : (n q : ℕ) (p : Ptr) → only n q ≡ some p → (n ≡ 0) × (q ≡ 0) × (p ≡ new)
    only_there n q p e = elim (place_at-cases (λ n q. none) 0 0 new n q p e) [
      | inl s ↦ s
      | inr (x, y) ↦ absurd (none-some none p refl y)
    ]

    module _ (aligned : new % 4 ≡ 0) where
      first-IsAt : IsAt only no_items 0 0 first
      first-IsAt = record {
        shifted = refl;
        full = refl;
        offset_is = refl;
        parent_is = refl;
        counted = refl;
        slot = λ k lt. get_elem?-replicate 64 k null lt;
      }

      pub started-IsTree : IsTree mem_started root only no_items 0
      started-IsTree = record {
        low = omega arith;
        top = new;
        top_is = refl;
        node = ready;
        has_root = read-write_self (write m.roots root blank) root ready;
        root_is = refl;
        held = λ n q p e.
            let s = only_there n q p e in
            let b : Held mem_started only no_items 0 0 new = record {
              node = first;
              loaded = read-write_self m.nodes new first;
              aligned = aligned;
              ptr_ne = room;
              at = first-IsAt;
            } in
            rw (s.0, s.1, s.2) b;
        apart = λ n q i j p x y.
            let s = only_there n q p x in
            let u = only_there i j p y in (s.0 ∙ sym u.0, s.1 ∙ sym u.1);
        above = λ n q p e lt. absurd (omega arith);
        inside = λ n q p e. let s = only_there n q p e in (let z = s.0 in omega arith, λ z. s.1);
        holds = λ i ne. absurd (ne refl);
      }

  -- Where `calloc` has room for the root and none for its node, `radix_tree_root_alloc` returns a root
  -- whose entry is tagged as a node at address 0: a lookup of any index in it, with fuel for a round,
  -- reads that address, a fault where no node is there.
  pub root_alloc-no_node :
      new ≡ null
      → read m.nodes null ≡ none
      → (m' : Mem) × (root_alloc calloc m ≡ ok root m')
        × ((fuel index : ℕ) → tree_lookup (suc fuel) root index m' ≡ fault)
  unfolding root_alloc node_alloc tree_lookup tree_find root_state is_internal_node node_to_entry
      entry_to_node
  root_alloc-no_node no_room unused =
      let r : (root == null) ≡ false = ground arith in
      let bad : Root = record { height = 1; rnode = 2 } in
      (
        record m { roots = write (write m.roots root blank) root bad },
        rw (r, no_room) refl,
        λ fuel index. rw (read-write_self (write m.roots root blank) root bad, unused) refl,
      )
