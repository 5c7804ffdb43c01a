-- ===== src/RadixTree/Grow/Store.antt =====
-- radix_tree/radix-tree.c: `insert_entries` at the slot of an index, in a tree of any height.
use jeopardy.Prelude.{
  ℕ, zero, suc, ◌+◌, ◌*◌, ◌%◌, ◌/◌, ◌^◌, ◌≡◌, ◌≢◌, ◌<◌, refl, inl, inr, some, arith, ◌==◌,
  get_elem?, set, false, Bool-cases, ap, if◌then◌else◌, pos,
}
use jeopardy.Memory.{Ptr, null, read, write, read-write_self, read-write_ne, ok}
use jeopardy.RadixTree.Entry.{is_value}
use jeopardy.RadixTree.State.{Node, Mem, node_slot, put_slot, load_slot}
use jeopardy.RadixTree.Create.{insert_entries, eexist}
use jeopardy.RadixTree.Shape.Digits.{up, up_zero, up-suc}
use jeopardy.RadixTree.Shape.Place.{Places, below, item_at, IsAt, Held, IsTree}
use jeopardy.RadixTree.Shape.Frame.{fill-IsAt, frame-Held, change-Held}
use jeopardy.RadixTree.Shape.Search.{slot-below}

module _ (m : Mem) (root : Ptr) (place : Places) (items : ℕ → Ptr) (h : ℕ)
    (t : IsTree m root place items h) (index : ℕ) (p : Ptr)
    (at : place 0 (up 1 index) ≡ some p) where
  abbrev node : Node
  node = (t.held 0 (up 1 index) p at).node

  node_ne : (p == null) ≡ false
  node_ne = let ne = (t.held 0 (up 1 index) p at).ptr_ne in ground arith

  holds_item : get_elem? node.slots (up 0 index % 64) ≡ some (items index)
  holds_item =
      let e : below place items 0 (up 0 index) ≡ items index = ap items (up_zero index) in
      rw e at (slot-below m root place items h t 0 index p at)

  pub insert_entries-taken :
      (item : Ptr)
      → items index ≢ null
      → insert_entries p (node_slot p (up 0 index % 64)) item m ≡ ok eexist m
  unfolding insert_entries load_slot
  insert_entries-taken item ne =
      let off : (items index == null) ≡ false = ground arith in
      rw ((t.held 0 (up 1 index) p at).loaded, holds_item, off) refl

  module _ (item : Ptr) (item_ne : item ≢ null) (free : items index ≡ null) where
    abbrev slotted : Node
    slotted = record node { slots = set node.slots (up 0 index % 64) item }

    abbrev counted : Node
    counted = record slotted { count = (node.count + 1) % 2 ^ 32 }

    abbrev stored : Node
    stored = record counted {
      nr_values = if is_value item then (node.nr_values + 1) % 2 ^ 32 else node.nr_values;
    }

    abbrev pub mem_stored : Mem
    mem_stored = record m { nodes = write (write (write m.nodes p slotted) p counted) p stored }

    pub insert_entries-free :
        insert_entries p (node_slot p (up 0 index % 64)) item m ≡ ok (pos 1) mem_stored
    unfolding insert_entries load_slot put_slot
    insert_entries-free =
        let l = (t.held 0 (up 1 index) p at).loaded in
        let empty : get_elem? node.slots (up 0 index % 64) ≡ some null = rw free at holds_item in
        rw
          (
            l,
            empty,
            l,
            empty,
            node_ne,
            read-write_self m.nodes p slotted,
            read-write_self (write m.nodes p slotted) p counted,
          )
          refl

    read_other : (a : Ptr) → a ≢ p → read mem_stored.nodes a ≡ read m.nodes a
    read_other a ne =
        rw
          (
            read-write_ne (write (write m.nodes p slotted) p counted) p a stored ne,
            read-write_ne (write m.nodes p slotted) p a counted ne,
            read-write_ne m.nodes p a slotted ne,
          )
          refl

    index_is : up 1 index * 64 + up 0 index % 64 ≡ index
    index_is = let e = up-suc 0 index in let z = up_zero index in omega arith

    stored-IsAt : IsAt place (item_at items index item) 0 (up 1 index) stored
    stored-IsAt =
        fill-IsAt place place items (item_at items index item) 0 (up 1 index) node
          (t.held 0 (up 1 index) p at).at refl (up 0 index % 64) item stored.nr_values (omega arith)
          (ground arith) (rw index_is free) (rw index_is (ground arith))
          (λ k lt ne. let i = index_is in ground arith)

    stored-Held :
        (i j : ℕ) (a : Ptr)
        → place i j ≡ some a
        → Held mem_stored place (item_at items index item) i j a
    stored-Held i j a s = elim (Bool-cases (a == p)) [
      | inl y ↦
          let e : a ≡ p = ground arith in
          let c : place i j ≡ some p = rw (← e) s in
          let z = t.apart i j 0 (up 1 index) p c at in
          let d : Held mem_stored place (item_at items index item) 0 (up 1 index) p =
            change-Held m mem_stored place place items (item_at items index item) 0 (up 1 index) p
              (t.held 0 (up 1 index) p at) stored
              (read-write_self (write (write m.nodes p slotted) p counted) p stored) stored-IsAt in
          rw (z.0, z.1, e) d
      | inr y ↦
          frame-Held m mem_stored place place items (item_at items index item) i j a
            (t.held i j a s) (read_other a (ground arith)) refl (same i j a s (ground arith))
    ]
      where
        same :
            (i j : ℕ) (a : Ptr)
            → place i j ≡ some a
            → a ≢ p
            → (k : ℕ) → k < 64
            → below place (item_at items index item) i (j * 64 + k)
              ≡ below place items i (j * 64 + k)
        same zero j a s ne k lt =
            let away : j ≢ up 1 index = λ e. let b : place 0 j ≡ some p = rw e at in ne (cc) in
            let i = index_is in ground arith
        same (suc i) j a s ne k lt = refl

    pub stored-IsTree : IsTree mem_stored root place (item_at items index item) h
    stored-IsTree = record {
      low = t.low;
      top = t.top;
      top_is = t.top_is;
      node = t.node;
      has_root = t.has_root;
      root_is = t.root_is;
      held = stored-Held;
      apart = t.apart;
      above = t.above;
      inside = t.inside;
      holds = λ i ne. elim (Bool-cases (i == index)) [
        | inl y ↦
            let s : up 1 index ≡ i / 64 =
              let e = up-suc 0 index in
              let z = up_zero index in let same : i ≡ index = ground arith in omega arith in
            (p, rw (← s) at)
        | inr y ↦ t.holds i (λ e. ne (ground arith))
      ];
    }
