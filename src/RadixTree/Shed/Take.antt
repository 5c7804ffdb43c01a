-- ===== src/RadixTree/Shed/Take.antt =====
-- radix_tree/radix-tree.c: the search for an item in a tree of any height, and `replace_slot` that
-- takes it out of its slot.
use jeopardy.Prelude.{
  ℕ, zero, suc, ◌+◌, ◌-◌, ◌*◌, ◌%◌, ◌^◌, ◌≡◌, ◌≢◌, ◌≤◌, ◌<◌, refl, inl, inr, some, arith, ltb, ◌==◌,
  get_elem?, set, false, Bool-cases, some-some, sym, ◌∙◌, ap, if◌then◌else◌,
}
use jeopardy.Memory.{Ptr, null, read, write, read-write_self, read-write_ne, ok}
use jeopardy.RadixTree.Entry.{is_value, node_to_entry, shift_maxindex}
use jeopardy.RadixTree.State.{Node, Mem, Slot, node_slot, root_slot, put_slot, load_slot}
use jeopardy.RadixTree.Lookup.{lookup_loop, tree_find}
use jeopardy.RadixTree.Remove.{replace_slot}
use jeopardy.RadixTree.Shape.Digits.{up, up_zero, up-suc, up-Covers}
use jeopardy.RadixTree.Shape.Place.{Places, below, item_at, IsAt, Held, IsTree, on_path}
use jeopardy.RadixTree.Shape.Frame.{frame-Held, change-Held}
use jeopardy.RadixTree.Shape.Clear.{clear-IsAt}
use jeopardy.RadixTree.Shape.Search.{
  slot-below, internal, back, tree-descend, tree-root_state, uncovered,
}

module _ (m : Mem) (root : Ptr) (place : Places) (items : ℕ → Ptr) (h : ℕ)
    (t : IsTree m root place items h) (index : ℕ) (item_ne : items index ≢ null) where
  -- The leaf node of the item.
  pub leaf : (p : Ptr) × (place 0 (up 1 index) ≡ some p)
  leaf = on_path m root place items h t 0 index item_ne (omega arith)

  find_loop :
      (n fuel : ℕ) (p parent : Ptr) (slot : Slot)
      → n < fuel
      → n ≤ h
      → place n (up (suc n) index) ≡ some p
      → lookup_loop fuel index (node_to_entry p) parent slot m
        ≡ ok
            (record {
              entry = items index;
              place = some (leaf.0, node_slot leaf.0 (up 0 index % 64));
            })
            m
  unfolding lookup_loop
  find_loop n zero p parent slot lt le at = absurd (omega arith)
  find_loop zero (suc fuel) p parent slot lt le at =
      let v = t.held 0 (up 1 index) p at in
      let same : p ≡ leaf.0 = some-some p leaf.0 (sym at ∙ leaf.1) in
      let z : items (up 0 index) ≡ items index = ap items (up_zero index) in
      rw
        (
          internal m root place items h t 0 (up 1 index) p at,
          back m root place items h t 0 (up 1 index) p at,
          tree-descend m root place items h t 0 index p at,
          v.loaded,
          v.at.shifted,
          z,
          ← same,
        )
        refl
  find_loop (suc n) (suc fuel) p parent slot lt le at =
      let q = up (suc (suc n)) index in
      let v = t.held (suc n) q p at in
      let high : (v.node.shift == 0) ≡ false = let s = v.at.shifted in ground arith in
      let c = on_path m root place items h t n index item_ne (omega arith) in
      rw
        (
          internal m root place items h t (suc n) q p at,
          back m root place items h t (suc n) q p at,
          tree-descend m root place items h t (suc n) index p at,
          v.loaded,
          high,
          c.1,
        )
        (find_loop n fuel c.0 p (node_slot p (up (suc n) index % 64)) (omega arith) (omega arith)
          c.1)

  pub finds :
      (fuel : ℕ)
      → h < fuel
      → index < 2 ^ 64
      → tree_find fuel root index m
        ≡ ok
            (record {
              entry = items index;
              place = some (leaf.0, node_slot leaf.0 (up 0 index % 64));
            })
            m
  unfolding tree_find
  finds fuel enough lt = elim (Bool-cases (ltb (shift_maxindex (6 * h)) index)) [
    | inl past ↦ absurd (item_ne (uncovered m root place items h t index lt (ground arith)))
    | inr within ↦
        let z : up (suc h) index ≡ 0 = (up-Covers h index t.low lt).0 (ground arith) in
        let at : place h (up (suc h) index) ≡ some t.top = rw z t.top_is in
        rw (tree-root_state m root place items h t, within, t.root_is)
          (find_loop h fuel t.top null (root_slot root) enough (omega arith) at)
  ]

  abbrev node : Node
  node = (t.held 0 (up 1 index) leaf.0 leaf.1).node

  abbrev values : ℕ
  values = if is_value (items index) then 2 ^ 32 - 1 else 0

  abbrev counted : Node
  counted = record node {
    count = (node.count + (2 ^ 32 - 1)) % 2 ^ 32;
    nr_values = (node.nr_values + values) % 2 ^ 32;
  }

  abbrev cleared : Node
  cleared = record counted { slots = set node.slots (up 0 index % 64) null }

  abbrev pub mem_taken : Mem
  mem_taken = record m { nodes = write (write m.nodes leaf.0 counted) leaf.0 cleared }

  holds_item : get_elem? node.slots (up 0 index % 64) ≡ some (items index)
  holds_item =
      let e : below place items 0 (up 0 index) ≡ items index = ap items (up_zero index) in
      rw e at (slot-below m root place items h t 0 index leaf.0 leaf.1)

  pub leaf_ne : (leaf.0 == null) ≡ false
  leaf_ne = let ne = (t.held 0 (up 1 index) leaf.0 leaf.1).ptr_ne in ground arith

  pub load-item : load_slot (node_slot leaf.0 (up 0 index % 64)) m ≡ ok (items index) m
  unfolding load_slot
  load-item = rw ((t.held 0 (up 1 index) leaf.0 leaf.1).loaded, holds_item) refl

  pub take_slot :
      replace_slot (node_slot leaf.0 (up 0 index % 64)) null leaf.0 (2 ^ 32 - 1) values m
      ≡ ok tt mem_taken
  unfolding replace_slot put_slot
  take_slot =
      rw
        (
          leaf_ne,
          (t.held 0 (up 1 index) leaf.0 leaf.1).loaded,
          read-write_self m.nodes leaf.0 counted,
          holds_item,
        )
        refl

  index_is : up 1 index * 64 + up 0 index % 64 ≡ index
  index_is = let e = up-suc 0 index in let z = up_zero index in omega arith

  abbrev pub rest : ℕ → Ptr
  rest = item_at items index null

  cleared-IsAt : IsAt place rest 0 (up 1 index) cleared
  cleared-IsAt =
      clear-IsAt place place items rest 0 (up 1 index) node (t.held 0 (up 1 index) leaf.0 leaf.1).at
        refl (up 0 index % 64) cleared.count cleared.nr_values refl (omega arith)
        (rw index_is (ground arith)) (rw index_is (ground arith))
        (λ k lt ne. let i = index_is in ground arith)

  read_other : (a : Ptr) → a ≢ leaf.0 → read mem_taken.nodes a ≡ read m.nodes a
  read_other a ne =
      rw
        (
          read-write_ne (write m.nodes leaf.0 counted) leaf.0 a cleared ne,
          read-write_ne m.nodes leaf.0 a counted ne,
        )
        refl

  taken-Held : (i j : ℕ) (a : Ptr) → place i j ≡ some a → Held mem_taken place rest i j a
  taken-Held i j a s = elim (Bool-cases (a == leaf.0)) [
    | inl y ↦
        let e : a ≡ leaf.0 = ground arith in
        let c : place i j ≡ some leaf.0 = rw (← e) s in
        let z = t.apart i j 0 (up 1 index) leaf.0 c leaf.1 in
        let d : Held mem_taken place rest 0 (up 1 index) leaf.0 =
          change-Held m mem_taken place place items rest 0 (up 1 index) leaf.0
            (t.held 0 (up 1 index) leaf.0 leaf.1) cleared
            (read-write_self (write m.nodes leaf.0 counted) leaf.0 cleared) cleared-IsAt in
        rw (z.0, z.1, e) d
    | inr y ↦
        frame-Held m mem_taken place place items rest i j a (t.held i j a s)
          (read_other a (ground arith)) refl (same i j a s (ground arith))
  ]
    where
      same :
          (i j : ℕ) (a : Ptr)
          → place i j ≡ some a
          → a ≢ leaf.0
          → (k : ℕ) → k < 64
          → below place rest i (j * 64 + k) ≡ below place items i (j * 64 + k)
      same zero j a s ne k lt =
          let away : j ≢ up 1 index = λ e.
            let b : place 0 j ≡ some leaf.0 = rw e leaf.1 in ne (some-some a leaf.0 (sym s ∙ b)) in
          let i = index_is in ground arith
      same (suc i) j a s ne k lt = refl

  pub taken-IsTree : IsTree mem_taken root place rest h
  taken-IsTree = record {
    low = t.low;
    top = t.top;
    top_is = t.top_is;
    node = t.node;
    has_root = t.has_root;
    root_is = t.root_is;
    held = taken-Held;
    apart = t.apart;
    above = t.above;
    inside = t.inside;
    holds = λ i ne. t.holds i (λ e. ne (ground arith));
  }
