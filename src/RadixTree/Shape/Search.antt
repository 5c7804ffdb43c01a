-- ===== src/RadixTree/Shape/Search.antt =====
-- radix_tree/radix-tree.c: `radix_tree_descend` and `__radix_tree_lookup` in a tree of any height.
use jeopardy.Prelude.{
  ℕ, zero, suc, ◌+◌, ◌*◌, ◌%◌, ◌^◌, ◌≡◌, ◌≤◌, ◌<◌, refl, inl, inr, true, false, none, some, arith,
  ltb, get_elem?, ◌==◌, Bool-cases, Option-cases, sym, ap,
}
use jeopardy.Memory.{Ptr, null, ok}
use jeopardy.RadixTree.Entry.{
  is_internal_node, entry_to_node, node_to_entry, shift_maxindex, offset_at,
}
use jeopardy.RadixTree.State.{Mem, Slot, node_slot, root_slot, descend, node_maxindex, root_state}
use jeopardy.RadixTree.Lookup.{Found, lookup_loop, tree_find, tree_lookup}
use jeopardy.RadixTree.Shift.{entry_to_node-node_to_entry}
use jeopardy.RadixTree.Shape.Digits.{up, up_zero, up-suc, up-Covers}
use jeopardy.RadixTree.Shape.Place.{Places, entry_of, below, IsTree, on_path, node_to_entry-ne}

pub entry_to_node-aligned : (p : Ptr) → p % 4 ≡ 0 → entry_to_node p ≡ p
unfolding entry_to_node
entry_to_node-aligned p h = omega arith

pub null_is_data : is_internal_node null ≡ false
unfolding is_internal_node
null_is_data = refl

module _ (m : Mem) (root : Ptr) (place : Places) (items : ℕ → Ptr) (h : ℕ)
    (t : IsTree m root place items h) where
  module _ (n q : ℕ) (p : Ptr) (at : place n q ≡ some p) where
    pub internal : is_internal_node (node_to_entry p) ≡ true
    internal = (entry_to_node-node_to_entry p (t.held n q p at).aligned).0

    pub back : entry_to_node (node_to_entry p) ≡ p
    back = (entry_to_node-node_to_entry p (t.held n q p at).aligned).1

    pub entry_ne : (node_to_entry p == null) ≡ false
    entry_ne = node_to_entry-ne p (t.held n q p at).aligned

    pub inside_of : n ≤ h
    inside_of = (t.inside n q p at).0

  pub slot-below :
      (n index : ℕ) (p : Ptr) (at : place n (up (suc n) index) ≡ some p)
      → get_elem? (t.held n (up (suc n) index) p at).node.slots (up n index % 64)
        ≡ some (below place items n (up n index))
  slot-below n index p at =
      let v = t.held n (up (suc n) index) p at in
      let s : up (suc n) index * 64 + up n index % 64 ≡ up n index =
        let e = up-suc n index in omega arith in
      let w : get_elem? v.node.slots (up n index % 64)
          ≡ some (below place items n (up (suc n) index * 64 + up n index % 64)) =
        v.at.slot (up n index % 64) (omega arith) in
      rw s at w

  pub tree-descend :
      (n index : ℕ) (p : Ptr)
      → place n (up (suc n) index) ≡ some p
      → descend p index m ≡ ok (up n index % 64, below place items n (up n index)) m
  unfolding descend offset_at
  tree-descend n index p at =
      let v = t.held n (up (suc n) index) p at in
      rw (v.loaded, v.at.shifted, slot-below n index p at) refl

  -- An index whose path ends early holds no item.
  pub off_path : (n index : ℕ) → n ≤ h → place n (up (suc n) index) ≡ none → items index ≡ null
  off_path n index le e = elim (Bool-cases (items index == null)) [
    | inl y ↦ ground arith
    | inr y ↦
        let a = on_path m root place items h t n index (ground arith) le in
        let b = a.1 in absurd (cc)
  ]

  tree-lookup_loop :
      (n fuel index : ℕ) (parent : Ptr) (slot : Slot)
      → n < fuel
      → n ≤ h
      → (f : Found) × (lookup_loop fuel index (entry_of (place n (up (suc n) index))) parent slot m
          ≡ ok f m)
        × (f.entry ≡ items index)
  unfolding lookup_loop
  tree-lookup_loop n zero index parent slot lt le = absurd (omega arith)
  tree-lookup_loop zero (suc fuel) index parent slot lt le =
      elim (Option-cases (place 0 (up 1 index))) [
        | inl e ↦ (
          record { entry = null; place = some (parent, slot) },
          rw (e, null_is_data) refl,
          sym (off_path 0 index le e),
        )
        | inr at ↦
            let v = t.held 0 (up 1 index) at.0 at.1 in
            (
              record {
                entry = items (up 0 index);
                place = some (at.0, node_slot at.0 (up 0 index % 64));
              },
              rw
                  (
                    at.1,
                    internal 0 (up 1 index) at.0 at.1,
                    back 0 (up 1 index) at.0 at.1,
                    tree-descend 0 index at.0 at.1,
                    v.loaded,
                    v.at.shifted,
                  )
                  refl,
              ap items (up_zero index),
            )
      ]
  tree-lookup_loop (suc n) (suc fuel) index parent slot lt le =
      elim (Option-cases (place (suc n) (up (suc (suc n)) index))) [
        | inl e ↦ (
          record { entry = null; place = some (parent, slot) },
          rw (e, null_is_data) refl,
          sym (off_path (suc n) index le e),
        )
        | inr at ↦
            let q = up (suc (suc n)) index in
            let v = t.held (suc n) q at.0 at.1 in
            let high : (v.node.shift == 0) ≡ false = let s = v.at.shifted in ground arith in
            let rest =
              tree-lookup_loop n fuel index at.0 (node_slot at.0 (up (suc n) index % 64))
                (omega arith) (omega arith) in
            (
              rest.0,
              rw
                  (
                    at.1,
                    internal (suc n) q at.0 at.1,
                    back (suc n) q at.0 at.1,
                    tree-descend (suc n) index at.0 at.1,
                    v.loaded,
                    high,
                  )
                  rest.1,
              rest.2,
            )
      ]

  pub tree-root_state :
      root_state root m ≡ ok (t.node.rnode, shift_maxindex (6 * h), (6 * h + 6) % 2 ^ 32) m
  unfolding root_state node_maxindex
  tree-root_state =
      let v = t.held h 0 t.top t.top_is in
      rw
        (
          t.has_root,
          t.root_is,
          internal h 0 t.top t.top_is,
          back h 0 t.top t.top_is,
          v.loaded,
          v.at.shifted,
        )
        refl

  -- An index that the height does not cover holds no item.
  pub uncovered : (index : ℕ) → index < 2 ^ 64 → shift_maxindex (6 * h) < index → items index ≡ null
  uncovered index lt past =
      off_path h index (omega arith) (elim (Option-cases (place h (up (suc h) index))) [
        | inl e ↦ e
        | inr a ↦
            let z = (t.inside h (up (suc h) index) a.0 a.1).1 refl in
            let c = (up-Covers h index t.low lt).1 z in absurd (omega arith)
      ])

  -- In a tree of any height, with fuel for its levels, `radix_tree_lookup` of any 64-bit index returns
  -- the item that the tree holds there, or NULL where it holds none, and changes nothing.
  pub tree_lookup-items :
      (fuel index : ℕ)
      → h < fuel
      → index < 2 ^ 64
      → tree_lookup fuel root index m ≡ ok (items index) m
  unfolding tree_lookup tree_find
  tree_lookup-items fuel index enough lt =
      let covers = up-Covers h index t.low lt in
      elim (Bool-cases (ltb (shift_maxindex (6 * h)) index)) [
        | inl past ↦ rw (tree-root_state, past) (rw (uncovered index lt (ground arith)) refl)
        | inr within ↦
            let z : up (suc h) index ≡ 0 = covers.0 (ground arith) in
            let walked = tree-lookup_loop h fuel index null (root_slot root) enough (omega arith) in
            let same : entry_of (place h (up (suc h) index)) ≡ t.node.rnode =
              rw (z, t.top_is, t.root_is) refl in
            let run : lookup_loop fuel index t.node.rnode null (root_slot root) m ≡ ok walked.0 m =
              rw (← same) walked.1 in
            rw (tree-root_state, within, run) (rw walked.2 refl)
      ]
