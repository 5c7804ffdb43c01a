-- ===== src/RadixTree/Shed/Prune.antt =====
-- radix_tree/radix-tree.c: a round of `delete_node` that frees a node with no entries left, below the
-- root of a tree of any height.
use jeopardy.Prelude.{
  ℕ, suc, ◌+◌, ◌-◌, ◌*◌, ◌%◌, ◌/◌, ◌^◌, ◌≡◌, ◌≢◌, ◌<◌, refl, inl, inr, some, arith, Bool, ◌==◌,
  get_elem?, set, false, true, Bool-cases, some-some, sym, ◌∙◌, ap,
}
use jeopardy.Memory.{Ptr, null, read, write, erase, read-write_self, read-write_ne, read-erase_ne}
use jeopardy.RadixTree.Entry.{node_to_entry}
use jeopardy.RadixTree.State.{Node, Mem}
use jeopardy.RadixTree.Remove.{delete_node}
use jeopardy.RadixTree.Shape.Place.{Places, pointer_of, below, IsAt, Held, IsTree, node_to_entry-ne}
use jeopardy.RadixTree.Shape.Frame.{frame-Held, change-Held}
use jeopardy.RadixTree.Shape.Clear.{
  place_off, place_off_self, place_off-ne, place_off-some, below-place_off, filled-zero, clear-IsAt,
}

-- Nothing is below a node that counts no entries.
pub below-uncounted :
    (m : Mem) (root : Ptr) (place : Places) (items : ℕ → Ptr) (h : ℕ)
    (t : IsTree m root place items h) (n q : ℕ) (p : Ptr) (at : place n q ≡ some p)
    → (t.held n q p at).node.count ≡ 0
    → (k : ℕ) → k < 64
    → below place items n (q * 64 + k) ≡ null
below-uncounted m root place items h t n q p at e k lt =
    let a = (t.held n q p at).at in
    filled-zero (t.held n q p at).node.slots k (below place items n (q * 64 + k))
      (sym a.counted ∙ e) (a.slot k lt)

module _ (m : Mem) (root : Ptr) (place : Places) (items : ℕ → Ptr) (h : ℕ)
    (t : IsTree m root place items h) (n q : ℕ) (p : Ptr) (at : place n q ≡ some p) (pp : Ptr)
    (parent_at : place (suc n) (q / 64) ≡ some pp) (empty : (t.held n q p at).node.count ≡ 0) where
  abbrev node : Node
  node = (t.held n q p at).node

  abbrev parent : Node
  parent = (t.held (suc n) (q / 64) pp parent_at).node

  abbrev unlinked : Node
  unlinked = record parent {
    slots = set parent.slots (q % 64) null;
    count = (parent.count + 2 ^ 32 - 1) % 2 ^ 32;
  }

  abbrev pub mem_pruned : Mem
  mem_pruned = record m { nodes = erase (write m.nodes pp unlinked) p }

  abbrev pub pruned : Places
  pruned = place_off place n q

  pp_ne : p ≢ pp
  pp_ne e =
      let c : place (suc n) (q / 64) ≡ some p = rw e parent_at in
      let s = (t.apart n q (suc n) (q / 64) p at c).0 in absurd (omega arith)

  linked : below place items (suc n) (q / 64 * 64 + q % 64) ≡ node_to_entry p
  linked = let s : q / 64 * 64 + q % 64 ≡ q = omega arith in rw (s, at) refl

  -- The round.
  pub prune_round :
      (fuel : ℕ) (deleted : Bool)
      → delete_node (suc fuel) root p deleted m ≡ delete_node fuel root pp true mem_pruned
  unfolding delete_node
  prune_round fuel deleted =
      let a = (t.held n q p at).at in
      let up_ne = (t.held (suc n) (q / 64) pp parent_at).ptr_ne in
      let parent_is : node.parent ≡ pp = rw (a.parent_is, parent_at) refl in
      let inner : (pp == null) ≡ false = ground arith in
      let slot : get_elem? parent.slots (q % 64) ≡ some (node_to_entry p) =
        rw linked at ((t.held (suc n) (q / 64) pp parent_at).at.slot (q % 64) (omega arith)) in
      let kept : read (write m.nodes pp unlinked) p ≡ some node =
        read-write_ne m.nodes pp p unlinked pp_ne ∙ (t.held n q p at).loaded in
      rw
        (
          (t.held n q p at).loaded,
          empty,
          parent_is,
          inner,
          (t.held (suc n) (q / 64) pp parent_at).loaded,
          a.offset_is,
          slot,
          kept,
        )
        refl

  unlinked-IsAt : IsAt pruned items (suc n) (q / 64) unlinked
  unlinked-IsAt =
      clear-IsAt place pruned items items (suc n) (q / 64) parent
        (t.held (suc n) (q / 64) pp parent_at).at
        (ap pointer_of
          (place_off-ne place n q (suc (suc n)) (q / 64 / 64) (λ e. absurd (omega arith))))
        (q % 64) unlinked.count parent.nr_values (omega arith) (omega arith)
        (rw linked (node_to_entry-ne p (t.held n q p at).aligned))
        (let s : q / 64 * 64 + q % 64 ≡ q = omega arith in rw (s, place_off_self place n q) refl)
        (λ k lt ne.
          below-place_off place items n q (suc n) (q / 64 * 64 + k) (λ e z. ne (omega arith)))

  read_other : (a : Ptr) → a ≢ p → a ≢ pp → read mem_pruned.nodes a ≡ read m.nodes a
  read_other a b c =
      rw (read-erase_ne (write m.nodes pp unlinked) p a b, read-write_ne m.nodes pp a unlinked c)
        refl

  -- A place below the one that is emptied has no node.
  childless : (i j : ℕ) (a : Ptr) → place i j ≡ some a → suc i ≡ n → j / 64 ≢ q
  childless i j a s e z =
      let b = below-uncounted m root place items h t n q p at empty (j % 64) (omega arith) in
      let same : q * 64 + j % 64 ≡ j = omega arith in
      let c : below place items n j ≡ null = rw same at b in
      let d : below place items (suc i) j ≡ null = rw (← e) at c in
      let f : node_to_entry a ≡ null = rw s at d in
      let g = node_to_entry-ne a (t.held i j a s).aligned in absurd (ground arith)

  pruned-Held : (i j : ℕ) (a : Ptr) → pruned i j ≡ some a → Held mem_pruned pruned items i j a
  pruned-Held i j a e =
      let s = place_off-some place n q i j a e in
      let own : a ≢ p = λ z.
        let b : place i j ≡ some p = rw (← z) s.1 in
        let w = t.apart i j n q p b at in s.0 w.0 w.1 in
      elim (Bool-cases (a == pp)) [
        | inl y ↦
            let z : a ≡ pp = ground arith in
            let c : place i j ≡ some pp = rw (← z) s.1 in
            let w = t.apart i j (suc n) (q / 64) pp c parent_at in
            let loaded : read mem_pruned.nodes pp ≡ some unlinked =
              read-erase_ne (write m.nodes pp unlinked) p pp (λ u. pp_ne (sym u))
              ∙ read-write_self m.nodes pp unlinked in
            let d : Held mem_pruned pruned items (suc n) (q / 64) pp =
              change-Held m mem_pruned place pruned items items (suc n) (q / 64) pp
                (t.held (suc n) (q / 64) pp parent_at) unlinked loaded unlinked-IsAt in
            rw (w.0, w.1, z) d
        | inr y ↦
            let ne : a ≢ pp = ground arith in
            frame-Held m mem_pruned place pruned items items i j a (t.held i j a s.1)
              (read_other a own ne)
              (ap pointer_of (place_off-ne place n q (suc i) (j / 64) (childless i j a s.1)))
              (λ k lt. below-place_off place items n q i (j * 64 + k) (λ u v.
                let f : j ≡ q / 64 = omega arith in
                let b : place i j ≡ some pp = rw (u, f) parent_at in
                ne (some-some a pp (sym s.1 ∙ b))))
      ]

  pub pruned-IsTree : n < h → IsTree mem_pruned root pruned items h
  pruned-IsTree lt = record {
    low = t.low;
    top = t.top;
    top_is = place_off-ne place n q h 0 (λ e. absurd (omega arith)) ∙ t.top_is;
    node = t.node;
    has_root = t.has_root;
    root_is = t.root_is;
    held = pruned-Held;
    apart = λ b c i j a x y.
        t.apart b c i j a (place_off-some place n q b c a x).1 (place_off-some place n q i j a y).1;
    above = λ i j a x l.
        let s = place_off-some place n q i j a x in
        let b = t.above i j a s.1 l in
        (b.0, place_off-ne place n q (suc i) (j / 64) (childless i j a s.1) ∙ b.1);
    inside = λ i j a x. t.inside i j a (place_off-some place n q i j a x).1;
    holds = λ i ne.
        let b = t.holds i ne in
        let away : 0 ≡ n → i / 64 ≢ q = λ u v.
          let c = below-uncounted m root place items h t n q p at empty (i % 64) (omega arith) in
          let same : q * 64 + i % 64 ≡ i = omega arith in
          let d : below place items n i ≡ null = rw same at c in
          let f : below place items 0 i ≡ null = rw (← u) at d in ne f in
        (b.0, place_off-ne place n q 0 (i / 64) away ∙ b.1);
  }
