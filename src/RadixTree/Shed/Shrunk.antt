-- ===== src/RadixTree/Shed/Shrunk.antt =====
-- radix_tree/radix-tree.c: the loops of `radix_tree_shrink` and `delete_node` in a tree of any height.
use jeopardy.Prelude.{
  ℕ, zero, suc, ◌+◌, ◌*◌, ◌/◌, ◌≡◌, ◌≢◌, ◌≤◌, ◌<◌, refl, inl, inr, ◌⊎◌, some, arith, Bool, ◌==◌,
  ◌||◌, get_elem?, false, true, Bool-cases, Option-cases, ◌∙◌, ap,
}
use jeopardy.Memory.{Ptr, null, write, erase, read-write_self, Run, ok}
use jeopardy.RadixTree.Entry.{node_to_entry}
use jeopardy.RadixTree.State.{Node, Root, Mem}
use jeopardy.RadixTree.Remove.{shrink, delete_node}
use jeopardy.RadixTree.Shape.Digits.{up, up-suc}
use jeopardy.RadixTree.Shape.Place.{
  Places, entry_of, below, IsTree, Holds, IsEmpty, on_path, pointer_of, below-full, beyond,
}
use jeopardy.RadixTree.Shape.Search.{internal, back}
use jeopardy.RadixTree.Shed.Prune.{below-uncounted, mem_pruned, pruned, prune_round, pruned-IsTree}
use jeopardy.RadixTree.Shape.Clear.{place_off-ne}
use jeopardy.RadixTree.Shed.Lower.{mem_lowered, lowered, lower_round, lowered-IsTree}

-- What `radix_tree_shrink` ends with.
pub record Shrunk (root : Ptr) (items : ℕ → Ptr) (run : Run Mem Bool) : Type 0 where
  pub after : Mem
  pub result : Bool
  pub runs : run ≡ ok result after
  pub holds : Holds after root items

module _ (root : Ptr) (items : ℕ → Ptr) where
  module _ (h : ℕ) (m : Mem) (place : Places) (t : IsTree m root place items h) where
    stays : (shrunk : Bool) (run : Run Mem Bool) → run ≡ ok shrunk m → Shrunk root items run
    stays shrunk run e = record {
      after = m;
      result = shrunk;
      runs = e;
      holds = record { place = place; height = h; tree = t };
    }

    abbrev node : Node
    node = (t.held h 0 t.top t.top_is).node

    shrink-many :
        (fuel : ℕ) (shrunk : Bool)
        → (node.count == 1) ≡ false
        → shrink (suc fuel) root shrunk m ≡ ok shrunk m
    unfolding shrink
    shrink-many fuel shrunk many =
        rw
          (
            t.has_root,
            t.root_is,
            internal m root place items h t h 0 t.top t.top_is,
            back m root place items h t h 0 t.top t.top_is,
            (t.held h 0 t.top t.top_is).loaded,
            many,
          )
          refl

    shrink-stops :
        (fuel : ℕ) (shrunk : Bool) (child : Ptr)
        → (node.count == 1) ≡ true
        → get_elem? node.slots 0 ≡ some child
        → ((child == null) || (node.shift == 0)) ≡ true
        → shrink (suc fuel) root shrunk m ≡ ok shrunk m
    unfolding shrink
    shrink-stops fuel shrunk child one slot stop =
        rw
          (
            t.has_root,
            t.root_is,
            internal m root place items h t h 0 t.top t.top_is,
            back m root place items h t h 0 t.top t.top_is,
            (t.held h 0 t.top t.top_is).loaded,
            one,
            slot,
            stop,
          )
          refl

  -- The loop ends within the levels, and the items are what they were.
  shrink_ends :
      (fuel h : ℕ) (m : Mem) (place : Places) (t : IsTree m root place items h) (shrunk : Bool)
      → h < fuel
      → Shrunk root items (shrink fuel root shrunk m)
  shrink_ends zero h m place t shrunk lt = absurd (omega arith)
  shrink_ends (suc fuel) zero m place t shrunk lt =
      elim (Bool-cases ((t.held 0 0 t.top t.top_is).node.count == 1)) [
        | inr many ↦ stays 0 m place t shrunk _ (shrink-many 0 m place t fuel shrunk many)
        | inl one ↦
            let a = (t.held 0 0 t.top t.top_is).at in
            stays 0 m place t shrunk _ (
              shrink-stops 0 m place t fuel shrunk (items 0) one (a.slot 0 (omega arith))
                (let s = a.shifted in ground arith))
      ]
  shrink_ends (suc fuel) (suc h) m place t shrunk lt =
      elim (Bool-cases ((t.held (suc h) 0 t.top t.top_is).node.count == 1)) [
        | inr many ↦
            stays (suc h) m place t shrunk _ (shrink-many (suc h) m place t fuel shrunk many)
        | inl one ↦
            let a = (t.held (suc h) 0 t.top t.top_is).at in
            elim (Option-cases (place h 0)) [
              | inl e ↦ stays (suc h) m place t shrunk _ (
                  shrink-stops (suc h) m place t fuel shrunk null one
                    (a.slot 0 (omega arith) ∙ ap (λ o. some (entry_of o)) e) refl)
              | inr c ↦
                  let single : (t.held (suc h) 0 t.top t.top_is).node.count ≡ 1 = ground arith in
                  let rest =
                    shrink_ends fuel h (mem_lowered m root place items h t single c.0 c.1)
                      (lowered m root place items h t single c.0 c.1)
                      (lowered-IsTree m root place items h t single c.0 c.1) true (omega arith) in
                  record {
                    after = rest.after;
                    result = rest.result;
                    runs =
                        lower_round m root place items h t single c.0 c.1 fuel shrunk ∙ rest.runs;
                    holds = rest.holds;
                  }
            ]
      ]

-- What `delete_node` ends with: a tree, or none where the last node is freed.
pub record Deleted (root : Ptr) (items : ℕ → Ptr) (run : Run Mem Bool) : Type 0 where
  pub after : Mem
  pub result : Bool
  pub runs : run ≡ ok result after
  pub holds : Holds after root items ⊎ IsEmpty after root items

module _ (root : Ptr) (items : ℕ → Ptr) (h : ℕ) where
  module _ (m : Mem) (place : Places) (t : IsTree m root place items h) (n q : ℕ) (p : Ptr)
      (at : place n q ≡ some p) (highest : n ≡ h) (first : q ≡ 0)
      (e : (t.held n q p at).node.count ≡ 0) where
    -- A root node that counts no entries holds no items.
    nothing_held : (i : ℕ) → items i ≡ null
    nothing_held i = elim (Bool-cases (items i == null)) [
      | inl y ↦ ground arith
      | inr y ↦
          let ne : items i ≢ null = ground arith in
          let a = on_path m root place items h t n i ne (omega arith) in
          let z = (t.inside n (up (suc n) i) a.0 a.1).1 highest in
          let s = up-suc n i in
          let small : up n i < 64 = omega arith in
          let same : q * 64 + up n i ≡ up n i = omega arith in
          let b : below place items n (up n i) ≡ null =
            rw same at (below-uncounted m root place items h t n q p at e (up n i) small) in
          absurd (below-full m root place items h t n i ne (omega arith) b)
    ]

    abbrev bare : Root
    bare = record t.node { rnode = null }

    abbrev mem_bare : Mem
    mem_bare = record { nodes = erase m.nodes p; roots = write m.roots root bare }

    empty_round :
        (fuel : ℕ) (deleted : Bool) → delete_node (suc fuel) root p deleted m ≡ ok true mem_bare
    unfolding delete_node
    empty_round fuel deleted =
        let v = t.held n q p at in
        let no_parent : v.node.parent ≡ null =
          v.at.parent_is
          ∙ ap pointer_of (beyond m root place items h t (suc n) (q / 64) (omega arith)) in
        rw (v.loaded, e, no_parent, t.has_root, v.loaded) refl

    delete_root :
        (fuel : ℕ) (deleted : Bool) → Deleted root items (delete_node (suc fuel) root p deleted m)
    delete_root fuel deleted = record {
      after = mem_bare;
      result = true;
      runs = empty_round fuel deleted;
      holds = inr (record {
        node = bare;
        has_root = read-write_self m.roots root bare;
        no_node = refl;
        nothing = nothing_held;
      });
    }

  pub delete_node_ends :
      (fuel n q : ℕ) (m : Mem) (place : Places) (t : IsTree m root place items h) (p : Ptr)
      (at : place n q ≡ some p) (deleted : Bool)
      → h + h + 2 ≤ fuel + n
      → Deleted root items (delete_node fuel root p deleted m)
  unfolding delete_node
  delete_node_ends zero n q m place t p at deleted enough =
      let l = (t.inside n q p at).0 in absurd (omega arith)
  delete_node_ends (suc fuel) n q m place t p at deleted enough =
      let within = t.inside n q p at in
      let le = within.0 in
      elim (Bool-cases ((t.held n q p at).node.count == 0)) [
        | inr some_left ↦ elim (Bool-cases (node_to_entry p == t.node.rnode)) [
          | inr other ↦ record {
            after = m;
            result = deleted;
            runs = rw ((t.held n q p at).loaded, some_left, t.has_root, other) refl;
            holds = inl (record { place = place; height = h; tree = t });
          }
          | inl at_top ↦
              let s = shrink_ends root items fuel h m place t false (omega arith) in
              record {
                after = s.after;
                result = deleted || s.result;
                runs = rw ((t.held n q p at).loaded, some_left, t.has_root, at_top, s.runs) refl;
                holds = inl s.holds;
              }
        ]
        | inl none_left ↦
            let e : (t.held n q p at).node.count ≡ 0 = ground arith in
            elim (Bool-cases (n == h)) [
              | inr lower ↦
                  let lt : n < h = let ne : n ≢ h = ground arith in omega arith in
                  let pp = t.above n q p at lt in
                  let rest =
                    delete_node_ends fuel (suc n) (q / 64)
                      (mem_pruned m root place items h t n q p at pp.0 pp.1 e)
                      (pruned m root place items h t n q p at pp.0 pp.1 e)
                      (pruned-IsTree m root place items h t n q p at pp.0 pp.1 e lt) pp.0
                      (place_off-ne place n q (suc n) (q / 64) (λ u. absurd (omega arith)) ∙ pp.1)
                      true (omega arith) in
                  record {
                    after = rest.after;
                    result = rest.result;
                    runs =
                        prune_round m root place items h t n q p at pp.0 pp.1 e fuel deleted
                        ∙ rest.runs;
                    holds = rest.holds;
                  }
              | inl top ↦
                  delete_root m place t n q p at (ground arith) (within.1 (ground arith)) e fuel
                    deleted
            ]
      ]
