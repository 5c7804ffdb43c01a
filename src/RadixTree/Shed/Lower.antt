-- ===== src/RadixTree/Shed/Lower.antt =====
-- radix_tree/radix-tree.c: a round of `radix_tree_shrink`, which takes the root node off a tree of any
-- height where its first slot is the only one filled.
use jeopardy.Prelude.{
  ℕ, suc, ◌+◌, ◌-◌, ◌*◌, ◌/◌, ◌≡◌, ◌≢◌, refl, inl, inr, some, arith, Bool, ◌==◌, get_elem?, false,
  true, Bool-cases, some-some, sym, ◌∙◌, ap,
}
use jeopardy.Memory.{Ptr, null, read, write, erase, read-write_self, read-write_ne, read-erase_ne}
use jeopardy.RadixTree.Entry.{node_to_entry}
use jeopardy.RadixTree.State.{Node, Root, Mem}
use jeopardy.RadixTree.Remove.{shrink}
use jeopardy.RadixTree.Shape.Place.{
  Places, pointer_of, entry_of, IsAt, Held, IsTree, node_to_entry-ne,
}
use jeopardy.RadixTree.Shape.Frame.{frame-Held, change-Held}
use jeopardy.RadixTree.Shape.Clear.{
  place_off, place_off_self, place_off-ne, place_off-some, below-place_off, filled-one,
}
use jeopardy.RadixTree.Shape.Search.{internal, back, entry_ne}

module _ (m : Mem) (root : Ptr) (place : Places) (items : ℕ → Ptr) (h : ℕ)
    (t : IsTree m root place items (suc h))
    (single : (t.held (suc h) 0 t.top t.top_is).node.count ≡ 1) (c : Ptr)
    (at : place h 0 ≡ some c) where
  abbrev node : Node
  node = (t.held (suc h) 0 t.top t.top_is).node

  abbrev below_top : Node
  below_top = (t.held h 0 c at).node

  abbrev detached : Node
  detached = record below_top { parent = null }

  abbrev emptied : Node
  emptied = record node { count = 0 }

  abbrev lower_root : Root
  lower_root = record t.node { rnode = node_to_entry c }

  abbrev pub mem_lowered : Mem
  mem_lowered = record {
    nodes = erase (write (write m.nodes c detached) t.top emptied) t.top;
    roots = write m.roots root lower_root;
  }

  abbrev pub lowered : Places
  lowered = place_off place (suc h) 0

  top_ne : t.top ≢ c
  top_ne e =
      let b : place h 0 ≡ some t.top = rw e at in
      let s = (t.apart (suc h) 0 h 0 t.top t.top_is b).0 in absurd (omega arith)

  -- The round.
  pub lower_round :
      (fuel : ℕ) (shrunk : Bool)
      → shrink (suc fuel) root shrunk m ≡ shrink fuel root true mem_lowered
  unfolding shrink
  lower_round fuel shrunk =
      let v = t.held (suc h) 0 t.top t.top_is in
      let high : (node.shift == 0) ≡ false = let s = v.at.shifted in ground arith in
      let slot : get_elem? node.slots 0 ≡ some (node_to_entry c) =
        v.at.slot 0 (omega arith) ∙ ap (λ o. some (entry_of o)) at in
      let kept : read (write m.nodes c detached) t.top ≡ some node =
        read-write_ne m.nodes c t.top detached top_ne ∙ v.loaded in
      rw
        (
          t.has_root,
          t.root_is,
          internal m root place items (suc h) t (suc h) 0 t.top t.top_is,
          back m root place items (suc h) t (suc h) 0 t.top t.top_is,
          v.loaded,
          single,
          slot,
          entry_ne m root place items (suc h) t h 0 c at,
          high,
          internal m root place items (suc h) t h 0 c at,
          back m root place items (suc h) t h 0 c at,
          (t.held h 0 c at).loaded,
          kept,
          read-write_self (write m.nodes c detached) t.top emptied,
        )
        refl

  -- The only node of its level.
  alone : (j : ℕ) (a : Ptr) → place h j ≡ some a → j ≡ 0
  alone j a e =
      let b = t.above h j a e (omega arith) in
      let z = (t.inside (suc h) (j / 64) b.0 b.1).1 refl in
      elim (Bool-cases (j == 0)) [
        | inl y ↦ ground arith
        | inr y ↦
            let v = (t.held (suc h) 0 t.top t.top_is).at in
            let ne : j ≢ 0 = ground arith in
            let first : get_elem? node.slots 0 ≡ some (node_to_entry c) =
              v.slot 0 (omega arith) ∙ ap (λ o. some (entry_of o)) at in
            let same : 0 * 64 + j ≡ j = omega arith in
            let here : get_elem? node.slots j ≡ some (node_to_entry a) =
              v.slot j (omega arith) ∙ ap some (rw (same, e) refl) in
            let next : j ≡ suc (j - 1) = omega arith in
            let there : get_elem? node.slots (suc (j - 1)) ≡ some (node_to_entry a) =
              rw (← next) here in
            let cn = node_to_entry-ne c (t.held h 0 c at).aligned in
            let n =
              filled-one node.slots (j - 1) (node_to_entry c) (node_to_entry a)
                (sym v.counted ∙ single) first (ground arith) there in
            let an = node_to_entry-ne a (t.held h j a e).aligned in absurd (ground arith)
      ]

  detached-IsAt : IsAt lowered items h 0 detached
  detached-IsAt =
      let a = (t.held h 0 c at).at in
      record {
        shifted = a.shifted;
        full = a.full;
        offset_is = a.offset_is;
        parent_is = rw (place_off_self place (suc h) 0) refl;
        counted = a.counted;
        slot = λ k lt.
            rw (below-place_off place items (suc h) 0 h (0 * 64 + k) (λ e. absurd (omega arith)))
              (a.slot k lt);
      }

  read_other : (a : Ptr) → a ≢ t.top → a ≢ c → read mem_lowered.nodes a ≡ read m.nodes a
  read_other a b d =
      rw
        (
          read-erase_ne (write (write m.nodes c detached) t.top emptied) t.top a b,
          read-write_ne (write m.nodes c detached) t.top a emptied b,
          read-write_ne m.nodes c a detached d,
        )
        refl

  lowered-Held : (i j : ℕ) (a : Ptr) → lowered i j ≡ some a → Held mem_lowered lowered items i j a
  lowered-Held i j a e =
      let s = place_off-some place (suc h) 0 i j a e in
      let within = t.inside i j a s.1 in
      let own : a ≢ t.top = λ z.
        let b : place i j ≡ some t.top = rw (← z) s.1 in
        let w = t.apart i j (suc h) 0 t.top b t.top_is in s.0 w.0 w.1 in
      elim (Bool-cases (a == c)) [
        | inl y ↦
            let z : a ≡ c = ground arith in
            let b : place i j ≡ some c = rw (← z) s.1 in
            let w = t.apart i j h 0 c b at in
            let loaded : read mem_lowered.nodes c ≡ some detached =
              read-erase_ne (write (write m.nodes c detached) t.top emptied) t.top c
                (λ u. top_ne (sym u))
              ∙ read-write_ne (write m.nodes c detached) t.top c emptied (λ u. top_ne (sym u))
              ∙ read-write_self m.nodes c detached in
            let d : Held mem_lowered lowered items h 0 c =
              change-Held m mem_lowered place lowered items items h 0 c (t.held h 0 c at) detached
                loaded detached-IsAt in
            rw (w.0, w.1, z) d
        | inr y ↦
            let ne : a ≢ c = ground arith in
            frame-Held m mem_lowered place lowered items items i j a (t.held i j a s.1)
              (read_other a own ne)
              (ap pointer_of (
                place_off-ne place (suc h) 0 (suc i) (j / 64) (λ u v.
                  let f : i ≡ h = omega arith in
                  let b : place h j ≡ some a = rw f at s.1 in
                  let g : j ≡ 0 = alone j a b in
                  let d : place i j ≡ some c = rw (f, g) at in ne (some-some a c (sym s.1 ∙ d)))))
              (λ k lt.
                below-place_off place items (suc h) 0 i (j * 64 + k)
                  (λ u. let w = within.0 in absurd (omega arith)))
      ]

  pub lowered-IsTree : IsTree mem_lowered root lowered items h
  lowered-IsTree = record {
    low = let l = t.low in omega arith;
    top = c;
    top_is = place_off-ne place (suc h) 0 h 0 (λ e. absurd (omega arith)) ∙ at;
    node = lower_root;
    has_root = read-write_self m.roots root lower_root;
    root_is = refl;
    held = lowered-Held;
    apart = λ b d i j a x y.
        t.apart b d i j a (place_off-some place (suc h) 0 b d a x).1
          (place_off-some place (suc h) 0 i j a y).1;
    above = λ i j a x l.
        let b = t.above i j a (place_off-some place (suc h) 0 i j a x).1 (omega arith) in
        (b.0, place_off-ne place (suc h) 0 (suc i) (j / 64) (λ e. absurd (omega arith)) ∙ b.1);
    inside = λ i j a x.
        let s = place_off-some place (suc h) 0 i j a x in
        let w = t.inside i j a s.1 in
        let ne : i ≢ suc h = λ e. s.0 e (w.1 e) in
        let le = w.0 in (omega arith, λ e. alone j a (rw e at s.1));
    holds = λ i ne.
        let b = t.holds i ne in
        (b.0, place_off-ne place (suc h) 0 0 (i / 64) (λ e. absurd (omega arith)) ∙ b.1);
  }
