-- ===== src/RadixTree/Grow/Branch.antt =====
-- radix_tree/radix-tree.c: a round of `__radix_tree_create` that puts a new node below a node of the
-- tree, in the slot of the index's digit.
use jeopardy.Prelude.{
  ℕ, suc, ◌+◌, ◌*◌, ◌%◌, ◌/◌, ◌^◌, ◌≡◌, ◌≢◌, ◌≤◌, ◌<◌, refl, inl, inr, none, some, arith, ◌==◌,
  get_elem?, set, get_elem?-replicate, Bool-cases, none-some, sym, ◌∙◌, ap,
}
use jeopardy.Memory.{Ptr, null, read, write, read-write_self, read-write_ne, ok}
use jeopardy.RadixTree.Entry.{node_to_entry}
use jeopardy.RadixTree.State.{Node, Mem, node_slot, put_slot, fresh_node}
use jeopardy.RadixTree.Shape.Place.{
  Places, pointer_of, below, below-empty, place_at, IsAt, Held, IsTree, node_to_entry-ne,
}
use jeopardy.RadixTree.Shape.Frame.{
  place_at_self, place_at-ne, place_at-cases, place_at-keeps, place_at-apart, below-place_at,
  fill-IsAt, frame-Held, change-Held,
}

module _ (m : Mem) (root : Ptr) (place : Places) (items : ℕ → Ptr) (h : ℕ)
    (t : IsTree m root place items h) (n q : ℕ) (pp : Ptr) (at : place (suc n) (q / 64) ≡ some pp)
    (open_at : place n q ≡ none) (new : Ptr) (aligned : new % 4 ≡ 0) (new_ne : new ≢ null)
    (unused : read m.nodes new ≡ none) where
  below_top : suc n ≤ h
  below_top = (t.inside (suc n) (q / 64) pp at).0

  low : n ≤ h
  low = let l = below_top in omega arith

  abbrev parent : Node
  parent = (t.held (suc n) (q / 64) pp at).node

  abbrev child : Node
  child = fresh_node pp (6 * n) (q % 64) 0 0

  abbrev linked : Node
  linked = record parent { slots = set parent.slots (q % 64) (node_to_entry new) }

  abbrev counted : Node
  counted = record linked { count = (parent.count + 1) % 2 ^ 32 }

  abbrev pub branched : Places
  branched = place_at place n q new

  abbrev pub mem_branched : Mem
  mem_branched = record m { nodes = write (write (write m.nodes new child) pp linked) pp counted }

  placed_ne : (i j : ℕ) (p : Ptr) → place i j ≡ some p → p ≢ new
  placed_ne i j p a e =
      let l = (t.held i j p a).loaded in let u : read m.nodes p ≡ none = rw e unused in absurd (cc)

  pp_ne : pp ≢ new
  pp_ne = placed_ne (suc n) (q / 64) pp at

  read_new : read mem_branched.nodes new ≡ some child
  read_new =
      rw
        (
          read-write_ne (write (write m.nodes new child) pp linked) pp new counted
              (λ e. pp_ne (sym e)),
          read-write_ne (write m.nodes new child) pp new linked (λ e. pp_ne (sym e)),
        )
        (read-write_self m.nodes new child)

  read_other : (p : Ptr) → p ≢ new → p ≢ pp → read mem_branched.nodes p ≡ read m.nodes p
  read_other p a b =
      rw
        (
          read-write_ne (write (write m.nodes new child) pp linked) pp p counted b,
          read-write_ne (write m.nodes new child) pp p linked b,
          read-write_ne m.nodes new p child a,
        )
        refl

  free : below place items (suc n) (q / 64 * 64 + q % 64) ≡ null
  free = let s : q / 64 * 64 + q % 64 ≡ q = omega arith in rw (s, open_at) refl

  slot_free : get_elem? parent.slots (q % 64) ≡ some null
  slot_free = rw (← free) ((t.held (suc n) (q / 64) pp at).at.slot (q % 64) (omega arith))

  -- The writes of the round after the allocation: the slot, and then the count.
  pub link-slot :
      put_slot
        (node_slot pp (q % 64))
        (node_to_entry new)
        (record m { nodes = write m.nodes new child })
      ≡ ok tt (record m { nodes = write (write m.nodes new child) pp linked })
  unfolding put_slot
  link-slot =
      let there : read (write m.nodes new child) pp ≡ some parent =
        read-write_ne m.nodes new pp child pp_ne ∙ (t.held (suc n) (q / 64) pp at).loaded in
      rw (there, slot_free) refl

  pub link-read : read (write (write m.nodes new child) pp linked) pp ≡ some linked
  link-read = read-write_self (write m.nodes new child) pp linked

  new-IsAt : IsAt branched items n q child
  new-IsAt = record {
    shifted = refl;
    full = refl;
    offset_is = refl;
    parent_is =
        rw (place_at-ne place n q new (suc n) (q / 64) (λ e. absurd (omega arith)), at) refl;
    counted = refl;
    slot = λ k lt.
        rw
          (
            below-place_at place items n q new n (q * 64 + k) (λ e. absurd (omega arith)),
            below-empty m root place items h t n q k open_at low lt,
          )
          (get_elem?-replicate 64 k null lt);
  }

  parent-IsAt : IsAt branched items (suc n) (q / 64) counted
  parent-IsAt =
      fill-IsAt place branched items items (suc n) (q / 64) parent
        (t.held (suc n) (q / 64) pp at).at
        (ap pointer_of
          (place_at-ne place n q new (suc (suc n)) (q / 64 / 64) (λ e. absurd (omega arith))))
        (q % 64) (node_to_entry new) parent.nr_values (omega arith) (node_to_entry-ne new aligned)
        free
        (let s : q / 64 * 64 + q % 64 ≡ q = omega arith in rw (s, place_at_self place n q new) refl)
        (λ k lt ne.
          below-place_at place items n q new (suc n) (q / 64 * 64 + k) (λ e z. ne (omega arith)))

  other-Held :
      (i j : ℕ) (p : Ptr) → place i j ≡ some p → p ≢ pp → Held mem_branched branched items i j p
  other-Held i j p a ne =
      let apart : i ≡ suc n → j ≢ q / 64 =
        λ e z. let b : place i j ≡ some pp = rw (e, z) at in ne (cc) in
      let parented : suc i ≡ n → j / 64 ≢ q = λ e z.
        let l = below_top in
        let lt : i < h = omega arith in
        let b = t.above i j p a lt in
        let c : place n q ≡ some b.0 = rw (← e, ← z) b.1 in none-some (place n q) b.0 open_at c in
      frame-Held m mem_branched place branched items items i j p (t.held i j p a)
        (read_other p (placed_ne i j p a) ne)
        (ap pointer_of (place_at-ne place n q new (suc i) (j / 64) parented))
        (λ k lt. below-place_at place items n q new i (j * 64 + k) (λ e z. apart e (omega arith)))

  branched-Held :
      (i j : ℕ) (p : Ptr) → branched i j ≡ some p → Held mem_branched branched items i j p
  branched-Held i j p a = elim (place_at-cases place n q new i j p a) [
    | inl (x, y, z) ↦
        let b : Held mem_branched branched items n q new = record {
          node = child;
          loaded = read_new;
          aligned = aligned;
          ptr_ne = new_ne;
          at = new-IsAt;
        } in
        rw (x, y, z) b
    | inr (x, b) ↦ elim (Bool-cases (p == pp)) [
      | inl y ↦
          let e : p ≡ pp = ground arith in
          let c : place i j ≡ some pp = rw (← e) b in
          let s = t.apart i j (suc n) (q / 64) pp c at in
          let d : Held mem_branched branched items (suc n) (q / 64) pp =
            change-Held m mem_branched place branched items items (suc n) (q / 64) pp
              (t.held (suc n) (q / 64) pp at) counted
              (read-write_self (write (write m.nodes new child) pp linked) pp counted)
              parent-IsAt in
          rw (s.0, s.1, e) d
      | inr y ↦ other-Held i j p b (ground arith)
    ]
  ]

  pub branched-IsTree : IsTree mem_branched root branched items h
  branched-IsTree = record {
    low = t.low;
    top = t.top;
    top_is = place_at-keeps place n q new h 0 t.top open_at t.top_is;
    node = t.node;
    has_root = t.has_root;
    root_is = t.root_is;
    held = branched-Held;
    apart = λ a b i j p x y. place_at-apart place n q new placed_ne t.apart a b i j p x y;
    above = λ i j p a lt. elim (place_at-cases place n q new i j p a) [
      | inl (x, y, z) ↦
          (pp, rw (x, y) (place_at-keeps place n q new (suc n) (q / 64) pp open_at at))
      | inr (x, b) ↦
          let c = t.above i j p b lt in
          (c.0, place_at-keeps place n q new (suc i) (j / 64) c.0 open_at c.1)
    ];
    inside = λ i j p a. elim (place_at-cases place n q new i j p a) [
      | inl (x, y, z) ↦
          (let l = below_top in omega arith, λ e. let l = below_top in absurd (omega arith))
      | inr (x, b) ↦ t.inside i j p b
    ];
    holds = λ i ne.
        let a = t.holds i ne in (a.0, place_at-keeps place n q new 0 (i / 64) a.0 open_at a.1);
  }
