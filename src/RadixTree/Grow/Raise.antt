-- ===== src/RadixTree/Grow/Raise.antt =====
-- radix_tree/radix-tree.c: a round of `radix_tree_extend`, which puts a new root node on top.
use jeopardy.Prelude.{
  ℕ, suc, ◌+◌, ◌*◌, ◌%◌, ◌/◌, ◌≡◌, ◌≢◌, ◌<◌, refl, inl, inr, none, some, arith, ◌==◌, leb, set,
  replicate, get_elem?-replicate, get_elem?-set_ne, false, true, Bool-cases, Option-cases,
  none-some, sym, ◌∙◌, ap, if◌then◌else◌,
}
use jeopardy.Memory.{Ptr, null, read, write, read-write_self, read-write_ne, pure}
use jeopardy.RadixTree.Entry.{node_to_entry}
use jeopardy.RadixTree.State.{Node, Mem, Calloc, node_alloc, fresh_node}
use jeopardy.RadixTree.Create.{extend_loop}
use jeopardy.RadixTree.Shape.Place.{
  Places, pointer_of, below, place_at, IsAt, Held, IsTree, beyond, node_to_entry-ne,
}
use jeopardy.RadixTree.Shape.Frame.{
  place_at_self, place_at-ne, place_at-cases, place_at-keeps, place_at-apart, below-place_at,
  frame-Held, change-Held,
}
use jeopardy.RadixTree.Shape.Search.{back}

module _ (m : Mem) (root : Ptr) (place : Places) (items : ℕ → Ptr) (h : ℕ)
    (t : IsTree m root place items h) (lower : h < 10) (new : Ptr) (aligned : new % 4 ≡ 0)
    (new_ne : new ≢ null) (unused : read m.nodes new ≡ none) where
  abbrev old_top : Node
  old_top = (t.held h 0 t.top t.top_is).node

  abbrev above_top : Node
  above_top = fresh_node null (6 * suc h) 0 1 0

  abbrev lowered : Node
  lowered = record old_top { parent = new }

  abbrev topped : Node
  topped = record above_top { slots = set above_top.slots 0 (node_to_entry t.top) }

  abbrev pub mem_raised : Mem
  mem_raised = record {
    nodes = write (write (write m.nodes new above_top) t.top lowered) new topped;
    roots = write m.roots root (record t.node { rnode = node_to_entry new });
  }

  placed_ne : (i j : ℕ) (p : Ptr) → place i j ≡ some p → p ≢ new
  placed_ne i j p a e =
      let l = (t.held i j p a).loaded in
      let u : read m.nodes p ≡ none = rw e unused in
      none-some (read m.nodes p) (t.held i j p a).node u l

  top_ne : t.top ≢ new
  top_ne = placed_ne h 0 t.top t.top_is

  -- The round that the allocation at `new` makes.
  pub raise_round :
      (calloc : Calloc) (fuel maxshift : ℕ)
      → calloc.node m ≡ new
      → extend_loop calloc (suc fuel) root (node_to_entry t.top) (6 * suc h) maxshift m
        ≡ (if leb (6 * suc h + 6) maxshift
              then extend_loop calloc fuel root (node_to_entry new) (6 * suc h + 6) maxshift
              else pure true)
            mem_raised
  unfolding extend_loop node_alloc
  raise_round calloc fuel maxshift e =
      let room : (new == null) ≡ false = ground arith in
      let loaded : read (write m.nodes new above_top) t.top ≡ some old_top =
        read-write_ne m.nodes new t.top above_top top_ne ∙ (t.held h 0 t.top t.top_is).loaded in
      let own : read (write (write m.nodes new above_top) t.top lowered) new ≡ some above_top =
        read-write_ne (write m.nodes new above_top) t.top new lowered (λ z. top_ne (sym z))
        ∙ read-write_self m.nodes new above_top in
      rw (e, room, room, back m root place items h t h 0 t.top t.top_is, loaded, own, t.has_root)
        refl

  abbrev raised : Places
  raised = place_at place (suc h) 0 new

  new-IsAt : IsAt raised items (suc h) 0 topped
  new-IsAt = record {
    shifted = refl;
    full = refl;
    offset_is = refl;
    parent_is =
        rw
          (
            place_at-ne place (suc h) 0 new (suc (suc h)) 0 (λ e. absurd (omega arith)),
            beyond m root place items h t (suc (suc h)) 0 (omega arith),
          )
          refl;
    counted = rw (node_to_entry-ne t.top (t.held h 0 t.top t.top_is).aligned) refl;
    slot = λ k lt. elim (Bool-cases (k == 0)) [
      | inl y ↦
          let e : k ≡ 0 = ground arith in
          let b : below raised items (suc h) 0 ≡ node_to_entry t.top =
            rw (place_at-ne place (suc h) 0 new h 0 (λ e. absurd (omega arith)), t.top_is) refl in
          rw (e, b) refl
      | inr y ↦
          let ne : k ≢ 0 = ground arith in
          let same : 0 * 64 + k ≡ k = omega arith in
          rw
            (
              same,
              place_at-ne place (suc h) 0 new h k (λ e. absurd (omega arith)),
              off_zero k ne,
              get_elem?-set_ne (replicate 64 null) 0 k (node_to_entry t.top) (λ e. ne (sym e)),
            )
            (get_elem?-replicate 64 k null lt)
    ];
  }
    where
      off_zero : (k : ℕ) → k ≢ 0 → place h k ≡ none
      off_zero k ne = elim (Option-cases (place h k)) [
        | inl e ↦ e
        | inr a ↦ absurd (ne ((t.inside h k a.0 a.1).1 refl))
      ]

  top-IsAt : IsAt raised items h 0 lowered
  top-IsAt =
      let a = (t.held h 0 t.top t.top_is).at in
      record {
        shifted = a.shifted;
        full = a.full;
        offset_is = a.offset_is;
        parent_is = rw (place_at_self place (suc h) 0 new) refl;
        counted = a.counted;
        slot = λ k lt.
            rw (below-place_at place items (suc h) 0 new h (0 * 64 + k) (λ e. absurd (omega arith)))
              (a.slot k lt);
      }

  read_other : (p : Ptr) → p ≢ new → p ≢ t.top → read mem_raised.nodes p ≡ read m.nodes p
  read_other p a b =
      rw
        (
          read-write_ne (write (write m.nodes new above_top) t.top lowered) new p topped a,
          read-write_ne (write m.nodes new above_top) t.top p lowered b,
          read-write_ne m.nodes new p above_top a,
        )
        refl

  old-Held : (i j : ℕ) (p : Ptr) → place i j ≡ some p → Held mem_raised raised items i j p
  old-Held i j p a =
      let within = t.inside i j p a in
      elim (Bool-cases (p == t.top)) [
        | inl y ↦
            let e : p ≡ t.top = ground arith in
            let c : place i j ≡ some t.top = rw (← e) a in
            let s = t.apart i j h 0 t.top c t.top_is in
            let loaded : read mem_raised.nodes t.top ≡ some lowered =
              read-write_ne (write (write m.nodes new above_top) t.top lowered) new t.top topped
                top_ne
              ∙ read-write_self (write m.nodes new above_top) t.top lowered in
            let d : Held mem_raised raised items h 0 t.top =
              change-Held m mem_raised place raised items items h 0 t.top
                (t.held h 0 t.top t.top_is) lowered loaded top-IsAt in
            rw (s.0, s.1, e) d
        | inr y ↦
            let ne : p ≢ t.top = ground arith in
            let apart : suc i ≡ suc h → j / 64 ≢ 0 = λ e z.
              let same : i ≡ h = omega arith in
              let zero_at = within.1 same in
              let b : place i j ≡ some t.top = rw (same, zero_at) t.top_is in ne (cc) in
            frame-Held m mem_raised place raised items items i j p (t.held i j p a)
              (read_other p (placed_ne i j p a) ne)
              (ap pointer_of (place_at-ne place (suc h) 0 new (suc i) (j / 64) apart))
              (λ k lt.
                below-place_at place items (suc h) 0 new i (j * 64 + k)
                  (λ e. let w = within.0 in absurd (omega arith)))
      ]

  pub raised-IsTree : IsTree mem_raised root raised items (suc h)
  raised-IsTree =
      let open_at = beyond m root place items h t (suc h) 0 (omega arith) in
      record {
        low = omega arith;
        top = new;
        top_is = place_at_self place (suc h) 0 new;
        node = record t.node { rnode = node_to_entry new };
        has_root = read-write_self m.roots root (record t.node { rnode = node_to_entry new });
        root_is = refl;
        held = λ i j p a. elim (place_at-cases place (suc h) 0 new i j p a) [
          | inl (x, y, z) ↦
              let b : Held mem_raised raised items (suc h) 0 new = record {
                node = topped;
                loaded =
                    read-write_self (write (write m.nodes new above_top) t.top lowered) new topped;
                aligned = aligned;
                ptr_ne = new_ne;
                at = new-IsAt;
              } in
              rw (x, y, z) b
          | inr (x, b) ↦ old-Held i j p b
        ];
        apart = λ b c i j p x y. place_at-apart place (suc h) 0 new placed_ne t.apart b c i j p x y;
        above = λ i j p a lt. elim (place_at-cases place (suc h) 0 new i j p a) [
          | inl (x, y, z) ↦ absurd (omega arith)
          | inr (x, b) ↦ elim (Bool-cases (i == h)) [
            | inl s ↦
                let e : i ≡ h = ground arith in
                let z = (t.inside i j p b).1 e in
                (new, rw (e, z) (place_at_self place (suc h) 0 new))
            | inr s ↦
                let w = (t.inside i j p b).0 in
                let c = t.above i j p b (let ne : i ≢ h = ground arith in omega arith) in
                (c.0, place_at-keeps place (suc h) 0 new (suc i) (j / 64) c.0 open_at c.1)
          ]
        ];
        inside = λ i j p a. elim (place_at-cases place (suc h) 0 new i j p a) [
          | inl (x, y, z) ↦ (omega arith, λ e. y)
          | inr (x, b) ↦ let w = (t.inside i j p b).0 in (omega arith, λ e. absurd (omega arith))
        ];
        holds = λ i ne.
            let a = t.holds i ne in
            (a.0, place_at-keeps place (suc h) 0 new 0 (i / 64) a.0 open_at a.1);
      }
