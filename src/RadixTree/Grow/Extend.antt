-- ===== src/RadixTree/Grow/Extend.antt =====
-- radix_tree/radix-tree.c: `radix_tree_extend` of a tree of any height.
use jeopardy.Prelude.{
  ℕ, zero, suc, ◌+◌, ◌*◌, ◌/◌, ◌^◌, ◌≡◌, ◌≢◌, ◌≤◌, ◌<◌, refl, ◌⊎◌, inl, inr, some, arith, ◌==◌, leb,
  Bool, false, true, Bool-cases, sym, ◌∙◌, ap, if◌then◌else◌, ℤ, pos, some-some,
}
use jeopardy.Memory.{Ptr, null, Run, ok}
use jeopardy.RadixTree.Entry.{node_to_entry, shift_maxindex}
use jeopardy.RadixTree.State.{Mem, Calloc, node_alloc}
use jeopardy.RadixTree.Create.{grow_shift, extend_loop, extend, enomem}
use jeopardy.RadixTree.Shift.{grow_shift-ends, not_highest}
use jeopardy.RadixTree.Shape.Digits.{up, up-Covers}
use jeopardy.RadixTree.Shape.Place.{Places, place_at, IsTree, IsCalloc}
use jeopardy.RadixTree.Shape.Frame.{place_at_self}
use jeopardy.RadixTree.Shape.Search.{entry_ne}
use jeopardy.RadixTree.Grow.Raise.{mem_raised, raise_round, raised-IsTree}

-- What the loop ends with: the tree with the height `H`, or a lower one where `calloc` fails.
record Extended (calloc : Calloc) (root : Ptr) (items : ℕ → Ptr) (H : ℕ) (run : Run Mem Bool)
    : Type 0 where
  after : Mem
  place : Places
  height : ℕ
  result : Bool
  runs : run ≡ ok result after
  tree : IsTree after root place items height
  arrives : ((result ≡ false) × (calloc.node after ≡ null)) ⊎ ((result ≡ true) × (height ≡ H))

module _ (calloc : Calloc) (allocates : IsCalloc calloc) (root : Ptr) (items : ℕ → Ptr) where
  no_room :
      (m : Mem) (place : Places) (h H : ℕ) (t : IsTree m root place items h) (fuel maxshift : ℕ)
      → calloc.node m ≡ null
      → Extended calloc root items H
          (extend_loop calloc (suc fuel) root (node_to_entry t.top) (6 * suc h) maxshift m)
  unfolding extend_loop node_alloc
  no_room m place h H t fuel maxshift e = record {
    after = m;
    place = place;
    height = h;
    result = false;
    runs = rw e refl;
    tree = t;
    arrives = inl (refl, e);
  }

  extend_loop_ends :
      (fuel h H : ℕ) (m : Mem) (place : Places) (t : IsTree m root place items h)
      → h < H
      → H ≤ 10
      → H ≤ h + fuel
      → (entry : Ptr) (shift maxshift : ℕ) → entry ≡ node_to_entry t.top
      → shift ≡ 6 * suc h
      → maxshift ≡ 6 * H
      → Extended calloc root items H (extend_loop calloc fuel root entry shift maxshift m)
  extend_loop_ends zero h H m place t lt le enough entry shift maxshift x y z = absurd (omega arith)
  extend_loop_ends (suc fuel) h H m place t lt le enough entry shift maxshift x y z =
      rw (x, y)
        (elim (Bool-cases (calloc.node m == null)) [
          | inl y ↦ no_room m place h H t fuel maxshift (ground arith)
          | inr y ↦ elim (allocates.fresh m) [
            | inl e ↦ no_room m place h H t fuel maxshift e
            | inr (aligned, unused) ↦
                let new = calloc.node m in
                let new_ne : new ≢ null = ground arith in
                let low : h < 10 = omega arith in
                let after = mem_raised m root place items h t low new aligned new_ne unused in
                let tree = raised-IsTree m root place items h t low new aligned new_ne unused in
                let round =
                  raise_round m root place items h t low new aligned new_ne unused calloc fuel
                    maxshift refl in
                elim (Bool-cases (leb (6 * suc h + 6) maxshift)) [
                  | inr last ↦ record {
                    after = after;
                    place = place_at place (suc h) 0 new;
                    height = suc h;
                    result = true;
                    runs = rw (round, last) refl;
                    tree = tree;
                    arrives =
                        inr (refl, let x : maxshift < 6 * suc h + 6 = ground arith in omega arith);
                  }
                  | inl more ↦
                      let x : 6 * suc h + 6 ≤ maxshift = ground arith in
                      let same : tree.top ≡ new =
                        some-some tree.top new
                          (sym tree.top_is ∙ place_at_self place (suc h) 0 new) in
                      let rest =
                        extend_loop_ends fuel (suc h) H after (place_at place (suc h) 0 new) tree
                          (omega arith) le (omega arith) (node_to_entry new) (6 * suc h + 6)
                          maxshift (ap node_to_entry (sym same)) (omega arith) z in
                      record {
                        after = rest.after;
                        place = rest.place;
                        height = rest.height;
                        result = rest.result;
                        runs = rw (round, more) rest.runs;
                        tree = rest.tree;
                        arrives = rest.arrives;
                      }
                ]
          ]
        ])

  -- What `radix_tree_extend` returns for an index that the height does not cover: the shift above a
  -- height that does, or -ENOMEM where `calloc` fails.
  pub record Raised (index : ℕ) (run : Run Mem ℤ) : Type 0 where
    pub after : Mem
    pub place : Places
    pub height : ℕ
    pub result : ℤ
    pub runs : run ≡ ok result after
    pub tree : IsTree after root place items height
    pub arrives :
        ((result ≡ enomem) × (calloc.node after ≡ null))
        ⊎ ((result ≡ pos (6 * height + 6)) × (up (suc height) index ≡ 0))

  extend_runs :
      (fuel h index shift top : ℕ) (m : Mem) (place : Places) (t : IsTree m root place items h)
      (grown : Bool) (after : Mem)
      → grow_shift fuel index shift ≡ some top
      → extend_loop calloc fuel root (node_to_entry t.top) shift top m ≡ ok grown after
      → extend calloc fuel root index shift m ≡ ok (if grown then pos (top + 6) else enomem) after
  unfolding extend
  extend_runs fuel h index shift top m place t grown after e run =
      rw (e, t.has_root, t.root_is, entry_ne m root place items h t h 0 t.top t.top_is, run) refl

  pub extend_ends :
      (fuel h index : ℕ) (m : Mem) (place : Places) (t : IsTree m root place items h)
      → index < 2 ^ 64
      → shift_maxindex (6 * h) < index
      → 10 < fuel
      → Raised index (extend calloc fuel root index (6 * h + 6) m)
  extend_ends fuel h index m place t lt past enough =
      let l = t.low in
      let ne = not_highest index (6 * h) lt past in
      let g = grow_shift-ends fuel index (6 * h + 6) lt (omega arith) (omega arith) (omega arith) in
      let step = g.step in
      let above = g.above in
      let bound = g.bound in
      let H = g.top / 6 in
      let top : g.top ≡ 6 * H = omega arith in
      let covered : up (suc H) index ≡ 0 =
        (up-Covers H index (omega arith) lt).0 (rw (← top) g.covers) in
      let e =
        extend_loop_ends fuel h H m place t (omega arith) (omega arith) (omega arith)
          (node_to_entry t.top) (6 * h + 6) g.top refl (omega arith) top in
      record {
        after = e.after;
        place = e.place;
        height = e.height;
        result = if e.result then pos (g.top + 6) else enomem;
        runs =
            extend_runs fuel h index (6 * h + 6) g.top m place t e.result e.after g.result e.runs;
        tree = e.tree;
        arrives = elim e.arrives [
          | inl (x, y) ↦ inl (rw x refl, y)
          | inr (x, y) ↦ inr (rw (x, y, ← top) refl, rw y covered)
        ];
      }
