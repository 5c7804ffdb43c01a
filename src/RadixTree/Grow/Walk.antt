-- ===== src/RadixTree/Grow/Walk.antt =====
-- radix_tree/radix-tree.c: the walk of `__radix_tree_create` down a tree of any height.
use jeopardy.Prelude.{
  ℕ, zero, suc, ◌+◌, ◌-◌, ◌*◌, ◌%◌, ◌/◌, ◌^◌, ◌≡◌, ◌≢◌, ◌≤◌, ◌<◌, refl, ◌⊎◌, inl, inr, Option, none,
  some, arith, ◌==◌, false, Bool-cases, Option-cases, none-some, ◌∙◌,
}
use jeopardy.Memory.{Ptr, null, read, Run, ok}
use jeopardy.RadixTree.Entry.{entry_to_node}
use jeopardy.RadixTree.State.{Mem, Slot, node_slot, Calloc, node_alloc}
use jeopardy.RadixTree.Create.{create_loop, create_from}
use jeopardy.RadixTree.Shape.Digits.{up, up-suc}
use jeopardy.RadixTree.Shape.Place.{Places, below, IsTree, IsCalloc, place_at}
use jeopardy.RadixTree.Shape.Search.{back, entry_ne, tree-descend, off_path, entry_to_node-aligned}
use jeopardy.RadixTree.Shape.Frame.{place_at_self}
use jeopardy.RadixTree.Grow.Branch.{mem_branched, branched-IsTree, link-slot, link-read}

-- What the walk ends with: the node and the slot of the index, or nothing when `calloc` fails. The
-- items are what they were, and where the index holds one the memory is too.
pub record Walked (calloc : Calloc) (m : Mem) (root : Ptr) (items : ℕ → Ptr) (h index : ℕ)
    (run : Run Mem (Option (Ptr × Slot))) : Type 0 where
  pub after : Mem
  pub place : Places
  pub result : Option (Ptr × Slot)
  pub runs : run ≡ ok result after
  pub tree : IsTree after root place items h
  pub arrives :
      ((result ≡ none) × (calloc.node after ≡ null))
      ⊎ ((p : Ptr) × (result ≡ some (p, node_slot p (up 0 index % 64)))
          × (place 0 (up 1 index) ≡ some p))
  pub kept : items index ≢ null → (after ≡ m) × (result ≢ none)

module _ (calloc : Calloc) (allocates : IsCalloc calloc) (root : Ptr) (items : ℕ → Ptr)
    (h index : ℕ) where
  -- The walk from the slot of a node of level `n`.
  abbrev pub walk : Places → ℕ → ℕ → Ptr → Mem → Run Mem (Option (Ptr × Slot))
  walk place fuel n p =
      create_loop calloc fuel index (6 * n) p (below place items n (up n index)) (up n index % 64)
        (node_slot p (up n index % 64))

  lower : (n : ℕ) → n < 10 → (6 * suc n + 2 ^ 32 - 6) % 2 ^ 32 ≡ 6 * n
  lower n lt = omega arith

  positive : (n : ℕ) → (6 * suc n == 0) ≡ false
  positive n = ground arith

  -- A round of the walk where the node below is there.
  walk-down :
      (m : Mem) (place : Places) (t : IsTree m root place items h) (fuel n : ℕ) (p c : Ptr)
      → suc n ≤ h
      → place n (up (suc n) index) ≡ some c
      → walk place (suc fuel) (suc n) p m ≡ walk place fuel n c m
  unfolding create_loop
  walk-down m place t fuel n p c le at =
      let l = t.low in
      let q = up (suc n) index in
      rw
        (
          positive n,
          at,
          entry_ne m root place items h t n q c at,
          entry_ne m root place items h t n q c at,
          back m root place items h t n q c at,
          tree-descend m root place items h t n index c at,
          lower n (omega arith),
        )
        refl

  -- A round where it is not there, and there is no room for it.
  walk-no_room :
      (m : Mem) (place : Places) (fuel n : ℕ) (p : Ptr)
      → place n (up (suc n) index) ≡ none
      → calloc.node m ≡ null
      → walk place (suc fuel) (suc n) p m ≡ ok none m
  unfolding create_loop node_alloc
  walk-no_room m place fuel n p e no_room = rw (positive n, e, no_room) refl

  -- A round where it is not there, and is added.
  module _ (m : Mem) (place : Places) (t : IsTree m root place items h) (fuel n : ℕ) (p : Ptr)
      (at : place (suc n) (up (suc n) index / 64) ≡ some p) (e : place n (up (suc n) index) ≡ none)
      (aligned : calloc.node m % 4 ≡ 0) (room : calloc.node m ≢ null)
      (unused : read m.nodes (calloc.node m) ≡ none) where
    abbrev q : ℕ
    q = up (suc n) index

    abbrev new : Ptr
    new = calloc.node m

    abbrev pub mem_added : Mem
    mem_added = mem_branched m root place items h t n q p at e new aligned room unused

    added-IsTree : IsTree mem_added root (place_at place n q new) items h
    added-IsTree = branched-IsTree m root place items h t n q p at e new aligned room unused

    added-at : place_at place n q new n q ≡ some new
    added-at = place_at_self place n q new

    walk-add :
        walk place (suc fuel) (suc n) p m ≡ walk (place_at place n q new) fuel n new mem_added
    unfolding create_loop node_alloc
    walk-add =
        let present : (p == null) ≡ false =
          let ne = (t.held (suc n) (q / 64) p at).ptr_ne in ground arith in
        let room' : (calloc.node m == null) ≡ false = ground arith in
        let bound = (t.inside (suc n) (q / 64) p at).0 in
        let l = t.low in
        let same : entry_to_node new ≡ new = entry_to_node-aligned new aligned in
        rw
          (
            positive n,
            e,
            lower n (omega arith),
            room',
            room',
            link-slot m root place items h t n q p at e new aligned room unused,
            present,
            link-read m root place items h t n q p at e new aligned room unused,
            room',
            same,
            tree-descend mem_added root (place_at place n q new) items h added-IsTree n index new
                added-at,
          )
          refl

  walk_ends :
      (fuel n : ℕ) (m : Mem) (place : Places) (t : IsTree m root place items h) (p : Ptr)
      → n < fuel
      → n ≤ h
      → place n (up (suc n) index) ≡ some p
      → Walked calloc m root items h index (walk place fuel n p m)
  unfolding create_loop node_alloc
  walk_ends zero n m place t p lt le at = absurd (omega arith)
  walk_ends (suc fuel) zero m place t p lt le at = record {
    after = m;
    place = place;
    result = some (p, node_slot p (up 0 index % 64));
    runs = refl;
    tree = t;
    arrives = inr (p, refl, at);
    kept = λ ne. (refl, λ e. none-some _ (p, node_slot p (up 0 index % 64)) e refl);
  }
  walk_ends (suc fuel) (suc n) m place t p lt le at =
      let q = up (suc n) index in
      elim (Option-cases (place n q)) [
        | inr c ↦
            rw (walk-down m place t fuel n p c.0 le c.1)
              (walk_ends fuel n m place t c.0 (omega arith) (omega arith) c.1)
        | inl e ↦ elim (allocates.fresh m) [
          | inl no_room ↦ record {
            after = m;
            place = place;
            result = none;
            runs = walk-no_room m place fuel n p e no_room;
            tree = t;
            arrives = inl (refl, no_room);
            kept = λ ne. absurd (ne (off_path m root place items h t n index (omega arith) e));
          }
          | inr (aligned, unused) ↦ elim (Bool-cases (calloc.node m == null)) [
            | inl y ↦ record {
              after = m;
              place = place;
              result = none;
              runs = walk-no_room m place fuel n p e (ground arith);
              tree = t;
              arrives = inl (refl, ground arith);
              kept = λ ne. absurd (ne (off_path m root place items h t n index (omega arith) e));
            }
            | inr y ↦
                let at' : place (suc n) (q / 64) ≡ some p = rw (← up-suc (suc n) index) at in
                let room : calloc.node m ≢ null = ground arith in
                let rest =
                  walk_ends fuel n (mem_added m place t fuel n p at' e aligned room unused)
                    (place_at place n q (calloc.node m))
                    (added-IsTree m place t fuel n p at' e aligned room unused) (calloc.node m)
                    (omega arith) (omega arith)
                    (added-at m place t fuel n p at' e aligned room unused) in
                record {
                  after = rest.after;
                  place = rest.place;
                  result = rest.result;
                  runs = walk-add m place t fuel n p at' e aligned room unused ∙ rest.runs;
                  tree = rest.tree;
                  arrives = rest.arrives;
                  kept =
                      λ ne. absurd (ne (off_path m root place items h t n index (omega arith) e));
                }
          ]
        ]
      ]

  -- The walk from the slot of the root, for an index that the height covers.
  create_from-walks :
      (fuel : ℕ) (m : Mem) (place : Places) (t : IsTree m root place items h)
      → up (suc h) index ≡ 0
      → create_from calloc (suc fuel) root index (6 * h + 6) m ≡ walk place fuel h t.top m
  unfolding create_from create_loop
  create_from-walks fuel m place t covered =
      let l = t.low in
      let high : (6 * h + 6 == 0) ≡ false = ground arith in
      let less : (6 * h + 6 + 2 ^ 32 - 6) % 2 ^ 32 ≡ 6 * h = omega arith in
      let at : place h (up (suc h) index) ≡ some t.top = rw covered t.top_is in
      rw
        (
          t.has_root,
          high,
          t.root_is,
          entry_ne m root place items h t h 0 t.top t.top_is,
          entry_ne m root place items h t h 0 t.top t.top_is,
          back m root place items h t h 0 t.top t.top_is,
          tree-descend m root place items h t h index t.top at,
          less,
        )
        refl

  pub create_from-ends :
      (fuel : ℕ) (m : Mem) (place : Places) (t : IsTree m root place items h)
      → h < fuel
      → up (suc h) index ≡ 0
      → Walked calloc m root items h index (create_from calloc (suc fuel) root index (6 * h + 6) m)
  create_from-ends fuel m place t enough covered =
      let at : place h (up (suc h) index) ≡ some t.top = rw covered t.top_is in
      rw (create_from-walks fuel m place t covered)
        (walk_ends fuel h m place t t.top enough (omega arith) at)
