-- ===== src/RadixTree/Grow/Insert.antt =====
-- radix_tree/radix-tree.c: `__radix_tree_create` and `radix_tree_insert` in a tree of any height.
use jeopardy.Prelude.{
  ℕ, suc, ◌+◌, ◌*◌, ◌%◌, ◌^◌, ◌≡◌, ◌≢◌, ◌≤◌, ◌<◌, refl, ◌⊎◌, inl, inr, Option, none, arith, ltb,
  false, true, Bool-cases, pos, negsuc,
}
use jeopardy.Memory.{Ptr, null, Run, ok, pure, ◌>>=◌}
use jeopardy.RadixTree.Entry.{shift_maxindex}
use jeopardy.RadixTree.State.{Mem, Slot, Calloc}
use jeopardy.RadixTree.Create.{extend, create_from, tree_create, tree_insert, enomem, eexist}
use jeopardy.RadixTree.Shape.Digits.{up-Covers}
use jeopardy.RadixTree.Shape.Place.{Places, item_at, IsTree, IsCalloc, Holds}
use jeopardy.RadixTree.Shape.Search.{tree-root_state, uncovered}
use jeopardy.RadixTree.Grow.Walk.{Walked, create_from-ends}
use jeopardy.RadixTree.Grow.Store.{
  insert_entries-taken, insert_entries-free, mem_stored, stored-IsTree,
}
use jeopardy.RadixTree.Grow.Extend.{extend_ends}

module _ (calloc : Calloc) (allocates : IsCalloc calloc) (root : Ptr) (items : ℕ → Ptr) where
  record Created (m : Mem) (index : ℕ) (run : Run Mem (Option (Ptr × Slot))) : Type 0 where
    height : ℕ
    walked : Walked calloc m root items height index run

  module _ (m : Mem) (place : Places) (h fuel index : ℕ) (t : IsTree m root place items h)
      (lt : index < 2 ^ 64) (enough : 10 < fuel) where
    create_within :
        index ≤ shift_maxindex (6 * h)
        → Created m index (tree_create calloc (suc fuel) root index m)
    unfolding tree_create
    create_within le =
        let l = t.low in
        let within : ltb (shift_maxindex (6 * h)) index ≡ false = ground arith in
        let small : (6 * h + 6) % 2 ^ 32 ≡ 6 * h + 6 = omega arith in
        record {
          height = h;
          walked =
              rw (tree-root_state m root place items h t, within, small)
                (create_from-ends calloc allocates root items h index fuel m place t (omega arith)
                  ((up-Covers h index t.low lt).0 le));
        }

    extended :
        shift_maxindex (6 * h) < index
        → tree_create calloc (suc fuel) root index m
          ≡ (do
            error ← extend calloc (suc fuel) root index (6 * h + 6)
            elim error [
              | pos s ↦ create_from calloc (suc fuel) root index s
              | negsuc e ↦ pure none
            ])
              m
    unfolding tree_create
    extended past =
        let l = t.low in
        let beyond : ltb (shift_maxindex (6 * h)) index ≡ true = ground arith in
        let small : (6 * h + 6) % 2 ^ 32 ≡ 6 * h + 6 = omega arith in
        rw (tree-root_state m root place items h t, beyond, small) refl

    create_beyond :
        shift_maxindex (6 * h) < index
        → Created m index (tree_create calloc (suc fuel) root index m)
    create_beyond past =
        let free : items index ≡ null = uncovered m root place items h t index lt past in
        let e =
          extend_ends calloc allocates root items (suc fuel) h index m place t lt past
            (omega arith) in
        elim e.arrives [
          | inl (x, y) ↦ record {
            height = e.height;
            walked = record {
              after = e.after;
              place = e.place;
              result = none;
              runs = rw (extended past, e.runs, x) refl;
              tree = e.tree;
              arrives = inl (refl, y);
              kept = λ ne. absurd (ne free);
            };
          }
          | inr (x, y) ↦
              let w =
                create_from-ends calloc allocates root items e.height index fuel e.after e.place
                  e.tree (let l = e.tree.low in omega arith) y in
              record {
                height = e.height;
                walked = record {
                  after = w.after;
                  place = w.place;
                  result = w.result;
                  runs = rw (extended past, e.runs, x) w.runs;
                  tree = w.tree;
                  arrives = w.arrives;
                  kept = λ ne. absurd (ne free);
                };
              }
        ]

    created : Created m index (tree_create calloc (suc fuel) root index m)
    created = elim (Bool-cases (ltb (shift_maxindex (6 * h)) index)) [
      | inl past ↦ create_beyond (ground arith)
      | inr within ↦ create_within (ground arith)
    ]

    -- How an insertion of an item at a free index may end.
    abbrev pub Added : Ptr → Mem → Type 0
    Added item m' =
        ((tree_insert calloc (suc fuel) root index item m ≡ ok (pos 0) m')
          × Holds m' root (item_at items index item))
        ⊎ ((tree_insert calloc (suc fuel) root index item m ≡ ok enomem m')
            × (calloc.node m' ≡ null)
            × Holds m' root items)

    -- In a tree of any height, with fuel for 12 rounds and where `calloc` returns NULL or an unused
    -- aligned address, `radix_tree_insert` of a non-null item at a 64-bit index that holds nothing ends
    -- in one of two ways. Either it returns 0 and the memory is a tree that holds the item there and at
    -- every other index what the tree held before. Or it returns -ENOMEM, and then `calloc` returns NULL
    -- in the final memory, which is a tree that holds at every index what the tree held before.
    pub tree_insert-adds :
        (item : Ptr) → item ≢ null → items index ≡ null → (m' : Mem) × Added item m'
    unfolding tree_insert
    tree_insert-adds item ne free =
        let w = created.walked in
        elim w.arrives [
          | inl (x, y) ↦ (
            w.after,
            inr (
              rw (w.runs, x) refl,
              y,
              record { place = w.place; height = created.height; tree = w.tree },
            ),
          )
          | inr (p, x, at) ↦ (
            mem_stored w.after root w.place items created.height w.tree index p at item ne free,
            inl (
              rw
                  (
                    w.runs,
                    x,
                    insert_entries-free w.after root w.place items created.height w.tree index p at
                        item ne free,
                  )
                  refl,
              record {
                place = w.place;
                height = created.height;
                tree =
                    stored-IsTree w.after root w.place items created.height w.tree index p at item
                      ne free;
              },
            ),
          )
        ]

    -- In a tree of any height, with fuel for 12 rounds and where `calloc` returns NULL or an unused
    -- aligned address, `radix_tree_insert` at a 64-bit index that holds an item returns -EEXIST and
    -- leaves the memory as it was.
    pub tree_insert-occupied :
        (item : Ptr)
        → items index ≢ null
        → tree_insert calloc (suc fuel) root index item m ≡ ok eexist m
    unfolding tree_insert
    tree_insert-occupied item ne =
        let w = created.walked in
        let k = w.kept ne in
        elim w.arrives [
          | inl (x, y) ↦ absurd (k.1 x)
          | inr (p, x, at) ↦
              let run : tree_insert calloc (suc fuel) root index item m ≡ ok eexist w.after =
                rw
                  (
                    w.runs,
                    x,
                    insert_entries-taken w.after root w.place items created.height w.tree index p at
                        item ne,
                  )
                  refl in
              rw k.0 at run
        ]
