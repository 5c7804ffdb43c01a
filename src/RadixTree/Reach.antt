-- ===== src/RadixTree/Reach.antt =====
-- radix_tree/radix-tree.c: the memories that `radix_tree_root_alloc` and then insertions and deletions
-- lead to, where the caller asks `radix_tree_empty` before an insertion and looks an index up before
-- it deletes it.
use jeopardy.Prelude.{
  ℕ, ◌%◌, ◌^◌, ◌≡◌, ◌≢◌, ◌<◌, refl, ◌⊎◌, inl, inr, false, arith, ◌==◌, Bool, true, Bool-cases, sym,
  ap, ◌∙◌, ℤ, pos,
}
use mathlib.Core.Path.{subst}
use jeopardy.Memory.{Ptr, null, Run, ok, pure, ◌>>=◌}
use jeopardy.RadixTree.State.{Mem, Calloc, root_alloc, tree_empty}
use jeopardy.RadixTree.Create.{tree_insert, eexist, enomem}
use jeopardy.RadixTree.Lookup.{tree_lookup}
use jeopardy.RadixTree.Remove.{tree_delete}
use jeopardy.RadixTree.Shape.Place.{item_at, IsCalloc, Holds, IsEmpty}
use jeopardy.RadixTree.Shape.Search.{tree_lookup-items}
use jeopardy.RadixTree.Grow.Insert.{tree_insert-adds, tree_insert-occupied}
use jeopardy.RadixTree.Shed.Delete.{tree_delete-removes, tree_lookup-empty}
use jeopardy.RadixTree.Start.{mem_rooted, mem_started, root_alloc-started, started-IsTree}

module _ (calloc : Calloc) where
  -- The rounds that are enough for every 64-bit index.
  abbrev pub find : Ptr → ℕ → Mem → Run Mem Ptr
  find root index = tree_lookup 12 root index

  abbrev pub put : Ptr → ℕ → Ptr → Mem → Run Mem ℤ
  put root index item = tree_insert calloc 12 root index item

  abbrev pub drop : Ptr → ℕ → Mem → Run Mem Ptr
  drop root index = tree_delete 24 root index

  -- A call that a caller makes in a memory.
  pub data Call (root : Ptr) (m : Mem) : Type 0 where
    finds : (index : ℕ) → index < 2 ^ 64 → Call root m
    inserts :
        (index : ℕ) (item : Ptr)
        → index < 2 ^ 64
        → item ≢ null
        → tree_empty root m ≡ ok false m
        → Call root m
    deletes :
        (index : ℕ) (item : Ptr)
        → index < 2 ^ 64
        → item ≢ null
        → find root index m ≡ ok item m
        → Call root m

  -- The run of a call: the entry of a search or of a deletion, or the number of an insertion.
  abbrev pub perform : {root : Ptr} {m : Mem} → Call root m → Run Mem (Ptr ⊎ ℤ)
  perform {root} {m} (finds index lt) = (do e ← find root index; pure (inl e)) m
  perform {root} {m} (inserts index item lt ne open_at) =
      (do n ← put root index item; pure (inr n)) m
  perform {root} {m} (deletes index item lt ne found) = (do e ← drop root index; pure (inl e)) m

  pub data Reach (root : Ptr) : Mem → Type 0 where
    start :
        (m m' : Mem) (root_ne : calloc.root m ≢ null)
        → calloc.node (mem_rooted calloc m root_ne) ≢ null
        → root_alloc calloc m ≡ ok root m'
        → Reach root m'
    next :
        {m : Mem} (c : Call root m) (e : Ptr ⊎ ℤ) (m' : Mem)
        → Reach root m
        → perform c ≡ ok e m'
        → Reach root m'

  -- Two ends of one run.
  ends :
      {A : Type 0} (run : Run Mem A) (a b : A) (m m' : Mem)
      → run ≡ ok a m
      → run ≡ ok b m'
      → (a ≡ b) × (m ≡ m')
  ends run a b m m' x y = (cc, cc)

  abbrev State : Ptr → Mem → (ℕ → Ptr) → Type 0
  State root m items = Holds m root items ⊎ IsEmpty m root items

  module _ (allocates : IsCalloc calloc) (root : Ptr) where
    find-State :
        (m : Mem) (items : ℕ → Ptr) (index : ℕ)
        → State root m items
        → index < 2 ^ 64
        → find root index m ≡ ok (items index) m
    find-State m items index (inl t) lt =
        tree_lookup-items m root t.place items t.height t.tree 12 index
          (let l = t.tree.low in omega arith) lt
    find-State m items index (inr e) lt = tree_lookup-empty m root items e 11 index

    put-State :
        (m : Mem) (items : ℕ → Ptr) (index : ℕ) (item : Ptr)
        → Holds m root items
        → index < 2 ^ 64
        → item ≢ null
        → (n : ℤ) × (m' : Mem) × (put root index item m ≡ ok n m')
          × ((items' : ℕ → Ptr) × Holds m' root items')
    put-State m items index item t lt ne = elim (Bool-cases (items index == null)) [
      | inr taken ↦ (
        eexist,
        m,
        tree_insert-occupied calloc allocates root items m t.place t.height 11 index t.tree lt
            (omega arith) item (ground arith),
        (items, t),
      )
      | inl free ↦
          let r =
            tree_insert-adds calloc allocates root items m t.place t.height 11 index t.tree lt
              (omega arith) item ne (ground arith) in
          elim r.1 [
            | inl a ↦ (pos 0, r.0, a.0, (item_at items index item, a.1))
            | inr a ↦ (enomem, r.0, a.0, (items, a.2))
          ]
    ]

    not_empty :
        (m : Mem) (items : ℕ → Ptr)
        → State root m items
        → tree_empty root m ≡ ok false m
        → Holds m root items
    unfolding tree_empty
    not_empty m items (inl t) e = t
    not_empty m items (inr b) e =
        let f : tree_empty root m ≡ ok true m = rw (b.has_root, b.no_node) refl in
        let g : ◌≡◌ {A = Bool} true false = (ends _ true false m m f e).0 in absurd (cc g)

    drop-State :
        (m : Mem) (items : ℕ → Ptr) (index : ℕ) (item : Ptr)
        → State root m items
        → index < 2 ^ 64
        → item ≢ null
        → find root index m ≡ ok item m
        → (m' : Mem) × (drop root index m ≡ ok item m') × State root m' (item_at items index null)
    drop-State m items index item s lt ne found =
        let same : items index ≡ item =
          (ends (find root index m) (items index) item m m (find-State m items index s lt)
            found).0 in
        let present : items index ≢ null = λ z. ne (sym same ∙ z) in
        elim s [
          | inr e ↦ absurd (present (e.nothing index))
          | inl t ↦
              let d =
                tree_delete-removes m root t.place items t.height t.tree index present lt 24
                  (let l = t.tree.low in omega arith) in
              (d.0, d.1 ∙ ap (λ x. ok x d.0) same, d.2)
        ]

    performed :
        (m : Mem) (items : ℕ → Ptr)
        → State root m items
        → (c : Call root m)
        → (e : Ptr ⊎ ℤ) × (m' : Mem) × (perform c ≡ ok e m')
          × ((items' : ℕ → Ptr) × State root m' items')
    performed m items s (finds index lt) =
        (inl (items index), m, rw (find-State m items index s lt) refl, (items, s))
    performed m items s (inserts index item lt ne open_at) =
        let p = put-State m items index item (not_empty m items s open_at) lt ne in
        (inr p.0, p.1, rw p.2 refl, (p.3.0, inl p.3.1))
    performed m items s (deletes index item lt ne found) =
        let d = drop-State m items index item s lt ne found in
        (inl item, d.0, rw d.1 refl, (item_at items index null, d.2))

    -- The state of a memory that the calls lead to: a tree, or none after its last node is gone.
    pub Reach-State : {m : Mem} → Reach root m → (items : ℕ → Ptr) × State root m items
    Reach-State (start m m' root_ne room e) =
        let c : (calloc.node (mem_rooted calloc m root_ne) % 4 ≡ 0) =
          elim (allocates.fresh (mem_rooted calloc m root_ne)) [
            | inl z ↦ absurd (room z)
            | inr z ↦ z.0
          ] in
        let run = root_alloc-started calloc m root_ne room in
        let same =
          ends (root_alloc calloc m) (calloc.root m) root (mem_started calloc m root_ne room) m' run
            e in
        let t = started-IsTree calloc m root_ne room c in
        let h : Holds (mem_started calloc m root_ne room) (calloc.root m) (λ i. null) = record {
          place = _;
          height = 0;
          tree = t;
        } in
        (
          λ i. null,
          inl (
              subst (λ a. Holds m' a (λ i. null)) same.0
                (subst (λ b. Holds b (calloc.root m) (λ i. null)) same.1 h)),
        )
    Reach-State (next c e m' r run) =
        let s = Reach-State r in
        let p = performed _ s.0 s.1 c in
        let same = (ends (perform c) p.0 e p.1 m' p.2 run).1 in
        (p.3.0, subst (λ a. State root a p.3.0) same p.3.1)

    -- Where `calloc` returns NULL or an unused aligned address: no call faults or runs out of fuel in a
    -- memory that `radix_tree_root_alloc`, with room for the root and its node, and then calls lead to.
    -- The calls are lookups of 64-bit indices, insertions of non-null items at such indices where
    -- `radix_tree_empty` is false, and deletions of such indices where a lookup finds an item.
    pub Reach-safe :
        {m : Mem}
        → Reach root m
        → (c : Call root m) → (e : Ptr ⊎ ℤ) × (m' : Mem) × (perform c ≡ ok e m')
    Reach-safe {m} r c = let s = Reach-State r in let p = performed m s.0 s.1 c in (p.0, p.1, p.2)
