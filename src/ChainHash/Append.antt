-- ===== src/ChainHash/Append.antt =====
-- `hash_insert` into a bucket that has a chain.
use jeopardy.Prelude.{
  ℕ, ◌≡◌, ◌≢◌, ◌<◌, refl, ap, sym, ◌∙◌, List, [], ◌∷◌, ◌++◌, map, Option, none, some, arith, Absent,
  false, ◌==◌, if◌then◌else◌, ==_iff, pos, inl, inr, Bool-cases, append-All,
}
use jeopardy.Memory.{Ptr, null, read, write, read-write_self, ok}
use jeopardy.DoubleList.Links.{list_add_tail}
use jeopardy.DoubleList.Path.{Circle, Becomes, redirect-Circle, Allocated}
use jeopardy.DoubleList.Add.{list_add_tail-last}
use jeopardy.ChainHash.State.{Hash, Mem, Calloc, link_of, cleared, hash_node_alloc}
use jeopardy.ChainHash.Table.{create_in_chain, hash_insert}
use jeopardy.ChainHash.Valid.{
  Bucket, nodes, links, Owners, IsChain, IsBucket, IsTable, held, place_of, hash_code-lt_size,
  Circle-Absent, Absent-link_of, owned-Apart, owner_added, owner_added_self, owned-added,
  map-read-write, map-append_one,
}

-- The buckets with another one at `i`.
abbrev pub put_bucket : (ℕ → Option Bucket) → ℕ → Option Bucket → ℕ → Option Bucket
put_bucket buckets i b j = if j == i then b else buckets j

-- What the insertion of an item adds: the item at the end of its bucket, and nothing elsewhere.
pub record Appends (m after : Mem) (hp : Ptr) (hash : Hash)
    (buckets buckets_after : ℕ → Option Bucket) (i : ℕ) (item : Ptr) : Type 0 where
  pub table : IsTable after hp hash buckets_after
  pub appended : held after (buckets_after i) ≡ held m (buckets i) ++ some item ∷ []
  pub others : (j : ℕ) → j < hash.size → j ≢ i → held after (buckets_after j) ≡ held m (buckets j)

module _ (m : Mem) (hp : Ptr) (h : Hash) (buckets : ℕ → Option Bucket) (t : IsTable m hp h buckets)
    (i : ℕ) (inside : i < h.size) (b : Bucket) (here : buckets i ≡ some b) (node item : Ptr)
    (link_unused : read m.links.next (link_of node) ≡ none) where
  chain : IsChain m h t.owners i b
  chain = rw here at (t.bucket i inside)

  -- A ring in the old memory does not hold the new link.
  new-Absent : (k : Ptr) (ws : List Ptr) → Circle m.links k ws → Absent (link_of node) (k ∷ ws)
  new-Absent k ws r = Circle-Absent m.links k ws (link_of node) r link_unused

  stays : (k : Ptr) (ws : List Ptr) → Circle m.links k ws → Circle (cleared m node).links k ws
  stays k ws r =
      redirect-Circle m.links (link_of node) 0 (link_of node) 0 k ws (new-Absent k ws r)
        (new-Absent k ws r) r

  room : Allocated (cleared m node).links (link_of node)
  room = record {
    next = 0;
    prev = 0;
    has_next = read-write_self m.links.next (link_of node) 0;
    has_prev = read-write_self m.links.prev (link_of node) 0;
  }

  pub added :
      Becomes
        (list_add_tail (link_of node) (link_of b.first))
        (cleared m node).links
        (link_of b.first)
        (map link_of b.rest ++ link_of node ∷ [])
        (link_of node ∷ links b)
  added =
      list_add_tail-last (cleared m node).links (link_of b.first) (link_of node)
        (map link_of b.rest) (stays (link_of b.first) (map link_of b.rest) chain.circle)
        (new-Absent (link_of b.first) (map link_of b.rest) chain.circle) room

  abbrev pub longer : Bucket
  longer = record b { rest = b.rest ++ node ∷ [] }

  abbrev pub mem_appended : Mem
  mem_appended = record m { links = added.after; items = write (write m.items node null) node item }

  -- The owners of the links, the new one included.
  abbrev owners : Owners
  owners = record { link = owner_added t.owners.link (link_of node) i; head = t.owners.head }

  longer-IsChain : IsChain mem_appended h owners i longer
  longer-IsChain = record {
    slot = chain.slot;
    ptr_ne = chain.ptr_ne;
    loaded = chain.loaded;
    circle = rw (map-append_one link_of b.rest node) added.circle;
    owned = rw (map-append_one link_of b.rest node) (
        append-All (λ p. owners.link p ≡ i) (links b) (link_of node ∷ [])
          (owned-added t.owners.link (link_of node) i i (links b)
            (new-Absent (link_of b.first) (map link_of b.rest) chain.circle) chain.owned)
          (owner_added_self t.owners.link (link_of node) i, tt));
    head_owned = chain.head_owned;
  }

  other-IsBucket :
      (j : ℕ) (o : Option Bucket)
      → j ≢ i
      → IsBucket m h t.owners j o
      → IsBucket mem_appended h owners j o
  other-IsBucket j none ne k = k
  other-IsBucket j (some c) ne k =
      let away = new-Absent (link_of c.first) (map link_of c.rest) k.circle in
      record {
        slot = k.slot;
        ptr_ne = k.ptr_ne;
        loaded = k.loaded;
        circle =
            added.elsewhere (link_of c.first) (map link_of c.rest)
              (stays (link_of c.first) (map link_of c.rest) k.circle)
              (
                away,
                owned-Apart t.owners.link i j (links b) (links c) (λ e. ne (sym e)) chain.owned
                    k.owned,
              );
        owned = owned-added t.owners.link (link_of node) i j (links c) away k.owned;
        head_owned = k.head_owned;
      }

  abbrev pub buckets_appended : ℕ → Option Bucket
  buckets_appended = put_bucket buckets i (some longer)

  IsBucket-appended : (j : ℕ) → j < h.size → IsBucket mem_appended h owners j (buckets_appended j)
  IsBucket-appended j lt = elim (Bool-cases (j == i)) [
    | inl same ↦ let e : j ≡ i = (==_iff j i).0 same in rw (same, e) longer-IsChain
    | inr away ↦ rw away (other-IsBucket j (buckets j) (ground arith) (t.bucket j lt))
  ]

  node-Absent : (c : Bucket) → Absent (link_of node) (links c) → Absent node (nodes c)
  node-Absent c h = Absent-link_of node (nodes c) h

  twice :
      (xs : List Ptr) → Absent node xs → map (read mem_appended.items) xs ≡ map (read m.items) xs
  twice xs far =
      map-read-write (write m.items node null) node item xs far
      ∙ map-read-write m.items node null xs far

  appended_held : held mem_appended (some longer) ≡ held m (some b) ++ some item ∷ []
  appended_held =
      map-append_one (read mem_appended.items) (nodes b) node
      ∙ ap (λ w. w ++ read mem_appended.items node ∷ [])
          (twice (nodes b)
            (node-Absent b (new-Absent (link_of b.first) (map link_of b.rest) chain.circle)))
      ∙ ap (λ w. held m (some b) ++ w ∷ []) (read-write_self (write m.items node null) node item)

  other_held :
      (j : ℕ) (o : Option Bucket) → IsBucket m h t.owners j o → held mem_appended o ≡ held m o
  other_held j none k = refl
  other_held j (some c) k =
      twice (nodes c) (node-Absent c (new-Absent (link_of c.first) (map link_of c.rest) k.circle))

  pub appends : Appends m mem_appended hp h buckets buckets_appended i item
  appends = record {
    table = record {
      owners = owners;
      loaded = t.loaded;
      inhabited = t.inhabited;
      narrow = t.narrow;
      spans = t.spans;
      bucket = IsBucket-appended;
    };
    appended = rw ((==_iff i i).1 refl, here) appended_held;
    others = λ j lt ne.
        let off : (j == i) ≡ false = ground arith in
        rw off (other_held j (buckets j) (t.bucket j lt));
  }

  pub insert_in_chain :
      (calloc : Calloc) (key : ℕ)
      → i ≡ place_of h key
      → calloc.node m ≡ node
      → node ≢ null
      → hash_insert calloc hp key item m ≡ ok (pos 0) mem_appended
  unfolding hash_insert create_in_chain hash_node_alloc
  insert_in_chain calloc key e alloc ne =
      let code = hash_code-lt_size m h key t.inhabited t.narrow in
      let off : (b.ptr == null) ≡ false = let h = chain.ptr_ne in ground arith in
      let there : (node == null) ≡ false = ground arith in
      rw
        (
          t.loaded,
          code.0,
          ← e,
          t.loaded,
          chain.slot,
          off,
          chain.loaded,
          alloc,
          there,
          added.returns,
          read-write_self m.items node null,
        )
        refl
