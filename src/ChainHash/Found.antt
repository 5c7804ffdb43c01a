-- ===== src/ChainHash/Found.antt =====
-- `hash_insert` into an empty bucket.
use jeopardy.Prelude.{
  sym, ℕ, ◌≡◌, ◌≢◌, ◌<◌, refl, ap, ◌∙◌, List, [], ◌∷◌, map, Option, none, some, arith, Absent,
  get_elem?, get_elem?-set_self, get_elem?-set_ne, length-set, set, false, ◌==◌, ==_iff, pos, inl,
  inr, Bool-cases,
}
use jeopardy.Memory.{Ptr, null, read, write, read-write_ne, read-write_self, ok}
use jeopardy.DoubleList.Links.{init_list_head, set_next, set_prev, next_of, prev_of}
use jeopardy.DoubleList.Path.{Circle, redirect-Circle, link, link-Circle, Linked-link}
use jeopardy.ChainHash.State.{Hash, Mem, Calloc, link_of, cleared, hash_node_alloc, head_alloc}
use jeopardy.ChainHash.Table.{create_in_empty, hash_insert}
use jeopardy.ChainHash.Append.{Appends, put_bucket}
use jeopardy.ChainHash.Valid.{
  Bucket, nodes, links, Owners, IsChain, IsBucket, IsTable, held, place_of, hash_code-lt_size,
  Circle-Absent, Absent-link_of, owner_added, owner_added_self, owner_added_ne, owned-added,
  map-read-write,
}

-- The table with a head in slot `i`, and the memory in which the node is allocated.
abbrev pub headed : Hash → ℕ → Ptr → Hash
headed h i head = record h { slots = set h.slots i head }

abbrev pub mem_headed : Mem → Ptr → Hash → ℕ → Ptr → Mem
mem_headed m hp h i head = record m {
  heads = write m.heads head null;
  hashes = write m.hashes hp (headed h i head);
}

module _ (m : Mem) (hp : Ptr) (h : Hash) (buckets : ℕ → Option Bucket) (t : IsTable m hp h buckets)
    (i : ℕ) (inside : i < h.size) (here : buckets i ≡ none) (head node item : Ptr)
    (head_ne : head ≢ null) (link_unused : read m.links.next (link_of node) ≡ none)
    (head_unused : read m.heads head ≡ none) where
  abbrev pub mem_founded : Mem
  mem_founded = record m {
    links = link (link_of node) (link_of node) (cleared m node).links;
    items = write (write m.items node null) node item;
    heads = write (write m.heads head null) head node;
    hashes = write m.hashes hp (headed h i head);
  }

  empty : get_elem? h.slots i ≡ some null
  empty = rw here at (t.bucket i inside)

  new-Absent : (k : Ptr) (ws : List Ptr) → Circle m.links k ws → Absent (link_of node) (k ∷ ws)
  new-Absent k ws r = Circle-Absent m.links k ws (link_of node) r link_unused

  stays : (k : Ptr) (ws : List Ptr) → Circle m.links k ws → Circle mem_founded.links k ws
  stays k ws r =
      let a = new-Absent k ws r in
      link-Circle (cleared m node).links (link_of node) (link_of node) k ws a a
        (redirect-Circle m.links (link_of node) 0 (link_of node) 0 k ws a a r)

  abbrev owners : Owners
  owners = record {
    link = owner_added t.owners.link (link_of node) i;
    head = owner_added t.owners.head head i;
  }

  abbrev pub founded : Bucket
  founded = record { ptr = head; first = node; rest = [] }

  founded-IsChain : IsChain mem_founded (headed h i head) owners i founded
  founded-IsChain = record {
    slot = get_elem?-set_self h.slots i head empty;
    ptr_ne = head_ne;
    loaded = read-write_self (write m.heads head null) head node;
    circle = (Linked-link (cleared m node).links (link_of node) (link_of node), (tt, tt));
    owned = (owner_added_self t.owners.link (link_of node) i, tt);
    head_owned = owner_added_self t.owners.head head i;
  }

  other-IsBucket :
      (j : ℕ) (o : Option Bucket)
      → j ≢ i
      → IsBucket m h t.owners j o
      → IsBucket mem_founded (headed h i head) owners j o
  other-IsBucket j none ne k = get_elem?-set_ne h.slots i j head (λ e. ne (sym e)) ∙ k
  other-IsBucket j (some c) ne k =
      let away = new-Absent (link_of c.first) (map link_of c.rest) k.circle in
      let ptr_ne : c.ptr ≢ head = λ e. cc (k.loaded, head_unused, e) in
      record {
        slot = get_elem?-set_ne h.slots i j head (λ e. ne (sym e)) ∙ k.slot;
        ptr_ne = k.ptr_ne;
        loaded =
            rw
              (
                read-write_ne (write m.heads head null) head c.ptr node ptr_ne,
                read-write_ne m.heads head c.ptr null ptr_ne,
              )
              k.loaded;
        circle = stays (link_of c.first) (map link_of c.rest) k.circle;
        owned = owned-added t.owners.link (link_of node) i j (links c) away k.owned;
        head_owned = owner_added_ne t.owners.head head i c.ptr ptr_ne ∙ k.head_owned;
      }

  abbrev pub buckets_founded : ℕ → Option Bucket
  buckets_founded = put_bucket buckets i (some founded)

  IsBucket-founded :
      (j : ℕ) → j < h.size → IsBucket mem_founded (headed h i head) owners j (buckets_founded j)
  IsBucket-founded j lt = elim (Bool-cases (j == i)) [
    | inl same ↦ let e : j ≡ i = (==_iff j i).0 same in rw (same, e) founded-IsChain
    | inr away ↦ rw away (other-IsBucket j (buckets j) (ground arith) (t.bucket j lt))
  ]

  other_held :
      (j : ℕ) (o : Option Bucket) → IsBucket m h t.owners j o → held mem_founded o ≡ held m o
  other_held j none k = refl
  other_held j (some c) k =
      let far : Absent node (nodes c) =
        Absent-link_of node (nodes c)
          (new-Absent (link_of c.first) (map link_of c.rest) k.circle) in
      map-read-write (write m.items node null) node item (nodes c) far
      ∙ map-read-write m.items node null (nodes c) far

  pub founds : Appends m mem_founded hp (headed h i head) buckets buckets_founded i item
  founds = record {
    table = record {
      owners = owners;
      loaded = read-write_self m.hashes hp (headed h i head);
      inhabited = t.inhabited;
      narrow = t.narrow;
      spans = length-set h.slots i head ∙ t.spans;
      bucket = IsBucket-founded;
    };
    appended =
        rw ((==_iff i i).1 refl, here)
          (ap (λ w. w ∷ []) (read-write_self (write m.items node null) node item));
    others = λ j lt ne.
        let off : (j == i) ≡ false = ground arith in
        rw off (other_held j (buckets j) (t.bucket j lt));
  }

  pub insert_in_empty :
      (calloc : Calloc) (key : ℕ)
      → i ≡ place_of h key
      → calloc.head m ≡ head
      → calloc.node (mem_headed m hp h i head) ≡ node
      → node ≢ null
      → hash_insert calloc hp key item m ≡ ok (pos 0) mem_founded
  unfolding hash_insert create_in_empty hash_node_alloc head_alloc init_list_head set_next set_prev
      next_of prev_of
  insert_in_empty calloc key e alloc_head alloc_node ne =
      let code = hash_code-lt_size m h key t.inhabited t.narrow in
      let head_off : (head == null) ≡ false = ground arith in
      let node_off : (node == null) ≡ false = ground arith in
      rw
        (
          t.loaded,
          code.0,
          ← e,
          t.loaded,
          empty,
          alloc_head,
          head_off,
          t.loaded,
          empty,
          alloc_node,
          node_off,
          read-write_self m.links.next (link_of node) 0,
          read-write_self m.links.prev (link_of node) 0,
          read-write_self m.heads head null,
          read-write_self m.items node null,
        )
        refl
