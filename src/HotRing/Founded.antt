-- ===== src/HotRing/Founded.antt =====
-- `hash_insert` into an empty bucket: a head cell, a ring of one node, and the table after it.
use jeopardy.Prelude.{
  ℕ, ◌+◌, ◌≤◌, ◌^◌, ◌<◌, ◌≡◌, ◌≢◌, refl, sym, ◌∙◌, ap, ◌⊎◌, [], Option, none, some, arith, true,
  false, inl, inr, Bool-cases, ◌==◌, ==_iff, pos, get_elem?, set, length-set, get_elem?-set_self,
  get_elem?-set_ne,
}
use jeopardy.Memory.{Ptr, null, read, write, read-write_self, ok}
use jeopardy.HotRing.State.{
  Link, Node, Head, Hash, Mem, Calloc, zero_node, zero_head, link_of_pointer, head_of_pointer,
  hash_node_alloc, head_alloc,
}
use jeopardy.HotRing.Table.{hash_index, hash_tag}
use jeopardy.HotRing.Create.{hash_insert}
use jeopardy.HotRing.Order.{alone-IsCyclic}
use jeopardy.HotRing.Frame.{Same-Outside, IsRing-Reads, IsRing-frame, Outside-none}
use jeopardy.HotRing.Grown.{Adds}
use jeopardy.HotRing.Amounts.{occurrences, IsOnce}
use jeopardy.HotRing.Valid.{
  Ring, ring_size, items, IsRing, IsBucket, IsTable, ptr_of, view, put_ring,
}

abbrev pub small_link : Ptr → Link
small_link p = record { addr = p; counter = 0; occupied = 0; rehash = 0 }

abbrev pub small_head : Ptr → Head
small_head p = record { addr = p; counter = 0; active = 0 }

-- A user-space pointer leaves the counter and the flags of the word at 0.
pub link_of_small : (p : Ptr) → p < 2 ^ 48 → link_of_pointer p ≡ small_link p
unfolding link_of_pointer
link_of_small p lt = ground arith

pub head_of_small : (p : Ptr) → p < 2 ^ 48 → head_of_pointer p ≡ small_head p
unfolding head_of_pointer
head_of_small p lt = ground arith

module _ (m : Mem) (hp : Ptr) (h : Hash) (key : ℕ) (value q : Ptr) where
  -- The table once the head `q` of the bucket is stored.
  abbrev pub slotted : Hash
  slotted = record h { slots = set h.slots (hash_index h key) q }

  -- The memory in which the node is allocated.
  abbrev pub mem_between : Mem
  mem_between = record m { heads = write m.heads q zero_head; hashes = write m.hashes hp slotted }

  module _ (p : Ptr) where
    abbrev pub sole : Node
    sole = record {
      list = record { addr = p; counter = 1; occupied = 0; rehash = 0 };
      tag = hash_tag h key;
      key = key;
      value = value;
    }

    abbrev pub mem_founded : Mem
    mem_founded =
        let linked = record zero_node { list = small_link p } in
        let one = record zero_node {
          list = record { addr = p; counter = 1; occupied = 0; rehash = 0 };
        } in
        record mem_between {
          nodes = write (write (write (write m.nodes p zero_node) p linked) p one) p sole;
          heads = write (write m.heads q zero_head) q (small_head p);
        }

    abbrev pub ring_founded : Ring
    ring_founded = record { ptr = q; head = small_head p; node = sole; rest = [] }

pub insert_in_empty :
    (calloc : Calloc) (fuel : ℕ) (m : Mem) (hp : Ptr) (h : Hash) (key : ℕ) (value : Ptr)
    → read m.hashes hp ≡ some h
    → get_elem? h.slots (hash_index h key) ≡ some null
    → calloc.head m ≢ null
    → calloc.node (mem_between m hp h key value (calloc.head m)) ≢ null
    → calloc.node (mem_between m hp h key value (calloc.head m)) < 2 ^ 48
    → hash_insert calloc fuel hp key value m
      ≡ ok (pos 0) (
          mem_founded m hp h key value
            (calloc.head m)
            (calloc.node (mem_between m hp h key value (calloc.head m))))
unfolding hash_insert head_alloc hash_node_alloc
insert_in_empty calloc fuel m hp h key value loaded slot head_ne node_ne small =
    let q = calloc.head m in
    let p = calloc.node (mem_between m hp h key value q) in
    let q_ok : (q == null) ≡ false = ground arith in
    let p_ok : (p == null) ≡ false = ground arith in
    rw
      (
        loaded,
        loaded,
        slot,
        q_ok,
        loaded,
        slot,
        p_ok,
        read-write_self,
        read-write_self,
        head_of_small p small,
        link_of_small p small,
        read-write_self,
        read-write_self,
      )
      refl

module _ (m : Mem) (hp : Ptr) (h : Hash) (rings : ℕ → Option Ring) (key : ℕ) (value q p : Ptr)
    (t : IsTable m hp h rings) (empty : rings (hash_index h key) ≡ none)
    (slot : get_elem? h.slots (hash_index h key) ≡ some null) (q_ne : q ≢ null) (p_ne : p ≢ null)
    (p_small : p < 2 ^ 48) (q_fresh : read m.heads q ≡ none) (p_fresh : read m.nodes p ≡ none)
    (narrow : key < 2 ^ h.n) where
  abbrev m' : Mem
  m' = mem_founded m hp h key value q p

  abbrev h' : Hash
  h' = slotted m hp h key value q

  abbrev r : Ring
  r = ring_founded m hp h key value q p

  abbrev rings' : ℕ → Option Ring
  rings' = put_ring rings (hash_index h key) (some r)

  founded-IsRing : IsRing m' h' (hash_index h key) r
  unfolding hash_index hash_tag
  founded-IsRing = record {
    slot = get_elem?-set_self h.slots (hash_index h key) q slot;
    ptr_ne = q_ne;
    loaded = read-write_self _ q (small_head p);
    begins = read-write_self _ p _;
    seg = refl;
    apart = (tt, tt);
    addresses = ((p_ne, p_small), tt);
    homes = ((narrow, refl, refl), tt);
    order = alone-IsCyclic (hash_tag h key);
  }

  nodes_same : (a : Ptr) → a ≢ p → a ≢ p → read m'.nodes a ≡ read m.nodes a
  unfolding read
  nodes_same a ne _ = ground arith

  heads_same : (a : Ptr) → a ≢ q → read m'.heads a ≡ read m.heads a
  unfolding read
  heads_same a ne = ground arith

  others : (j : ℕ) (o : Option Ring) → hash_index h key ≢ j → IsBucket m h j o → IsBucket m' h' j o
  others j none away b = get_elem?-set_ne h.slots (hash_index h key) j q away ∙ b
  others j (some s) away b =
      let out = Outside-none m.nodes p (items s) p_fresh (IsRing-Reads m h j s b) in
      IsRing-frame m m' h h'.slots j s (get_elem?-set_ne h.slots (hash_index h key) j q away)
        (heads_same s.ptr λ e. cc (e, b.loaded, q_fresh))
        (Same-Outside m.nodes m'.nodes p p (items s) nodes_same out out) b

  no_head : (j : ℕ) (o : Option Ring) → IsBucket m h j o → ptr_of o ≢ some q
  no_head j none b e = cc
  no_head j (some s) b e = cc (e, b.loaded, q_fresh)

  IsBucket-after : (j : ℕ) → j < h.size → IsBucket m' h' j (rings' j)
  IsBucket-after j inside = elim (Bool-cases (j == hash_index h key)) [
    | inl same ↦ rw same (rw ((==_iff j _).0 same) founded-IsRing)
    | inr away ↦ rw away (others j (rings j) (λ e. ground arith) (t.bucket j inside))
  ]

  -- `rings'` differs from `rings` at one index, whose head is new.
  ptr_cases :
      (j : ℕ) (o : Ptr)
      → ptr_of (rings' j) ≡ some o
      → ((j ≡ hash_index h key) × (o ≡ q)) ⊎ ((ptr_of (rings j) ≡ some o) × (j ≢ hash_index h key))
  ptr_cases j o e = elim (Bool-cases (j == hash_index h key)) [
    | inl same ↦ inl ((==_iff j _).0 same, ground arith)
    | inr away ↦ inr (rw away at e, ground arith)
  ]

  apart_after :
      (i j : ℕ) (o : Ptr)
      → i < h.size
      → j < h.size
      → ptr_of (rings' i) ≡ some o
      → ptr_of (rings' j) ≡ some o
      → i ≡ j
  apart_after i j o li lj ei ej = elim (ptr_cases i o ei) [
    | inl a ↦ elim (ptr_cases j o ej) [
      | inl b ↦ a.0 ∙ sym b.0
      | inr b ↦ absurd (no_head j (rings j) (t.bucket j lj) (b.0 ∙ ap some a.1))
    ]
    | inr a ↦ elim (ptr_cases j o ej) [
      | inl b ↦ absurd (no_head i (rings i) (t.bucket i li) (a.0 ∙ ap some b.1))
      | inr b ↦ t.heads_apart i j o li lj a.0 b.0
    ]
  ]

  reads_other : (k : ℕ) → k ≢ key → view h' rings' k ≡ view h rings k
  unfolding hash_index
  reads_other k away = elim (Bool-cases (hash_index h k == hash_index h key)) [
    | inl same ↦ rw same (rw ((==_iff (hash_index h k) _).0 same, empty) (ground arith))
    | inr elsewhere ↦ rw elsewhere refl
  ]

  reads_self : view h' rings' key ≡ some value
  unfolding hash_index
  reads_self =
      let here : (hash_index h key == hash_index h key) ≡ true = ground arith in
      let mine : (key == key) ≡ true = ground arith in rw (here, mine) refl

  grows_by_one : (j : ℕ) → ring_size (rings' j) ≤ ring_size (rings j) + 1
  grows_by_one j = elim (Bool-cases (j == hash_index h key)) [
    | inl same ↦ rw (same, (==_iff j _).0 same, empty) (omega arith)
    | inr away ↦ rw away (omega arith)
  ]

  IsOnce-after : IsOnce rings → IsOnce rings'
  unfolding occurrences
  IsOnce-after once j k = elim (Bool-cases (j == hash_index h key)) [
    | inl same ↦ rw same (ground arith)
    | inr away ↦ rw away (once j k)
  ]

  pub founded : Adds m' hp h h' rings rings' key value
  unfolding hash_index hash_tag
  founded = record {
    table = record {
      loaded = read-write_self m.hashes hp h';
      narrow = t.narrow;
      split = t.split;
      int_shift = t.int_shift;
      sized = t.sized;
      spans = length-set h.slots (hash_index h key) q ∙ t.spans;
      bucket = IsBucket-after;
      heads_apart = apart_after;
    };
    bits = (refl, refl);
    grows = grows_by_one;
    others = reads_other;
    self = λ _. reads_self;
    once = λ _. IsOnce-after;
  }
