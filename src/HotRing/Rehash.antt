-- ===== src/HotRing/Rehash.antt =====
-- hotring.c: `__hash_get_largest`, `display`, `hotring_rehash_init` and `hotring_rehash`.
use jeopardy.Prelude.{
  ℕ, zero, suc, ◌+◌, ◌-◌, ◌*◌, ◌^◌, ◌%◌, ◌&&◌, Option, none, some, ltb, ◌==◌, if◌then◌else◌,
}
use jeopardy.Memory.{Ptr, null, M, out_of_fuel, pure, crash, checked, ◌>>=◌, ◌>>◌}
use jeopardy.HotRing.State.{
  Mem, Calloc, link_of_pointer, head_of_pointer, load_node, load_head, load_hash, put_head,
  set_link, head_alloc,
}
use jeopardy.HotRing.Table.{
  tag_bits, load_slot, put_slot, get_head_node, hash_alloc, hash_get_first,
}
use jeopardy.HotRing.Get.{raw_hash_get}
use jeopardy.HotRing.Create.{hash_create, insert_entries}
use jeopardy.HotRing.Delete.{hotring_delete_head}

-- The walk to the end of the ring, where the tags go down.
unfoldable pub largest_loop : ℕ → Ptr → Ptr → Ptr → M Mem Ptr
largest_loop zero head prev cur = λ _. out_of_fuel
largest_loop (suc fuel) head prev cur = if cur == head then pure prev else do
  before ← load_node prev
  next ← load_node cur
  if ltb next.tag before.tag then pure prev else largest_loop fuel head cur next.list.addr

-- `__hash_get_largest`: the node of the largest tag, if the bucket has a ring.
unfoldable pub hash_get_largest : ℕ → Ptr → ℕ → M Mem (Option Ptr)
unfolding largest_loop get_head_node
hash_get_largest fuel hp index = do
  h ← load_hash hp
  p ← load_slot h index
  if p == null then pure none else do
    head_node ← get_head_node p
    v ← load_node head_node
    largest ← largest_loop fuel head_node head_node v.list.addr
    pure (some largest)

-- `list_for_each` that prints.
unfoldable pub print_loop : ℕ → Ptr → Ptr → M Mem (Unit {0})
print_loop zero head cur = λ _. out_of_fuel
print_loop (suc fuel) head cur =
    if cur == head then pure tt else do v ← load_node cur; print_loop fuel head v.list.addr

-- `display` of the buckets from `i`, without the text it prints.
unfoldable pub display_from : ℕ → Ptr → ℕ → ℕ → M Mem (Unit {0})
unfolding print_loop hash_get_first
display_from fuel hp zero i = pure tt
display_from fuel hp (suc left) i = do
  first ← hash_get_first hp i
  elim first [
    | none ↦ pure tt
    | some node ↦ do v ← load_node node; print_loop fuel node v.list.addr
  ]
  display_from fuel hp left (i + 1)

unfoldable pub display : ℕ → Ptr → M Mem (Unit {0})
unfolding display_from
display fuel hp = do h ← load_hash hp; display_from fuel hp h.size 0

-- `i << bits` on an `int`: undefined on 32 bits or more, and where the result has more than 31.
abbrev pub shifted_int : ℕ → ℕ → M Mem ℕ
shifted_int i bits =
    if ltb bits 32 && ltb (i * 2 ^ bits) (2 ^ 31) then pure (i * 2 ^ bits) else crash

-- `(unsigned long) 1 << bits` and `<< (bits - 1)`, of which the second is used: undefined for no bits
-- and for 64 or more.
abbrev pub half_tag : ℕ → M Mem ℕ
half_tag bits = if ltb 0 bits && ltb bits 64 then pure (2 ^ (bits - 1)) else crash

module _ (calloc : Calloc) (fuel : ℕ) where
  -- A milestone of the ring in bucket `i`, and the head of a new bucket that points to it.
  unfoldable pub milestone : Ptr → Ptr → ℕ → ℕ → ℕ → ℕ → M Mem (Unit {0})
  unfolding hash_create insert_entries head_alloc
  milestone hp new i key tag index = do
    node ← hash_create calloc fuel hp i tag
    insert_entries node key tag null
    p ← head_alloc calloc
    put_slot new index p
    load_head p
    put_head p (head_of_pointer node)

  -- The loop of `hotring_rehash_init` from bucket `i`.
  unfoldable pub milestones_from : Ptr → Ptr → ℕ → ℕ → ℕ → ℕ → M Mem (Unit {0})
  unfolding milestone
  milestones_from hp new bits half zero i = pure tt
  milestones_from hp new bits half (suc left) i = do
    h ← load_hash hp
    p ← load_slot h i
    if p == null then pure tt else (do
      first ← shifted_int i bits
      milestone hp new i ((first + half) % 2 ^ 64) half (i * 2 + 1)
      milestone hp new i first 0 (i * 2))
    milestones_from hp new bits half left (i + 1)

  unfoldable pub rehash_init : Ptr → M Mem Ptr
  unfolding milestones_from hash_alloc
  rehash_init hp = do
    h ← load_hash hp
    half ← half_tag (tag_bits h)
    new ← hash_alloc calloc 32 (h.k + 1)
    milestones_from hp new (tag_bits h) half h.size 0
    pure new

  -- `*nodep`, which a search that fails leaves as it was.
  abbrev written : Option Ptr → Option Ptr → Option Ptr
  written none old = old
  written (some p) old = some p

  -- The split of the rings from bucket `i`; `ring1_head` and `ring2_head` keep their values.
  unfoldable pub split_from : Ptr → ℕ → ℕ → ℕ → ℕ → Option Ptr → Option Ptr → M Mem (Unit {0})
  unfolding raw_hash_get
  split_from hp bits half zero i ring1_head ring2_head = pure tt
  split_from hp bits half (suc left) i ring1_head ring2_head = do
    h ← load_hash hp
    p ← load_slot h i
    if p == null then split_from hp bits half left (i + 1) ring1_head ring2_head else do
      first ← shifted_int i bits
      got1 ← raw_hash_get fuel hp first
      got2 ← raw_hash_get fuel hp ((first + half) % 2 ^ 64)
      let head1 = written got1.node ring1_head
      let head2 = written got2.node ring2_head
      h1 ← checked head1
      set_link got2.prev (link_of_pointer h1)
      h2 ← checked head2
      set_link got1.prev (link_of_pointer h2)
      split_from hp bits half left (i + 1) head1 head2

  -- The deletion of the milestones in the new table's buckets from `i`.
  unfoldable pub unhead_from : Ptr → ℕ → ℕ → M Mem (Unit {0})
  unfolding hotring_delete_head
  unhead_from new zero i = pure tt
  unhead_from new (suc left) i = do
    h ← load_hash new
    p ← load_slot h i
    if p == null then pure tt else (do hotring_delete_head fuel new i; pure tt)
    unhead_from new left (i + 1)

  unfoldable pub hotring_rehash : Ptr → M Mem Ptr
  unfolding rehash_init split_from unhead_from display
  hotring_rehash hp = do
    new ← rehash_init hp
    h ← load_hash hp
    half ← half_tag (tag_bits h)
    split_from hp (tag_bits h) half h.size 0 none none
    n ← load_hash new
    unhead_from new n.size 0
    display fuel new
    pure new
