-- ===== src/HotRing/Create.antt =====
-- hotring.c: `__hash_create`, `insert_entries` and `hash_insert`.
use jeopardy.Prelude.{
  ℕ, zero, suc, Bool, true, false, ◌&&◌, ◌||◌, ltb, leb, ◌==◌, if◌then◌else◌, ℤ, pos, negsuc,
}
use jeopardy.Memory.{Ptr, null, M, out_of_fuel, pure, ◌>>=◌, ◌>>◌}
use jeopardy.HotRing.State.{
  Mem, Calloc, link_of_pointer, head_of_pointer, load_node, load_head, load_hash, put_node,
  put_head, set_link, list_add, hash_node_alloc, head_alloc,
}
use jeopardy.HotRing.Table.{hash_index, hash_tag, load_slot, put_slot, get_head_node}

-- The place of `tag` between two neighbours: at the end of the ring, or in ascending order.
unfoldable pub fits_between : ℕ → ℕ → ℕ → Bool
fits_between tag prev next =
    (ltb next prev && (leb tag next || ltb prev tag)) || (ltb prev tag && leb tag next)

-- `list_for_each` with the insertion: whether it added the node, and the last `prev`.
unfoldable pub create_loop : ℕ → Ptr → ℕ → Ptr → Ptr → Ptr → M Mem (Bool × Ptr)
create_loop zero head tag node prev cur = λ _. out_of_fuel
create_loop (suc fuel) head tag node prev cur = if cur == head then pure (false, prev) else do
  next ← load_node cur
  before ← load_node prev
  if fits_between tag before.tag next.tag
      then (do list_add node prev; pure (true, prev))
      else create_loop fuel head tag node cur next.list.addr

-- `node->list.counter = 1`
abbrev pub count_one : Ptr → M Mem (Unit {0})
count_one node = do
  v ← load_node node
  let l = v.list
  put_node node (record v { list = record l { counter = 1 } })

module _ (calloc : Calloc) (fuel : ℕ) where
  -- The branch of a bucket that has a ring.
  unfoldable pub create_in_ring : Ptr → ℕ → M Mem Ptr
  unfolding create_loop
  create_in_ring p tag = do
    head_node ← get_head_node p
    node ← hash_node_alloc calloc
    h ← load_node head_node
    (added, prev) ← create_loop fuel head_node tag node head_node h.list.addr
    if added then pure tt else list_add node prev
    pure node

  -- The branch of an empty bucket.
  unfoldable pub create_in_empty : Ptr → ℕ → M Mem Ptr
  create_in_empty hp index = do
    p ← head_alloc calloc
    put_slot hp index p
    node ← hash_node_alloc calloc
    set_link node (link_of_pointer node)
    load_head p
    put_head p (head_of_pointer node)
    pure node

  -- `__hash_create`, which returns 0 and writes the node through `nodep`.
  unfoldable pub hash_create : Ptr → ℕ → ℕ → M Mem Ptr
  unfolding create_in_ring create_in_empty
  hash_create hp index tag = do
    h ← load_hash hp
    p ← load_slot h index
    node ← if p == null then create_in_empty hp index else create_in_ring p tag
    count_one node
    pure node

-- `-EEXIST`
abbrev pub eexist : ℤ
eexist = negsuc 16

unfoldable pub insert_entries : Ptr → ℕ → ℕ → Ptr → M Mem ℤ
insert_entries node key tag value = do
  v ← load_node node
  if v.value == null
      then (do put_node node (record v { key = key; tag = tag; value = value }); pure (pos 1))
      else pure eexist

abbrev pub is_negative : ℤ → Bool
is_negative (pos n) = false
is_negative (negsuc n) = true

unfoldable pub hash_insert : Calloc → ℕ → Ptr → ℕ → Ptr → M Mem ℤ
unfolding hash_create insert_entries
hash_insert calloc fuel hp key value = do
  h ← load_hash hp
  node ← hash_create calloc fuel hp (hash_index h key) (hash_tag h key)
  error ← insert_entries node key (hash_tag h key) value
  if is_negative error then pure error else pure (pos 0)
