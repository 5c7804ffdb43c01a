-- ===== src/ChainHash/Table.antt =====
-- chaining_hash/hash.c: `hash_get`, `hash_lookup`, `__hash_create`, `insert_entries`, `hash_insert`.
use jeopardy.Prelude.{ℕ, Bool, true, false, Option, none, some, ◌==◌, if◌then◌else◌, ℤ, pos, negsuc}
use jeopardy.Memory.{Ptr, null, write, M, pure, modify, ◌>>=◌, ◌>>◌}
use jeopardy.DoubleList.Links.{init_list_head, list_add_tail}
use jeopardy.ChainHash.State.{
  Mem, Calloc, link_of, on_links, load_hash, load_head, load_item, load_slot, put_slot, head_alloc,
  hash_node_alloc, hash_code,
}

-- The node written through `nodep` where the result is 1, and nothing where it is 0.
unfoldable pub hash_get : Ptr → ℕ → M Mem (Option Ptr)
unfolding hash_code
hash_get hp key = do
  h ← load_hash hp
  index ← hash_code h key
  p ← load_slot h index
  if p == null then pure none else (do node ← load_head p; pure (some node))

-- The address of the first field of what the slot points to.
unfoldable pub hash_lookup : Ptr → ℕ → M Mem Ptr
unfolding hash_code
hash_lookup hp key = do
  h ← load_hash hp
  index ← hash_code h key
  p ← load_slot h index
  if p == null then pure null else pure p

module _ (calloc : Calloc) where
  -- The branch of a bucket that has a chain.
  unfoldable pub create_in_chain : Ptr → M Mem Ptr
  unfolding hash_node_alloc
  create_in_chain p = do
    head_node ← load_head p
    node ← hash_node_alloc calloc
    on_links (list_add_tail (link_of node) (link_of head_node))
    pure node

  -- The branch of an empty bucket.
  unfoldable pub create_in_empty : Ptr → ℕ → M Mem Ptr
  unfolding head_alloc hash_node_alloc
  create_in_empty hp index = do
    p ← head_alloc calloc
    put_slot hp index p
    node ← hash_node_alloc calloc
    on_links (init_list_head (link_of node))
    load_head p
    modify λ m. record m { heads = write m.heads p node }
    pure node

  -- `__hash_create`, which returns 0 and writes the node through `nodep`.
  unfoldable pub hash_create : Ptr → ℕ → M Mem Ptr
  unfolding create_in_chain create_in_empty
  hash_create hp index = do
    h ← load_hash hp
    p ← load_slot h index
    if p == null then create_in_empty hp index else create_in_chain p

-- `-EEXIST`
abbrev pub eexist : ℤ
eexist = negsuc 16

unfoldable pub insert_entries : Ptr → Ptr → M Mem ℤ
insert_entries node item = do
  old ← load_item node
  if old == null
      then (do modify λ m. record m { items = write m.items node item }; pure (pos 1))
      else pure eexist

abbrev pub is_negative : ℤ → Bool
is_negative (pos n) = false
is_negative (negsuc n) = true

unfoldable pub hash_insert : Calloc → Ptr → ℕ → Ptr → M Mem ℤ
unfolding hash_code hash_create insert_entries
hash_insert calloc hp key item = do
  h ← load_hash hp
  index ← hash_code h key
  node ← hash_create calloc hp index
  error ← insert_entries node item
  if is_negative error then pure error else pure (pos 0)
