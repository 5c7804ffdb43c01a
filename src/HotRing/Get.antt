-- ===== src/HotRing/Get.antt =====
-- hotring.c: `__hash_get`, the search of a ring that counts the access and stops early.
use jeopardy.Prelude.{
  ℕ, zero, suc, ◌+◌, ◌%◌, ◌^◌, Bool, ◌&&◌, ◌||◌, Option, none, some, ltb, ◌==◌, if◌then◌else◌,
}
use jeopardy.Memory.{Ptr, null, M, out_of_fuel, pure, ◌>>=◌, ◌>>◌}
use jeopardy.HotRing.State.{Node, Head, Mem, load_node, load_head, load_hash, put_node, put_head}
use jeopardy.HotRing.Table.{hash_index, load_slot, get_head_node}

-- `hash_get_t`
pub data HashGet : Type 0 where
  get_not_found get_success get_access_hot get_access_cold : HashGet

-- The result, `*nodep` if it was written, and `*prevp`.
pub record Got : Type 0 where
  pub ret : HashGet
  pub node : Option Ptr
  pub prev : Ptr

abbrev pub not_found : Got
not_found = record { ret = get_not_found; node = none; prev = null }

abbrev pub hot : Ptr → Got
hot p = record { ret = get_access_hot; node = some p; prev = null }

abbrev pub cold : Ptr → Ptr → Got
cold p prev = record { ret = get_access_cold; node = some p; prev = prev }

-- `list.counter++` on 14 bits.
abbrev pub counted : Node → Node
counted v = let l = v.list in record v { list = record l { counter = (l.counter + 1) % 2 ^ 14 } }

-- `head_pointer->counter++` on 15 bits.
abbrev pub head_counted : Head → Head
head_counted h = record h { counter = (h.counter + 1) % 2 ^ 15 }

-- The three tests that end the walk between the keys `prev` and `next`.
unfoldable pub passed : ℕ → ℕ → ℕ → Bool
passed key prev next =
    (ltb prev key && ltb key next)
    || ((ltb key next && ltb next prev) || (ltb next prev && ltb prev key))

unfoldable pub get_loop : ℕ → Ptr → ℕ → Ptr → Ptr → M Mem Got
get_loop zero head key prev pos = λ _. out_of_fuel
get_loop (suc fuel) head key prev pos = if pos == head then pure not_found else do
  tmp ← load_node pos
  if tmp.key == key then (do put_node pos (counted tmp); pure (cold pos prev)) else do
    before ← load_node prev
    if passed key before.key tmp.key
        then pure not_found
        else get_loop fuel head key pos tmp.list.addr

unfoldable pub raw_hash_get : ℕ → Ptr → ℕ → M Mem Got
unfolding get_loop
raw_hash_get fuel hp key = do
  h ← load_hash hp
  p ← load_slot h (hash_index h key)
  if p == null then pure not_found else do
    head ← load_head p
    put_head p (head_counted head)
    node ← get_head_node p
    v ← load_node node
    if v.key == key
        then (do put_node node (counted v); pure (hot node))
        else get_loop fuel node key node v.list.addr
