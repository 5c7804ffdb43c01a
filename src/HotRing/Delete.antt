-- ===== src/HotRing/Delete.antt =====
-- hotring.c: `hotring_delete`, and `hotring_delete_head` that a rehash uses.
use jeopardy.Prelude.{
  ℕ, zero, suc, ◌+◌, ◌*◌, ◌^◌, Bool, true, false, Option, none, some, ◌==◌, if◌then◌else◌,
}
use jeopardy.Memory.{Ptr, null, erase, M, out_of_fuel, pure, checked, modify, ◌>>=◌, ◌>>◌}
use jeopardy.HotRing.State.{
  Link, Mem, head_of_pointer, load_node, load_head, load_hash, put_head, list_del, free_node,
}
use jeopardy.HotRing.Table.{hash_index, load_slot, put_slot, get_head_node}
use jeopardy.HotRing.Get.{get_not_found, raw_hash_get}

-- `free(head_pointer)`, which does nothing at null.
abbrev pub free_head : Ptr → M Mem (Unit {0})
free_head p =
    if p == null
    then pure tt
    else (do load_head p; modify λ m. record m { heads = erase m.heads p })

-- `hotring_head_free_by_index`
unfoldable pub head_free_by_index : Ptr → ℕ → M Mem (Unit {0})
head_free_by_index hp index = do
  h ← load_hash hp
  p ← load_slot h index
  put_slot hp index null
  free_head p

-- `hotring_head_free`
unfoldable pub head_free : Ptr → ℕ → M Mem (Unit {0})
unfolding head_free_by_index
head_free hp key = do h ← load_hash hp; head_free_by_index hp (hash_index h key)

unfoldable pub hotring_delete : ℕ → Ptr → ℕ → M Mem Bool
unfolding head_free
hotring_delete fuel hp key = do
  got ← raw_hash_get fuel hp key
  elim got.ret [
    | get_not_found ↦ pure false
    | _ ↦ do
      target ← checked got.node
      if got.prev == null then pure tt else list_del got.prev target
      free_node target
      if got.prev == null then head_free hp key else pure tt
      pure true
  ]

-- The whole word `list.next`, its counter and flags included.
abbrev pub pointer_of_link : Link → ℕ
pointer_of_link l = l.addr + 2 ^ 48 * l.counter + 2 ^ 62 * l.occupied + 2 ^ 63 * l.rehash

-- `list_for_each` that keeps the last node, if there is one beside the head.
unfoldable pub last_loop : ℕ → Ptr → Option Ptr → Ptr → M Mem (Option Ptr)
last_loop zero head prev cur = λ _. out_of_fuel
last_loop (suc fuel) head prev cur =
    if cur == head
    then pure prev
    else (do v ← load_node cur; last_loop fuel head (some cur) v.list.addr)

unfoldable pub hotring_delete_head : ℕ → Ptr → ℕ → M Mem Bool
unfolding last_loop head_free_by_index
hotring_delete_head fuel hp index = do
  h ← load_hash hp
  p ← load_slot h index
  head_node ← get_head_node p
  v ← load_node head_node
  if pointer_of_link v.list == head_node
      then (do free_node head_node; head_free_by_index hp index; pure true)
      else do
        load_head p
        put_head p (head_of_pointer v.list.addr)
        last ← last_loop fuel head_node none v.list.addr
        prev ← checked last
        list_del prev head_node
        free_node head_node
        pure true
