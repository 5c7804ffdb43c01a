-- ===== src/DoubleList/Links.antt =====
-- chaining_hash/list.h: `struct list_head` and its operations. Each field has its own cells: the
-- words `next` and `prev` at the address of a link.
use jeopardy.Prelude.{ℕ, zero, suc, Bool, List, [], ◌∷◌, ◌==◌, if◌then◌else◌}
use jeopardy.Memory.{Ptr, Cells, read, write, M, out_of_fuel, pure, checked, modify, ◌>>=◌, ◌>>◌}

pub record Links : Type 0 where
  pub next : Cells Ptr
  pub prev : Cells Ptr

-- `p->next` and `p->prev`
unfoldable pub next_of : Ptr → M Links Ptr
next_of p c = checked (read c.next p) c

unfoldable pub prev_of : Ptr → M Links Ptr
prev_of p c = checked (read c.prev p) c

-- `p->next = q` and `p->prev = q`
unfoldable pub set_next : Ptr → Ptr → M Links (Unit {0})
unfolding next_of
set_next p q = do next_of p; modify λ c. record c { next = write c.next p q }

unfoldable pub set_prev : Ptr → Ptr → M Links (Unit {0})
unfolding prev_of
set_prev p q = do prev_of p; modify λ c. record c { prev = write c.prev p q }

-- `INIT_LIST_HEAD`
unfoldable pub init_list_head : Ptr → M Links (Unit {0})
unfolding set_next set_prev
init_list_head p = do set_next p p; set_prev p p

-- `__list_add`
unfoldable pub add_between : Ptr → Ptr → Ptr → M Links (Unit {0})
unfolding set_next set_prev
add_between new prev next = do
  set_prev next new
  set_next new next
  set_prev new prev
  set_next prev new

unfoldable pub list_add : Ptr → Ptr → M Links (Unit {0})
unfolding add_between
list_add new head = do next ← next_of head; add_between new head next

unfoldable pub list_add_tail : Ptr → Ptr → M Links (Unit {0})
unfolding add_between
list_add_tail new head = do prev ← prev_of head; add_between new prev head

-- `__list_del`
unfoldable pub join : Ptr → Ptr → M Links (Unit {0})
unfolding set_next set_prev
join prev next = do set_prev next prev; set_next prev next

abbrev pub list_poison1 : Ptr
list_poison1 = 0x00100100

abbrev pub list_poison2 : Ptr
list_poison2 = 0x00200200

-- The part that the deletions share.
unfoldable pub unlink : Ptr → M Links (Unit {0})
unfolding join next_of prev_of
unlink entry = do prev ← prev_of entry; next ← next_of entry; join prev next

unfoldable pub list_del : Ptr → M Links (Unit {0})
unfolding unlink
list_del entry = do unlink entry; set_next entry list_poison1; set_prev entry list_poison2

unfoldable pub list_del_init : Ptr → M Links (Unit {0})
unfolding unlink init_list_head
list_del_init entry = do unlink entry; init_list_head entry

unfoldable pub list_move : Ptr → Ptr → M Links (Unit {0})
unfolding unlink list_add
list_move list head = do unlink list; list_add list head

unfoldable pub list_move_tail : Ptr → Ptr → M Links (Unit {0})
unfolding unlink list_add_tail
list_move_tail list head = do unlink list; list_add_tail list head

unfoldable pub list_empty : Ptr → M Links Bool
unfolding next_of
list_empty head = do next ← next_of head; pure (next == head)

-- `__list_splice`
unfoldable pub splice : Ptr → Ptr → M Links (Unit {0})
unfolding set_next set_prev
splice list head = do
  first ← next_of list
  last ← prev_of list
  at ← next_of head
  set_prev first head
  set_next head first
  set_next last at
  set_prev at last

unfoldable pub list_splice : Ptr → Ptr → M Links (Unit {0})
unfolding list_empty splice
list_splice list head = do empty ← list_empty list; if empty then pure tt else splice list head

unfoldable pub list_splice_init : Ptr → Ptr → M Links (Unit {0})
unfolding list_empty splice init_list_head
list_splice_init list head = do
  empty ← list_empty list
  if empty then pure tt else (do splice list head; init_list_head list)

-- `list_for_each`, which visits the links from `pos` up to the head.
unfoldable pub for_each : ℕ → Ptr → Ptr → M Links (List Ptr)
for_each zero head pos = λ _. out_of_fuel
for_each (suc fuel) head pos =
    if pos == head
    then pure []
    else do next ← next_of pos; rest ← for_each fuel head next; pure (pos ∷ rest)

unfoldable pub list_for_each : ℕ → Ptr → M Links (List Ptr)
unfolding for_each
list_for_each fuel head = do next ← next_of head; for_each fuel head next
