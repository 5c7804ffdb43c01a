-- ===== src/HotRing/State.antt =====
-- The structs of hotring/hotring.h, and hotring/list.h: the words that the unions overlay, and the
-- operations on the list link. A node is named by the address of its link, which is its first field.
use jeopardy.Prelude.{ℕ, ◌/◌, ◌%◌, ◌^◌, Bool, List, ◌==◌, if◌then◌else◌}
use jeopardy.Memory.{Ptr, null, Cells, read, write, erase, M, checked, asks, modify, ◌>>=◌, ◌>>◌}

-- `struct list_head`: the 64-bit word `next`, whose low 48 bits are `addr`.
pub record Link : Type 0 where
  pub addr : Ptr
  pub counter : ℕ
  pub occupied : ℕ
  pub rehash : ℕ

-- A pointer stored to the whole word.
unfoldable pub link_of_pointer : Ptr → Link
link_of_pointer p = record {
  addr = p % 2 ^ 48;
  counter = p / 2 ^ 48 % 2 ^ 14;
  occupied = p / 2 ^ 62 % 2;
  rehash = p / 2 ^ 63 % 2;
}

pub record Node : Type 0 where
  pub list : Link
  pub tag : ℕ
  pub key : ℕ
  pub value : Ptr

-- `struct head`: the 64-bit word `node`, whose low 48 bits are `addr`.
pub record Head : Type 0 where
  pub addr : Ptr
  pub counter : ℕ
  pub active : ℕ

unfoldable pub head_of_pointer : Ptr → Head
head_of_pointer p = record {
  addr = p % 2 ^ 48;
  counter = p / 2 ^ 48 % 2 ^ 15;
  active = p / 2 ^ 63 % 2;
}

-- `struct hash`, with the array that `slots` points to.
pub record Hash : Type 0 where
  pub n : ℕ
  pub k : ℕ
  pub size : ℕ
  pub slots : List Ptr

-- The cells of each struct, and the variables `nr_request` and `cur_hash`.
pub record Mem : Type 0 where
  pub nodes : Cells Node
  pub heads : Cells Head
  pub hashes : Cells Hash
  pub nr_request : ℕ
  pub cur_hash : Ptr

-- What `calloc` returns in a memory; null when there is no room. `slots_fit m n` tells whether an
-- array of `n` slots is granted.
pub record Calloc : Type 0 where
  pub node : Mem → Ptr
  pub head : Mem → Ptr
  pub hash : Mem → Ptr
  pub slots_fit : Mem → ℕ → Bool

abbrev pub zero_node : Node
zero_node = record {
  list = record { addr = 0; counter = 0; occupied = 0; rehash = 0 };
  tag = 0;
  key = 0;
  value = null;
}

abbrev pub zero_head : Head
zero_head = record { addr = 0; counter = 0; active = 0 }

abbrev pub put_node : Ptr → Node → M Mem (Unit {0})
put_node p v = modify λ m. record m { nodes = write m.nodes p v }

abbrev pub put_head : Ptr → Head → M Mem (Unit {0})
put_head p v = modify λ m. record m { heads = write m.heads p v }

abbrev pub put_hash : Ptr → Hash → M Mem (Unit {0})
put_hash p v = modify λ m. record m { hashes = write m.hashes p v }

-- `*p`: a fault at null and at an address that holds no such struct.
abbrev pub load_node : Ptr → M Mem Node
load_node p m = checked (read m.nodes p) m

abbrev pub load_head : Ptr → M Mem Head
load_head p m = checked (read m.heads p) m

abbrev pub load_hash : Ptr → M Mem Hash
load_hash p m = checked (read m.hashes p) m

abbrev pub set_link : Ptr → Link → M Mem (Unit {0})
set_link p l = do v ← load_node p; put_node p (record v { list = l })

-- `prev->addr = iptr`
unfoldable pub set_addr : Ptr → ℕ → M Mem (Unit {0})
set_addr p iptr = do
  v ← load_node p
  let l = v.list
  put_node p (record v { list = record l { addr = iptr % 2 ^ 48 } })

-- `list_add(new, head)`: the link of `head`, its counter and flags included, is copied to `new`.
unfoldable pub list_add : Ptr → Ptr → M Mem (Unit {0})
unfolding set_addr
list_add new head = do h ← load_node head; set_link new h.list; set_addr head new

abbrev pub list_poison1 : Ptr
list_poison1 = 0x00100100

-- `list_del(prev, entry)`
unfoldable pub list_del : Ptr → Ptr → M Mem (Unit {0})
unfolding set_addr link_of_pointer
list_del prev entry = do
  e ← load_node entry
  set_addr prev e.list.addr
  set_link entry (link_of_pointer list_poison1)

-- `free(node)`, which must be allocated.
abbrev pub free_node : Ptr → M Mem (Unit {0})
free_node p = do load_node p; modify λ m. record m { nodes = erase m.nodes p }

module _ (calloc : Calloc) where
  unfoldable pub hash_node_alloc : M Mem Ptr
  hash_node_alloc = do
    p ← asks calloc.node
    if p == null then asks (λ _. null) else (do put_node p zero_node; asks λ _. p)

  unfoldable pub head_alloc : M Mem Ptr
  head_alloc = do
    p ← asks calloc.head
    if p == null then asks (λ _. null) else (do put_head p zero_head; asks λ _. p)
