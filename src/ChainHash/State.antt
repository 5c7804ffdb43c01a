-- ===== src/ChainHash/State.antt =====
-- chaining_hash/hash.h: the structs of the table, and the allocations of hash.c.
use jeopardy.Prelude.{
  ℕ, ◌+◌, ◌-◌, ◌%◌, ◌^◌, Bool, List, ltb, ◌==◌, if◌then◌else◌, get_elem?, set, replicate,
}
use jeopardy.Memory.{
  Ptr, null, Cells, read, write, Run, ok, fault, out_of_fuel, M, pure, crash, checked, asks, modify,
  ◌>>=◌, ◌>>◌,
}
use jeopardy.DoubleList.Links.{Links}

-- `struct hash`, with the array that `slots` points to.
pub record Hash : Type 0 where
  pub size : ℕ
  pub slots : List Ptr

-- A `struct hash_node` at `p` has `item` at `p` and the link `list` at `p + 8`. A `struct head` is the
-- pointer `node`.
pub record Mem : Type 0 where
  pub links : Links
  pub items : Cells Ptr
  pub heads : Cells Ptr
  pub hashes : Cells Hash

-- `&p->list`
abbrev pub link_of : Ptr → Ptr
link_of p = p + 8

-- What `calloc` returns in a memory; null when there is no room. `slots_fit m n` tells whether an
-- array of `n` slots is granted.
pub record Calloc : Type 0 where
  pub node : Mem → Ptr
  pub head : Mem → Ptr
  pub hash : Mem → Ptr
  pub slots_fit : Mem → ℕ → Bool

-- An operation on links alone.
abbrev pub links_done : {A : Type 0} → Mem → Run Links A → Run Mem A
links_done m (ok a c) = ok a (record m { links = c })
links_done m fault = fault
links_done m out_of_fuel = out_of_fuel

abbrev pub on_links : {A : Type 0} → M Links A → M Mem A
on_links f m = links_done m (f m.links)

-- A node with every word cleared.
abbrev pub cleared : Mem → Ptr → Mem
cleared m p = record m {
  links = record {
    next = write m.links.next (link_of p) 0;
    prev = write m.links.prev (link_of p) 0;
  };
  items = write m.items p null;
}

abbrev pub load_hash : Ptr → M Mem Hash
load_hash p m = checked (read m.hashes p) m

abbrev pub load_head : Ptr → M Mem Ptr
load_head p m = checked (read m.heads p) m

abbrev pub load_item : Ptr → M Mem Ptr
load_item p m = checked (read m.items p) m

-- `h->slots[index]`, and the write to it.
abbrev pub load_slot : Hash → ℕ → M Mem Ptr
load_slot h index = checked (get_elem? h.slots index)

abbrev pub put_slot : Ptr → ℕ → Ptr → M Mem (Unit {0})
put_slot hp index p = do
  h ← load_hash hp
  load_slot h index
  modify λ m. record m { hashes = write m.hashes hp (record h { slots = set h.slots index p }) }

module _ (calloc : Calloc) where
  unfoldable pub head_alloc : M Mem Ptr
  head_alloc = do
    p ← asks calloc.head
    if p == null
        then pure null
        else (do modify λ m. record m { heads = write m.heads p null }; pure p)

  unfoldable pub hash_node_alloc : M Mem Ptr
  hash_node_alloc = do
    p ← asks calloc.node
    if p == null then pure null else (do modify λ m. cleared m p; pure p)

  -- The slots that `calloc` does not grant are the null pointer: no slot at all.
  unfoldable pub hash_alloc : ℕ → M Mem Ptr
  hash_alloc size = do
    p ← asks calloc.hash
    fits ← asks λ m. calloc.slots_fit m size
    if p == null then pure null else (do
      modify λ m. record m {
        hashes =
            write m.hashes p
              (record { size = size; slots = if fits then replicate size null else List.[] });
      }
      pure p)

-- The low 32 bits as an `int`, converted to the 64 bits of an `unsigned long`.
abbrev pub int_word : ℕ → ℕ
int_word x = let w = x % 2 ^ 32 in if ltb w (2 ^ 31) then w else w + (2 ^ 64 - 2 ^ 32)

-- `hashCode`, where the key is converted to `int`, and the result too; the remainder by 0 is a fault.
unfoldable pub hash_code : Hash → ℕ → M Mem ℕ
hash_code h key = if h.size == 0 then crash else pure (int_word (int_word key % h.size))
