-- ===== src/HotRing/Table.antt =====
-- hotring.h `hashCode`, and hotring.c: `hash_alloc` and the reads of a bucket's head.
use jeopardy.Prelude.{
  leb, ◌&&◌, ℕ, ◌+◌, ◌-◌, ◌/◌, ◌%◌, ◌^◌, Option, none, some, ◌==◌, if◌then◌else◌, get_elem?, set,
  replicate,
}
use jeopardy.Memory.{Ptr, null, M, pure, crash, checked, asks, modify, ◌>>=◌, ◌>>◌}
use jeopardy.HotRing.State.{Hash, Mem, Calloc, load_head, load_hash, put_hash}

-- `h->n - h->k` on `unsigned long`.
abbrev pub tag_bits : Hash → ℕ
tag_bits h = (h.n + 2 ^ 64 - h.k) % 2 ^ 64

-- The tag: the low bits of the `n`-bit hash value. The shifts are defined for `n` below 64 and for
-- `n - k` up to 30; the invariant of a table asks for the second.
unfoldable pub hash_tag : Hash → ℕ → ℕ
hash_tag h key = key % 2 ^ h.n % 2 ^ tag_bits h

-- The index: what is left of the key itself, not of its hash value.
unfoldable pub hash_index : Hash → ℕ → ℕ
hash_index h key = key / 2 ^ tag_bits h

-- `h->slots[index]`
abbrev pub load_slot : Hash → ℕ → M Mem Ptr
load_slot h index = checked (get_elem? h.slots index)

-- `h->slots[index] = p`
abbrev pub put_slot : Ptr → ℕ → Ptr → M Mem (Unit {0})
put_slot hp index p = do
  h ← load_hash hp
  load_slot h index
  put_hash hp (record h { slots = set h.slots index p })

-- `1 << kbits` is an `int`; without the array the loop over the slots writes through null.
unfoldable pub hash_alloc : Calloc → ℕ → ℕ → M Mem Ptr
hash_alloc calloc nbits kbits = do
  ret ← asks calloc.hash
  let size = 2 ^ kbits
  fits ← asks λ m. calloc.slots_fit m size
  if ret == null
      then pure tt
      else (if leb kbits 30 && fits
          then put_hash ret
              (record { n = nbits; k = kbits; size = size; slots = replicate size null })
          else crash)
  modify λ m. record m { cur_hash = ret }
  pure ret

unfoldable pub get_head_node : Ptr → M Mem Ptr
get_head_node p = if p == null then pure null else (do h ← load_head p; pure h.addr)

-- `__hash_get_first`: the head node of a bucket, if the bucket has a ring.
unfoldable pub hash_get_first : Ptr → ℕ → M Mem (Option Ptr)
unfolding get_head_node
hash_get_first hp index = do
  h ← load_hash hp
  p ← load_slot h index
  if p == null then pure none else (do node ← get_head_node p; pure (some node))
