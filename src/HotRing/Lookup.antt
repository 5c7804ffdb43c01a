-- ===== src/HotRing/Lookup.antt =====
-- `__hash_get` on a well-formed table: what it returns and what it writes.
use jeopardy.Prelude.{
  ℕ, ◌+◌, ◌*◌, ◌^◌, ◌≡◌, ◌<◌, ◌≤◌, refl, Option, none, some, arith, false, inl, inr, Bool-cases,
  sym, ◌==◌, if◌then◌else◌, length,
}
use mathlib.Core.Path.{subst}
use jeopardy.Memory.{Ptr, null, write, read, read-write_self, Run, ok}
use jeopardy.HotRing.State.{Hash, Mem}
use jeopardy.HotRing.Table.{hash_index, hash_tag, tag_bits, get_head_node}
use jeopardy.HotRing.Get.{Got, not_found, hot, counted, head_counted, raw_hash_get, get_loop}
use jeopardy.HotRing.Order.{Walk-start}
use jeopardy.HotRing.Ring.{locate, walked, get_loop-locate}
use jeopardy.HotRing.Valid.{
  Ring, ring_size, first, items, IsRing, IsBucket, IsTable, index-lt_size, key-index_tag,
  Based-homes,
}

-- The head's counter is advanced.
abbrev pub head_touched : Mem → Ring → Mem
head_touched m r = record m { heads = write m.heads r.ptr (head_counted r.head) }

-- A search of the whole bucket, head first, and the counters that the access advances.
abbrev pub search_bucket : Mem → ℕ → Option Ring → Run Mem Got
search_bucket m key none = ok not_found m
search_bucket m key (some r) =
    let m' = head_touched m r in
    if r.node.key == key
    then ok (hot (first r)) (record m' { nodes = write m.nodes (first r) (counted r.node) })
    else walked m' (locate key (first r) r.rest)

-- Rounds for every node of the ring.
abbrev pub EnoughFor : ℕ → Option Ring → Type 0
EnoughFor fuel o = ring_size o ≤ fuel

pub search_ring :
    (fuel : ℕ) (m : Mem) (hp : Ptr) (h : Hash) (key i : ℕ) (r : Ring)
    → read m.hashes hp ≡ some h
    → hash_index h key ≡ i
    → key < 2 ^ h.n
    → IsRing m h i r
    → length r.rest < fuel
    → raw_hash_get fuel hp key m ≡ search_bucket m key (some r)
unfolding raw_hash_get get_head_node
search_ring fuel m hp h key i r loaded at small b enough =
    let nonnull : (r.ptr == null) ≡ false = ground arith in
    let split : key ≡ i * 2 ^ tag_bits h + hash_tag h key = rw (← at) (key-index_tag h key small) in
    let based = Based-homes h i (items r) b.homes in
    rw (loaded, at, b.slot, nonnull, b.loaded, read-write_self, b.begins)
      (elim (Bool-cases (r.node.key == key)) [
        | inl hit ↦ rw hit refl
        | inr miss ↦ rw miss (
            subst
              (λ k.
                get_loop fuel (first r) k (first r) r.node.list.addr (head_touched m r)
                ≡ walked (head_touched m r) (locate k (first r) r.rest))
              (sym split)
              (get_loop-locate fuel (first r) (i * 2 ^ tag_bits h) (hash_tag h key) r.node.tag
                (head_touched m r) (first r) r.node.list.addr r.node r.rest b.begins based.0 b.seg
                based.1 (Walk-start r.node.tag _ b.order) enough))
      ])

-- On a well-formed table and a key of `n` bits, with fuel for the bucket's ring, the walk of
-- `__hash_get` that stops early returns what a search of the whole bucket returns, and leaves the
-- memory that search leaves.
pub raw_hash_get-search_bucket :
    (fuel : ℕ) (m : Mem) (hp : Ptr) (h : Hash) (rings : ℕ → Option Ring) (key : ℕ)
    → IsTable m hp h rings
    → key < 2 ^ h.n
    → EnoughFor fuel (rings (hash_index h key))
    → raw_hash_get fuel hp key m ≡ search_bucket m key (rings (hash_index h key))
raw_hash_get-search_bucket fuel m hp h rings key t small enough =
    by_bucket (rings (hash_index h key))
      (t.bucket (hash_index h key) (index-lt_size h key t.narrow t.split t.sized small)) enough
  where
    by_bucket :
        (o : Option Ring)
        → IsBucket m h (hash_index h key) o
        → EnoughFor fuel o
        → raw_hash_get fuel hp key m ≡ search_bucket m key o
    by_bucket none b e = unfold raw_hash_get in rw (t.loaded, b) refl
    by_bucket (some r) b e =
        search_ring fuel m hp h key (hash_index h key) r t.loaded refl small b e
