-- ===== src/HotRing/Reach.antt =====
-- hotring/hotring.c: the memories that `hash_alloc` and then insertions of new keys, searches and
-- deletions lead to, against a map from keys to values.
use jeopardy.Prelude.{
  leb, ℕ, suc, ◌+◌, ◌^◌, ◌≡◌, ◌≢◌, ◌≤◌, ◌<◌, refl, sym, ◌∙◌, ap, inl, inr, Bool, true, false,
  Option, none, some, arith, ◌==◌, ==_iff, if◌then◌else◌, Bool-cases, pos,
}
use mathlib.Core.Path.{subst}
use jeopardy.Memory.{Ptr, null, read, Run, ok}
use jeopardy.HotRing.State.{Hash, Mem, Calloc}
use jeopardy.HotRing.Table.{hash_index, hash_alloc}
use jeopardy.HotRing.Create.{hash_insert}
use jeopardy.HotRing.Get.{Got, hot, cold, raw_hash_get}
use jeopardy.HotRing.Hotspot.{Doubles, hash_get}
use jeopardy.HotRing.Delete.{hotring_delete}
use jeopardy.HotRing.Founded.{mem_between}
use jeopardy.HotRing.Access.{value_at, raw_hash_get-view}
use jeopardy.HotRing.Request.{is_some, hash_get-view}
use jeopardy.HotRing.Dropped.{hotring_delete-absent}
use jeopardy.HotRing.Fresh.{empty_hash, allocated, hash_alloc-empty}
use jeopardy.HotRing.RoundTrip.{Answers}
use jeopardy.HotRing.Adding.{IsCalloc, HasRoom, hash_insert-adds}
use jeopardy.HotRing.Valid.{Ring, IsTable, ring_size, view}
pub mod Stands
pub mod Deletes
pub mod Lookups

-- The keys that a caller has inserted, with their values.
abbrev pub Known : Type 0
Known = ℕ → Option Ptr

abbrev pub known_with : Known → ℕ → Ptr → Known
known_with known key value k = if k == key then some value else known k

abbrev pub known_but : Known → ℕ → Known
known_but known key k = if k == key then none else known k

-- What is known of the keys in other buckets.
abbrev pub known_outside : Hash → Known → ℕ → Known
known_outside h known key k = if hash_index h k == hash_index h key then none else known k

-- There is room for a node, and for a head and then a node.
abbrev pub Room : Calloc → Mem → Ptr → ℕ → Ptr → Type 0
Room calloc m hp key value =
    (calloc.node m ≢ null)
    × (calloc.head m ≢ null)
    × ((h : Hash)
        → read m.hashes hp ≡ some h
        → calloc.node (mem_between m hp h key value (calloc.head m)) ≢ null)

module _ (calloc : Calloc) (doubles : Doubles) (nbits kbits : ℕ) where
  -- After `inserted` insertions, the caller knows `known`.
  pub data Reach : Ptr → ℕ → Known → Mem → Type 0 where
    starts :
        (m m' : Mem) (hp : Ptr)
        → calloc.hash m ≢ null
        → calloc.slots_fit m (2 ^ kbits) ≡ true
        → hash_alloc calloc nbits kbits m ≡ ok hp m'
        → Reach hp 0 (λ _. none) m'
    inserts :
        {hp : Ptr} {inserted : ℕ} {known : Known} {m : Mem} (fuel key : ℕ) (value : Ptr) (m' : Mem)
        → Reach hp inserted known m
        → inserted ≤ fuel
        → key < 2 ^ nbits
        → known key ≡ none
        → Room calloc m hp key value
        → hash_insert calloc fuel hp key value m ≡ ok (pos 0) m'
        → Reach hp (suc inserted) (known_with known key value) m'
    searches :
        {hp : Ptr} {inserted : ℕ} {known : Known} {m : Mem} (fuel key : ℕ) (got : Got) (m' : Mem)
        → Reach hp inserted known m
        → inserted ≤ fuel
        → key < 2 ^ nbits
        → raw_hash_get fuel hp key m ≡ ok got m'
        → Reach hp inserted known m'
    gets :
        {hp : Ptr} {inserted : ℕ} {known : Known} {m : Mem} (fuel key : ℕ) (res : Bool × Got × Ptr)
        (m' : Mem)
        → Reach hp inserted known m
        → inserted ≤ fuel
        → key < 2 ^ nbits
        → m.nr_request < 4
        → hash_get doubles calloc fuel hp key m ≡ ok res m'
        → Reach hp inserted known m'
    deletes_absent :
        {hp : Ptr} {inserted : ℕ} {known : Known} {m : Mem} (fuel key : ℕ) (deleted : Bool)
        (m' : Mem)
        → Reach hp inserted known m
        → inserted ≤ fuel
        → key < 2 ^ nbits
        → known key ≡ none
        → hotring_delete fuel hp key m ≡ ok deleted m'
        → Reach hp inserted known m'
    -- The key's node is not the first of its ring.
    deletes_behind :
        {hp : Ptr} {inserted : ℕ} {known : Known} {m : Mem} (fuel key : ℕ) (q p : Ptr) (m1 : Mem)
        (deleted : Bool) (m' : Mem)
        → Reach hp inserted known m
        → inserted ≤ fuel
        → key < 2 ^ nbits
        → raw_hash_get fuel hp key m ≡ ok (cold q p) m1
        → hotring_delete fuel hp key m ≡ ok deleted m'
        → Reach hp inserted (known_but known key) m'
    -- It is, and the keys of the bucket are lost with it.
    deletes_head :
        {hp : Ptr} {inserted : ℕ} {known : Known} {m : Mem} (fuel key : ℕ) (q : Ptr) (m1 : Mem)
        (deleted : Bool) (m' : Mem)
        → Reach hp inserted known m
        → inserted ≤ fuel
        → key < 2 ^ nbits
        → raw_hash_get fuel hp key m ≡ ok (hot q) m1
        → hotring_delete fuel hp key m ≡ ok deleted m'
        → Reach hp inserted (known_outside (empty_hash nbits kbits) known key) m'
