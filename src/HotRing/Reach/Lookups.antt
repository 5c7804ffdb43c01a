-- ===== src/HotRing/Reach/Lookups.antt =====
-- hotring/hotring.c: every search in a reachable memory finds what the caller knows.
use jeopardy.Prelude.{ℕ, ◌+◌, ◌^◌, ◌≤◌, ◌<◌, ◌∙◌}
use jeopardy.Memory.{Ptr}
use jeopardy.HotRing.State.{Mem, Calloc}
use jeopardy.HotRing.Get.{raw_hash_get}
use jeopardy.HotRing.Hotspot.{Doubles}
use jeopardy.HotRing.Access.{raw_hash_get-view}
use jeopardy.HotRing.RoundTrip.{Answers}
use jeopardy.HotRing.Adding.{IsCalloc}
use jeopardy.HotRing.Reach.{
  Known, Reach, starts, inserts, searches, gets, deletes_absent, deletes_behind, deletes_head,
}
use jeopardy.HotRing.Reach.Stands.{
  Stands, started, in_hash, for_ring, searched, got_one, deleted_none, inserted_one,
}
use jeopardy.HotRing.Reach.Deletes.{deleted_behind, deleted_head}

module _ (calloc : Calloc) (doubles : Doubles) (nbits kbits : ℕ) where
  module _ (c : IsCalloc calloc) (split : kbits ≤ nbits) (narrow : nbits < 2 ^ 64)
      (int_shift : nbits ≤ kbits + 30) (small : kbits ≤ 30) where
    Reach-Stands :
        {hp : Ptr} {inserted : ℕ} {known : Known} {m : Mem}
        → Reach calloc doubles nbits kbits hp inserted known m
        → Stands calloc doubles nbits kbits hp inserted known m
    Reach-Stands (starts m m' hp ne fits run) =
        started calloc doubles nbits kbits split narrow int_shift small m m' hp ne fits run
    Reach-Stands
          (inserts {hp} {inserted} {known} {m} fuel key value m' r enough lt absent room run) =
        inserted_one calloc doubles nbits kbits c hp inserted known m (Reach-Stands r) fuel key
          enough lt value absent room m' run
    Reach-Stands (searches {hp} {inserted} {known} {m} fuel key got m' r enough lt run) =
        searched calloc doubles nbits kbits c hp inserted known m (Reach-Stands r) fuel key enough
          lt got m' run
    Reach-Stands (gets {hp} {inserted} {known} {m} fuel key res m' r enough lt few run) =
        got_one calloc doubles nbits kbits c hp inserted known m (Reach-Stands r) fuel key enough lt
          res m' few run
    Reach-Stands (deletes_absent {hp} {inserted} {known} {m} fuel key b m' r enough lt absent run) =
        deleted_none calloc doubles nbits kbits c hp inserted known m (Reach-Stands r) fuel key
          enough lt b m' absent run
    Reach-Stands
          (deletes_behind {hp} {inserted} {known} {m} fuel key q p m1 b m' r enough lt found run) =
        deleted_behind calloc doubles nbits kbits c hp inserted known m (Reach-Stands r) fuel key
          enough lt m1 q p b m' found run
    Reach-Stands
          (deletes_head {hp} {inserted} {known} {m} fuel key q m1 b m' r enough lt found run) =
        deleted_head calloc doubles nbits kbits c hp inserted known m (Reach-Stands r) fuel key
          enough lt m1 q b m' found run

    -- A table that `hash_alloc` makes, with room for it, for `kbits` at most `nbits` and at most 30 and
    -- `nbits` at most `kbits` + 30 and below 2 ^ 64, where `calloc` keeps to what the code relies on:
    -- after insertions of new keys of `nbits` bits with room for them, searches, deletions and `hash_get`
    -- calls for such keys, the latter with fewer than four requests counted, in any order and each with
    -- as much fuel as there were insertions before it, `__hash_get` with as much fuel as there were
    -- insertions returns, for every such key, the value it was last inserted with, or no node if it was
    -- not inserted, or was deleted since, or if a key at the head of its bucket was deleted since.
    pub Reach-Answers :
        {hp : Ptr} {inserted : ℕ} {known : Known} {m : Mem}
        → Reach calloc doubles nbits kbits hp inserted known m
        → (fuel key : ℕ) → inserted ≤ fuel
        → key < 2 ^ nbits
        → Answers (raw_hash_get fuel hp key) m (known key)
    Reach-Answers {hp} {inserted} {known} {m} r fuel key enough lt =
        let s = Reach-Stands r in
        let a =
          raw_hash_get-view fuel m hp s.hash s.rings key s.table
            (in_hash calloc doubles nbits kbits c hp inserted known m s fuel key enough lt)
            (for_ring calloc doubles nbits kbits c hp inserted known m s fuel key enough lt) in
        record { got = a.got; after = a.after; returns = a.returns; value = a.answers ∙ s.same key }
