-- ===== src/Tests/RingExamples.antt =====
-- hotring/: the theorems at the small tables.
use jeopardy.Prelude.{
  ◌/◌, ltb, ◌==◌, if◌then◌else◌, ℕ, ◌*◌, ◌+◌, ◌≤◌, ◌≡◌, refl, Option, none, some, arith,
}
use jeopardy.Memory.{read, Run, ok, fault, ◌>>◌}
use jeopardy.HotRing.State.{Mem}
use jeopardy.HotRing.Table.{hash_index, get_head_node}
use jeopardy.HotRing.Get.{passed, not_found, raw_hash_get, cold, counted}
use jeopardy.HotRing.Create.{hash_insert}
use jeopardy.HotRing.Delete.{hotring_delete}
use jeopardy.HotRing.Access.{Accessed, raw_hash_get-view}
use jeopardy.HotRing.Hotspot.{Doubles, income_from}
use jeopardy.HotRing.Coldest.{IsDoubles}
use jeopardy.HotRing.Ring.{locate, replace}
use jeopardy.HotRing.Amounts.{occurrences}
use jeopardy.HotRing.Count.{replaced, head_replaced}
use jeopardy.HotRing.Settled.{Settled, hash_get-shifts}
use jeopardy.HotRing.Shifted.{Shifted, do_hotspot_shift-turns}
use jeopardy.HotRing.Request.{with_requests, with_requests-IsTable, Answered, hash_get-view}
use jeopardy.HotRing.Adding.{Inserted, hash_insert-adds}
use jeopardy.HotRing.RoundTrip.{Answers, insert_then_get, raw_hash_get-hash_insert_self}
use jeopardy.HotRing.Removed.{Deleted, hotring_delete-behind}
use jeopardy.HotRing.Dropped.{Dropped, hotring_delete-head}
use jeopardy.HotRing.Range.{wide_key-fault}
use jeopardy.HotRing.Valid.{items, ring_size, put_ring}
use jeopardy.Tests.RingSamples.{
  bump, bump-IsCalloc, pair_mem, pair_hash, pair_ring, pair_rings, pair-IsTable, counted_mem,
  node_b, counted_ring, counted_rings, counted-IsTable,
}

pair_size : (j : ℕ) → ring_size (pair_rings j) + 1 ≤ 4
pair_size j = ground arith

raw_hash_get-hash_insert_self_example :
    Answers (insert_then_get bump 4 4 0x13 702 0x13) pair_mem (some 702)
unfolding hash_index
raw_hash_get-hash_insert_self_example =
    raw_hash_get-hash_insert_self bump bump-IsCalloc 4 pair_mem 4 pair_hash pair_rings 0x13 702
      pair-IsTable (omega arith) (omega arith) pair_size refl

hash_insert-adds_example : Inserted bump 4 pair_mem 4 pair_hash pair_rings 0x13 702
unfolding hash_index
hash_insert-adds_example =
    hash_insert-adds bump bump-IsCalloc 4 pair_mem 4 pair_hash pair_rings 0x13 702 pair-IsTable
      (omega arith) (omega arith) (omega arith)

raw_hash_get-view_example : Accessed 4 pair_mem 4 pair_hash pair_rings 0x15
unfolding hash_index
raw_hash_get-view_example =
    raw_hash_get-view 4 pair_mem 4 pair_hash pair_rings 0x15 pair-IsTable (omega arith)
      (omega arith)

-- An arithmetic to stand for `double`.
abbrev pub whole : Doubles
whole = record {
  Double = ℕ;
  of_nat = λ n. n;
  plus = λ a b. a + b;
  times = λ a b. a * b;
  divided = λ a b. if b == 0 then 0 else a / b;
  less = ltb;
  equal = λ a b. a == b;
}

whole-IsDoubles : IsDoubles whole
whole-IsDoubles = record { equal_self = λ x y lt. ground arith }

-- The second node is the hot one: the ring turns to it.
do_hotspot_shift-turns_example :
    Shifted whole 4 (counted_mem 2 1 10) 4 pair_hash (counted_rings 2 1 10) 1 (counted_ring 2 1 10)
unfolding income_from
do_hotspot_shift-turns_example =
    do_hotspot_shift-turns whole whole-IsDoubles 4 (counted_mem 2 1 10) 4 pair_hash
      (counted_rings 2 1 10) 1 (counted_ring 2 1 10) (counted-IsTable 2 1 10) (omega arith) refl
      (omega arith) (omega arith) refl

-- The fifth request: the second node is found, and the ring turns to it.
abbrev fifth : Mem
fifth = with_requests 4 (counted_mem 2 1 10)

fifth_keys : (k : ℕ) → occurrences k (items (counted_ring 2 1 10)) ≤ 1
unfolding occurrences
fifth_keys k = ground arith

hash_get-shifts_example :
    (let r' = replaced 32 (counted (node_b 2 1 10)) (head_replaced (counted_ring 2 1 10)) in
      Settled whole bump 4 fifth 4 pair_hash
        (counted_rings 2 1 10)
        0x15
        (cold 32 16)
        r'
        (put_ring (counted_rings 2 1 10) (hash_index pair_hash 0x15) (some r')))
unfolding income_from locate hash_index replace
hash_get-shifts_example =
    hash_get-shifts whole bump 4 whole-IsDoubles fifth 4 pair_hash (counted_rings 2 1 10) 0x15
      (counted_ring 2 1 10) 32 (node_b 2 1 10) 16
      (with_requests-IsTable 4 (counted_mem 2 1 10) pair_hash 4 (counted_rings 2 1 10)
        (counted-IsTable 2 1 10))
      (omega arith) refl refl refl fifth_keys (omega arith) (omega arith) refl (omega arith)
      (omega arith)

hash_get-view_example : Answered whole bump 4 pair_mem 4 pair_hash pair_rings 0x15
unfolding hash_index
hash_get-view_example =
    hash_get-view whole bump 4 pair_mem 4 pair_hash pair_rings 0x15 pair-IsTable (omega arith)
      (omega arith) (omega arith)

hotring_delete-behind_example : Deleted 4 pair_mem 4 pair_hash pair_rings 0x15 pair_ring
unfolding hash_index
hotring_delete-behind_example =
    hotring_delete-behind 4 pair_mem 4 pair_hash pair_rings 0x15 pair_ring pair-IsTable
      (omega arith) refl (omega arith) (omega arith) (λ e. cc e)

hotring_delete-head_example : Dropped 4 pair_mem 4 pair_hash pair_rings 0x12
unfolding hash_index
hotring_delete-head_example =
    hotring_delete-head 4 pair_mem 4 pair_hash pair_rings 0x12 pair_ring pair-IsTable (omega arith)
      refl (omega arith) refl

wide_key-fault_example :
    (raw_hash_get 4 4 0x112 pair_mem ≡ fault)
    × (hash_insert bump 4 4 0x112 702 pair_mem ≡ fault)
    × (hotring_delete 4 4 0x112 pair_mem ≡ fault)
wide_key-fault_example =
    wide_key-fault bump 4 pair_mem 4 pair_hash pair_rings 0x112 702 pair-IsTable (omega arith)

-- What a run returns, without the memory.
result_of : {A : Type 0} → Run Mem A → Option A
result_of (ok a m) = some a
result_of _ = none

search_runs : result_of (raw_hash_get 4 4 0x15 pair_mem) ≡ some (cold 32 16)
unfolding result_of raw_hash_get read hash_index get_head_node passed
search_runs = refl

-- The other key of the bucket is not found once the head is deleted.
head_deletion_runs :
    result_of ((do hotring_delete 4 4 0x12; raw_hash_get 4 4 0x15) pair_mem) ≡ some not_found
unfolding search_runs hotring_delete
head_deletion_runs = refl
