-- ===== src/Tests/ReachExamples.antt =====
-- hotring/: the theorem on reachable tables, at an empty table with one key inserted.
use jeopardy.Prelude.{ℕ, ◌≡◌, refl, none, some, arith}
use jeopardy.Memory.{ok}
use jeopardy.HotRing.State.{Mem}
use jeopardy.HotRing.Table.{hash_alloc}
use jeopardy.HotRing.Valid.{IsTable, view}
use jeopardy.HotRing.Get.{raw_hash_get}
use jeopardy.HotRing.Adding.{Inserted, hash_insert-adds}
use jeopardy.HotRing.RoundTrip.{Answers}
use jeopardy.HotRing.Fresh.{allocated, empty_hash, hash_alloc-empty}
use jeopardy.HotRing.Reach.{Reach, Room, known_with, starts, inserts}
use jeopardy.HotRing.Reach.Lookups.{Reach-Answers}
use jeopardy.Tests.RingSamples.{bump, bump-IsCalloc, blank}
use jeopardy.Tests.RingExamples.{whole}

abbrev fresh : Mem
fresh = allocated bump 8 4 blank

started :
    (hash_alloc bump 8 4 blank ≡ ok 16 fresh)
    × IsTable fresh 16 (empty_hash 8 4) (λ _. none)
    × ((key : ℕ) → view (empty_hash 8 4) (λ _. none) key ≡ none)
started =
    hash_alloc-empty bump 8 4 blank (omega arith) (omega arith) (omega arith) (omega arith)
      (omega arith) refl

fresh-Room : Room bump fresh 16 0x13 702
fresh-Room = (omega arith, omega arith, λ h e. omega arith)

added : Inserted bump 4 fresh 16 (empty_hash 8 4) (λ _. none) 0x13 702
added =
    hash_insert-adds bump bump-IsCalloc 4 fresh 16 (empty_hash 8 4) (λ _. none) 0x13 702 started.1
      (omega arith) (fresh-Room.1, fresh-Room.2 (empty_hash 8 4) started.1.loaded) (omega arith)

added-Reach : Reach bump whole 8 4 16 1 (known_with (λ _. none) 0x13 702) added.after
added-Reach =
    inserts 4 0x13 702 added.after (starts blank fresh 16 (omega arith) refl started.0)
      (omega arith) (omega arith) refl fresh-Room added.returns

Reach-Answers_example : Answers (raw_hash_get 4 16 0x13) added.after (some 702)
Reach-Answers_example =
    Reach-Answers bump whole 8 4 bump-IsCalloc (omega arith) (omega arith) (omega arith)
      (omega arith) added-Reach 4 0x13 (omega arith) (omega arith)
