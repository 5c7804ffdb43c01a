-- ===== src/Tests/ChainExamples.antt =====
-- The theorems of the hash table of chains at a concrete table, and runs of the model.
use jeopardy.Prelude.{◌≡◌, ◌<◌, arith}
use jeopardy.Memory.{ok}
use jeopardy.ChainHash.State.{hash_code}
use jeopardy.ChainHash.Table.{hash_get}
use jeopardy.ChainHash.Valid.{place_of, hash_code-lt_size}
use jeopardy.ChainHash.Insert.{first_of_bucket, hash_get-first, Inserted, hash_insert-appends}
use jeopardy.Tests.ChainSamples.{
  bump, bump-IsCalloc, small_hash, small_mem, small_buckets, small-IsTable,
}

hash_code-lt_size_example :
    (hash_code small_hash 9 small_mem ≡ ok (place_of small_hash 9) small_mem)
    × (place_of small_hash 9 < 4)
hash_code-lt_size_example = hash_code-lt_size small_mem small_hash 9 (omega arith) (omega arith)

hash_get-first_example :
    hash_get 4 9 small_mem ≡ ok (first_of_bucket (small_buckets (place_of small_hash 9))) small_mem
hash_get-first_example = hash_get-first small_mem 4 small_hash small_buckets small-IsTable 9

hash_insert-appends_example : Inserted bump small_mem 4 small_hash small_buckets 9 901
hash_insert-appends_example =
    hash_insert-appends small_mem 4 small_hash small_buckets small-IsTable 9 bump bump-IsCalloc 901
      (omega arith)
