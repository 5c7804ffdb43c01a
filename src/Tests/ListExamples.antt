-- ===== src/Tests/ListExamples.antt =====
-- The theorems of the doubly linked lists at concrete rings.
use jeopardy.Prelude.{◌≡◌, arith, [], ◌∷◌}
use jeopardy.Memory.{ok}
use jeopardy.DoubleList.Links.{list_splice_init, list_for_each}
use jeopardy.DoubleList.Path.{Circle, Becomes}
use jeopardy.DoubleList.Splice.{list_splice_init-joins, list_for_each-visits}
use jeopardy.Tests.ListSamples.{two_rings, long_ring, short_ring}

list_splice_init-joins_example :
    (b : Becomes
      (list_splice_init 56 8)
      two_rings
      8
      (72 ∷ 24 ∷ 40 ∷ [])
      (56 ∷ 8 ∷ 72 ∷ 24 ∷ 40 ∷ []))
    × Circle b.after 56 []
list_splice_init-joins_example =
    list_splice_init-joins two_rings 56 8 (72 ∷ []) (24 ∷ 40 ∷ []) short_ring long_ring (
      (omega arith, (omega arith, (omega arith, tt))),
      ((omega arith, (omega arith, (omega arith, tt))), tt),
    )

list_for_each-visits_example : list_for_each 3 8 two_rings ≡ ok (24 ∷ 40 ∷ []) two_rings
list_for_each-visits_example =
    list_for_each-visits two_rings 8 (24 ∷ 40 ∷ []) 3 long_ring (omega arith)
