-- ===== src/Tests/ListSamples.antt =====
-- Two rings of links, and a link on its own.
use jeopardy.Prelude.{refl, arith, [], ◌∷◌, some}
use jeopardy.Memory.{read}
use jeopardy.DoubleList.Links.{Links}
use jeopardy.DoubleList.Path.{Circle, Allocated}

-- 8 → 24 → 40 → 8, the ring 56 → 72 → 56, and the cleared link 88.
abbrev pub two_rings : Links
two_rings = record {
  next =
      (8, some 24)
      ∷ (24, some 40)
      ∷ (40, some 8)
      ∷ (56, some 72)
      ∷ (72, some 56)
      ∷ (88, some 0)
      ∷ [];
  prev =
      (8, some 40)
      ∷ (24, some 8)
      ∷ (40, some 24)
      ∷ (56, some 72)
      ∷ (72, some 56)
      ∷ (88, some 0)
      ∷ [];
}

pub long_ring : Circle two_rings 8 (24 ∷ 40 ∷ [])
unfolding read
long_ring = (
  ((refl, refl), ((refl, refl), (refl, refl))),
  ((omega arith, (omega arith, tt)), ((omega arith, tt), (tt, tt))),
)

pub short_ring : Circle two_rings 56 (72 ∷ [])
unfolding read
short_ring = (((refl, refl), (refl, refl)), ((omega arith, tt), (tt, tt)))

pub spare : Allocated two_rings 88
unfolding read
spare = record { next = 0; prev = 0; has_next = refl; has_prev = refl }
