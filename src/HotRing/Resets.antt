-- ===== src/HotRing/Resets.antt =====
-- hotring.c: the loops of `do_hotspot_shift` over a ring: the counters read and set to 0, and the node of
-- a number.
use jeopardy.Prelude.{
  All, ℕ, zero, suc, ◌+◌, ◌≤◌, ◌<◌, ◌≡◌, ◌≢◌, refl, sym, ◌∙◌, ap, List, [], ◌∷◌, ◌++◌, some, arith,
  leb, length, Bool-cases, ◌==◌, true, false, inl, inr,
}
use jeopardy.Memory.{Ptr, Cells, read, write, read-write_self, read-write_ne, ok}
use jeopardy.HotRing.State.{Node, Mem}
use jeopardy.HotRing.Hotspot.{reset, counters_loop, hottest_loop}
use jeopardy.HotRing.Ring.{Item, tags, Seg, Seg-write, Outside, Apart}
use jeopardy.HotRing.Rotate.{Course}
use jeopardy.HotRing.Valid.{find_value}

abbrev pub reset_items : List Item → List Item
reset_items [] = []
reset_items ((q, v) ∷ xs) = (q, reset v) ∷ reset_items xs

abbrev pub counts : List Item → List ℕ
counts [] = []
counts ((q, v) ∷ xs) = v.list.counter ∷ counts xs

abbrev pub reset_all : Cells Node → List Item → Cells Node
reset_all c [] = c
reset_all c ((q, v) ∷ xs) = reset_all (write c q (reset v)) xs

pub counters_loop_resets :
    (fuel : ℕ) (head : Ptr) (n : ℕ) (p : Ptr) (m : Mem) (xs : List Item)
    → Seg m.nodes head p xs
    → Apart xs
    → length xs < fuel
    → n + length xs ≤ 100000
    → counters_loop fuel head n p m ≡ ok (counts xs) (record m { nodes = reset_all m.nodes xs })
unfolding counters_loop
counters_loop_resets zero head n p m xs s a enough few = absurd (omega arith)
counters_loop_resets (suc fuel) head n p m [] s a enough few =
    let stop : (p == head) ≡ true = ground arith in rw stop refl
counters_loop_resets (suc fuel) head n p m ((q, v) ∷ xs) s a enough few =
    let on : (p == head) ≡ false = let e = s.0 in let ne = s.2 in ground arith in
    let room : leb 100000 n ≡ false = ground arith in
    let here : read m.nodes p ≡ some v = rw s.0 s.1 in
    let rest =
      counters_loop_resets fuel head (n + 1) v.list.addr
        (record m { nodes = write m.nodes q (reset v) }) xs
        (Seg-write m.nodes head q (reset v) v.list.addr xs a.0 s.3) a.1 (omega arith)
        (omega arith) in
    rw (on, room, here, s.0, rest) refl

pub reset_all-Outside :
    (c : Cells Node) (p : Ptr) (xs : List Item) → Outside p xs → read (reset_all c xs) p ≡ read c p
reset_all-Outside c p [] o = refl
reset_all-Outside c p ((q, v) ∷ xs) o =
    reset_all-Outside (write c q (reset v)) p xs o.1
    ∙ read-write_ne c q p (reset v) (λ e. o.0 (sym e))

abbrev pub ReadsReset : Cells Node → List Item → Type 0
ReadsReset d xs = All (λ x. read d x.0 ≡ some (reset x.1)) xs

pub reset_all-ReadsReset :
    (c : Cells Node) (xs : List Item) → Apart xs → ReadsReset (reset_all c xs) xs
reset_all-ReadsReset c [] a = tt
reset_all-ReadsReset c ((q, v) ∷ xs) a = (
  reset_all-Outside (write c q (reset v)) q xs a.0 ∙ read-write_self c q (reset v),
  reset_all-ReadsReset (write c q (reset v)) xs a.1,
)

pub reset-Course :
    (c d : Cells Node) (p : Ptr) (xs : List Item) (z : Ptr)
    → ReadsReset d xs
    → Course c p xs z
    → Course d p (reset_items xs) z
reset-Course c d p [] z r s = s
reset-Course c d p ((q, v) ∷ xs) z r s = (s.0, r.0, reset-Course c d v.list.addr xs z r.1 s.2)

pub reset-All :
    (P : Item → Type 0) (xs : List Item)
    → ((q : Ptr) (v : Node) → P (q, v) → P (q, reset v))
    → All P xs
    → All P (reset_items xs)
reset-All P [] keeps a = tt
reset-All P ((q, v) ∷ xs) keeps a = (keeps q v a.0, reset-All P xs keeps a.1)

pub reset-Apart : (xs : List Item) → Apart xs → Apart (reset_items xs)
reset-Apart [] a = tt
reset-Apart ((q, v) ∷ xs) a = (reset-All (λ x. x.0 ≢ q) xs (λ p u ne. ne) a.0, reset-Apart xs a.1)

pub tags-reset_items : (xs : List Item) → tags (reset_items xs) ≡ tags xs
tags-reset_items [] = refl
tags-reset_items ((q, v) ∷ xs) = ap (λ ts. v.tag ∷ ts) (tags-reset_items xs)

pub find-reset_items : (k : ℕ) (xs : List Item) → find_value k (reset_items xs) ≡ find_value k xs
find-reset_items k [] = refl
find-reset_items k ((q, v) ∷ xs) = rw (find-reset_items k xs) refl

-- The node of number `wanted`, counted from `i`, and what stands around it.
pub record Numbered (xs : List Item) (wanted i : ℕ) : Type 0 where
  pub before : List Item
  pub at : Ptr
  pub node : Node
  pub behind : List Item
  pub split : xs ≡ before ++ (at, node) ∷ behind

pub hottest_loop_finds :
    (fuel : ℕ) (head : Ptr) (wanted i : ℕ) (p : Ptr) (m : Mem) (xs : List Item)
    → Course m.nodes p (reset_items xs) head
    → Outside head xs
    → i ≤ wanted
    → wanted < i + length xs
    → length xs < fuel
    → (f : Numbered xs wanted i) × (hottest_loop fuel head wanted i p m ≡ ok f.at m)
unfolding hottest_loop
hottest_loop_finds zero head wanted i p m xs s o lo hi enough = absurd (omega arith)
hottest_loop_finds (suc fuel) head wanted i p m [] s o lo hi enough = absurd (omega arith)
hottest_loop_finds (suc fuel) head wanted i p m ((q, v) ∷ xs) s o lo hi enough =
    let on : (p == head) ≡ false = let e = s.0 in let ne = o.0 in ground arith in
    elim (Bool-cases (i == wanted)) [
      | inl hit ↦ (
        record { before = []; at = q; node = v; behind = xs; split = refl },
        rw (on, hit) (rw s.0 refl),
      )
      | inr miss ↦
          let rest =
            hottest_loop_finds fuel head wanted (i + 1) v.list.addr m xs s.2 o.1 (ground arith)
              (omega arith) (omega arith) in
          let f = rest.0 in
          let here : read m.nodes p ≡ some (reset v) = rw s.0 s.1 in
          (
            record {
              before = (q, v) ∷ f.before;
              at = f.at;
              node = f.node;
              behind = f.behind;
              split = ap (λ ys. (q, v) ∷ ys) f.split;
            },
            rw (on, miss, here) rest.1,
          )
    ]
