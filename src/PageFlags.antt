-- ===== src/PageFlags.antt =====
-- tools/page_flags_interpreter.c: the names of the flags that a number has.
use jeopardy.Prelude.{
  ap, ◌∙◌, ℕ, ◌+◌, ◌*◌, ◌/◌, ◌%◌, ◌^◌, ◌≡◌, ◌<◌, arith, List, [], ◌∷◌, ◌==◌, if◌then◌else◌, ℤ, pos,
  negsuc, inl, inr, Bool-cases,
}
use native.Mathlib.Nat.{mul_assoc, mul-add}

-- The names of the flags.
pub data PageFlag : Type 0 where
  pg_locked pg_referenced pg_uptodate pg_dirty pg_lru pg_active pg_workingset pg_waiters pg_error
        pg_slab pg_owner_priv_1 pg_arch_1 pg_reserved pg_private pg_private_2 pg_writeback pg_head
        pg_mappedtodisk pg_reclaim pg_swapbacked pg_unevictable :
      PageFlag

-- `enum pageflags`: the number of each flag's bit.
unfoldable pub number : PageFlag → ℕ
number pg_locked = 0
number pg_referenced = 1
number pg_uptodate = 2
number pg_dirty = 3
number pg_lru = 4
number pg_active = 5
number pg_workingset = 6
number pg_waiters = 7
number pg_error = 8
number pg_slab = 9
number pg_owner_priv_1 = 10
number pg_arch_1 = 11
number pg_reserved = 12
number pg_private = 13
number pg_private_2 = 14
number pg_writeback = 15
number pg_head = 16
number pg_mappedtodisk = 17
number pg_reclaim = 18
number pg_swapbacked = 19
number pg_unevictable = 20

-- The table `PG_flag_string`.
abbrev pub pg_flag_string : List PageFlag
pg_flag_string =
    pg_locked ∷ pg_referenced ∷ pg_uptodate ∷ pg_dirty ∷ pg_lru ∷ pg_active ∷ pg_workingset
    ∷ pg_waiters ∷ pg_error ∷ pg_slab ∷ pg_owner_priv_1 ∷ pg_arch_1 ∷ pg_reserved ∷ pg_private
    ∷ pg_private_2 ∷ pg_writeback ∷ pg_head ∷ pg_mappedtodisk ∷ pg_reclaim ∷ pg_swapbacked
    ∷ pg_unevictable ∷ []

-- The loop of `main` over the names that are left, on the absolute value of `flags`: the `int`
-- operations `% 2` and `/ 2` round to zero, so they treat the two signs alike.
unfoldable pub printed : List PageFlag → ℕ → List PageFlag
printed [] flags = []
printed (name ∷ names) flags =
    let rest = printed names (flags / 2) in if flags % 2 == 0 then rest else name ∷ rest

abbrev pub magnitude : ℤ → ℕ
magnitude (pos n) = n
magnitude (negsuc n) = n + 1

-- What `main` prints for the number that `atoi` returns.
unfoldable pub interpret : ℤ → List PageFlag
unfolding printed
interpret flags = printed pg_flag_string (magnitude flags)

-- The number with the bits of some flags.
abbrev pub mask : List PageFlag → ℕ
mask [] = 0
mask (f ∷ fs) = 2 ^ number f + mask fs

-- The names stand for bits that follow each other, from the one of weight `w`.
abbrev Doubling : ℕ → List PageFlag → Type 0
Doubling w [] = Unit
Doubling w (f ∷ fs) = (2 ^ number f ≡ w) × Doubling (w * 2) fs

-- The first number that the names cannot stand for.
abbrev limit : List PageFlag → ℕ
limit [] = 1
limit (f ∷ fs) = 2 * limit fs

mask-printed :
    (w : ℕ) (names : List PageFlag) (flags : ℕ)
    → Doubling w names
    → flags < limit names
    → mask (printed names flags) ≡ w * flags
unfolding printed
mask-printed w [] flags d lt = let none : flags ≡ 0 = omega arith in rw none (grind arith)
mask-printed w (f ∷ fs) flags d lt =
    let half : flags / 2 < limit fs = omega arith in
    let rest = mask-printed (w * 2) fs (flags / 2) d.1 half in
    elim (Bool-cases (flags % 2 == 0)) [
      | inl even ↦ let e : 2 * (flags / 2) ≡ flags = ground arith in rw (even, rest) (grind arith)
      | inr odd ↦
          let e : 1 + 2 * (flags / 2) ≡ flags = ground arith in
          let split : w + w * (2 * (flags / 2)) ≡ w * (1 + 2 * (flags / 2)) =
            rw (mul-add w 1 (2 * (flags / 2))) (omega arith) in
          let whole : w * (1 + 2 * (flags / 2)) ≡ w * flags = ap (λ x. w * x) e in
          rw (odd, rest, d.0) (ap (λ x. w + x) (mul_assoc w 2 (flags / 2)) ∙ split ∙ whole)
    ]

-- For a number from 0 to 2 ^ 21 - 1, the bits of the names that `main` prints make up the number.
pub mask-interpret : (n : ℕ) → n < 2 ^ 21 → mask (interpret (pos n)) ≡ n
unfolding interpret number
mask-interpret n lt = omega (arith, mask-printed 1 pg_flag_string n (omega arith) lt)
