-- ===== src/RadixTree/Visit/Blocks.antt =====
-- radix_tree/radix-tree.c: the ranges of indices that the slots of a level cover, in trees over indices of
-- at most 60 bits.
use jeopardy.Prelude.{
  ℕ, zero, suc, ◌+◌, ◌-◌, ◌*◌, ◌%◌, ◌^◌, ◌≡◌, ◌≤◌, ◌<◌, refl, sym, ◌∙◌, ap, arith, pow-add, pow_pos,
}
use native.Mathlib.Nat.{
  div-lt_iff_lt-mul, le-div_iff_mul-le, mul-div_cancel, div-add-mod', div-mul-le_self, add-mul,
  mul_assoc, mul_comm, mul-le-mul_right,
}
use jeopardy.RadixTree.Entry.{shift_maxindex, chunk_start}
use jeopardy.RadixTree.Shape.Digits.{up}

-- The number of indices that a slot of level `n` covers.
abbrev pub block : ℕ → ℕ
block n = 2 ^ (6 * n)

pub block-suc : (n : ℕ) → block (suc n) ≡ block n * 64
block-suc n = let e : 6 * suc n ≡ 6 * n + 6 = omega arith in rw (e, pow-add (6 * n) 6) refl

block_pos : (n : ℕ) → 0 < block n
block_pos n = pow_pos (6 * n)

-- The levels of a tree over indices of at most 60 bits.
pub small_block :
    (n : ℕ) → n ≤ 9 → (block n * 64 ≤ 2 ^ 60) × (shift_maxindex (6 * n) + 1 ≡ block n * 64)
unfolding shift_maxindex
small_block zero l = (omega arith, omega arith)
small_block (suc zero) l = (omega arith, omega arith)
small_block (suc (suc zero)) l = (omega arith, omega arith)
small_block (suc (suc (suc zero))) l = (omega arith, omega arith)
small_block (suc (suc (suc (suc zero)))) l = (omega arith, omega arith)
small_block (suc (suc (suc (suc (suc zero))))) l = (omega arith, omega arith)
small_block (suc (suc (suc (suc (suc (suc zero)))))) l = (omega arith, omega arith)
small_block (suc (suc (suc (suc (suc (suc (suc zero))))))) l = (omega arith, omega arith)
small_block (suc (suc (suc (suc (suc (suc (suc (suc zero)))))))) l = (omega arith, omega arith)
small_block (suc (suc (suc (suc (suc (suc (suc (suc (suc zero))))))))) l =
    (omega arith, omega arith)
small_block (suc (suc (suc (suc (suc (suc (suc (suc (suc (suc n)))))))))) l = absurd (omega arith)

-- Slot `s` of level `n` begins at the index `s * block n`.
pub up_start : (n s : ℕ) → up n (s * block n) ≡ s
up_start n s = mul-div_cancel s (block_pos n)

pub up-lt : (n s j : ℕ) → j < s * block n → up n j < s
up-lt n s j = (div-lt_iff_lt-mul (block_pos n)).1

pub lt-start : (n s j : ℕ) → up n j < s → j < s * block n
lt-start n s j = (div-lt_iff_lt-mul (block_pos n)).0

pub up-le : (n i j : ℕ) → i ≤ j → up n i ≤ up n j
up-le n i j le =
    let low : up n i * block n ≤ i = div-mul-le_self i (block n) in
    (le-div_iff_mul-le (block_pos n)).1 (omega arith)

pub expand : (q o b : ℕ) → (q * 64 + o) * b ≡ q * (b * 64) + o * b
expand q o b =
    add-mul (q * 64) o b ∙ ap (λ x. x + o * b) (mul_assoc q 64 b ∙ ap (λ x. q * x) (mul_comm 64 b))

less_rest : (index low rest add : ℕ) → low + rest ≡ index → index - rest + add ≡ low + add
less_rest index low rest add e = omega arith

-- The start of slot `o` of the node over `index`.
pub slot_start :
    (n index o : ℕ)
    → n ≤ 9
    → chunk_start index (shift_maxindex (6 * n)) + o * block n
      ≡ (up (suc n) index * 64 + o) * block n
slot_start n index o le =
    let q = up (suc n) index in
    rw ((small_block n le).1, ← block-suc n)
      (less_rest index (q * block (suc n)) (index % block (suc n)) (o * block n)
          (div-add-mod' index (block (suc n)))
        ∙ ap (λ x. q * x + o * block n) (block-suc n)
        ∙ sym (expand q o (block n)))

sum_small : (low high most : ℕ) → low ≤ high → high < 2 ^ 60 → most ≤ 2 ^ 60 → low + most ≤ 2 ^ 61
sum_small low high most a b c = omega arith

pub slot_small :
    (n index o : ℕ)
    → n ≤ 9
    → index < 2 ^ 60
    → o ≤ 64
    → (up (suc n) index * 64 + o) * block n ≤ 2 ^ 61
slot_small n index o le small fits =
    let q = up (suc n) index in
    let low : q * (block n * 64) ≤ index =
      rw (← block-suc n) (div-mul-le_self index (block (suc n))) in
    let most : o * block n ≤ 2 ^ 60 =
      let c : o * block n ≤ 64 * block n = mul-le-mul_right (block n) fits in
      let d = (small_block n le).0 in omega arith in
    rw (expand q o (block n)) (sum_small (q * (block n * 64)) index (o * block n) low small most)
