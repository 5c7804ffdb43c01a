-- ===== src/RadixTree/Shape/Digits.antt =====
-- radix_tree/radix-tree.c: the digits of 6 bits that choose the slots of the levels, and the largest
-- index of a height.
use jeopardy.Prelude.{ℕ, zero, suc, ◌+◌, ◌*◌, ◌/◌, ◌^◌, ◌≡◌, ◌≤◌, ◌<◌, refl, sym, arith, pow-add}
use jeopardy.RadixTree.Entry.{shift_maxindex}
use native.Mathlib.Nat.{div-div-eq-div-mul}

-- What is left of an index above its `n` lowest digits.
abbrev pub up : ℕ → ℕ → ℕ
up n index = index / 2 ^ (6 * n)

pub up_zero : (index : ℕ) → up 0 index ≡ index
up_zero index = omega arith

pub up-suc : (n index : ℕ) → up (suc n) index ≡ up n index / 64
up-suc n index =
    let e : 6 * suc n ≡ 6 * n + 6 = omega arith in
    let p : 2 ^ (6 * suc n) ≡ 2 ^ (6 * n) * 64 = rw (e, pow-add (6 * n) 6) refl in
    rw p (sym (div-div-eq-div-mul index (2 ^ (6 * n)) 64))

-- For the heights of a tree over 64-bit indices.
abbrev Covers : ℕ → ℕ → Type 0
Covers h index =
    (index ≤ shift_maxindex (6 * h) → up (suc h) index ≡ 0)
    × (up (suc h) index ≡ 0 → index ≤ shift_maxindex (6 * h))

pub up-Covers : (h index : ℕ) → h ≤ 10 → index < 2 ^ 64 → Covers h index
unfolding shift_maxindex
up-Covers zero index l i = (λ e. omega arith, λ e. omega arith)
up-Covers (suc zero) index l i = (λ e. omega arith, λ e. omega arith)
up-Covers (suc (suc zero)) index l i = (λ e. omega arith, λ e. omega arith)
up-Covers (suc (suc (suc zero))) index l i = (λ e. omega arith, λ e. omega arith)
up-Covers (suc (suc (suc (suc zero)))) index l i = (λ e. omega arith, λ e. omega arith)
up-Covers (suc (suc (suc (suc (suc zero))))) index l i = (λ e. omega arith, λ e. omega arith)
up-Covers (suc (suc (suc (suc (suc (suc zero)))))) index l i = (λ e. omega arith, λ e. omega arith)
up-Covers (suc (suc (suc (suc (suc (suc (suc zero))))))) index l i =
    (λ e. omega arith, λ e. omega arith)
up-Covers (suc (suc (suc (suc (suc (suc (suc (suc zero)))))))) index l i =
    (λ e. omega arith, λ e. omega arith)
up-Covers (suc (suc (suc (suc (suc (suc (suc (suc (suc zero))))))))) index l i =
    (λ e. omega arith, λ e. omega arith)
up-Covers (suc (suc (suc (suc (suc (suc (suc (suc (suc (suc zero)))))))))) index l i =
    (λ e. omega arith, λ e. omega arith)
up-Covers (suc (suc (suc (suc (suc (suc (suc (suc (suc (suc (suc h))))))))))) index l i =
    absurd (omega arith)
