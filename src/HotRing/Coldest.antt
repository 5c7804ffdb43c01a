-- ===== src/HotRing/Coldest.antt =====
-- hotring.c: the choice of the node in `do_hotspot_shift`, with what the code relies on of `double`.
use jeopardy.Prelude.{
  ℕ, zero, suc, ◌+◌, ◌<◌, ◌≡◌, refl, List, true, false, arith, length, ◌==◌, Bool-cases, inl, inr,
}
use jeopardy.HotRing.Hotspot.{Doubles, income_from, coldest_from}

-- A number that is less than another is a number, which equals itself.
pub record IsDoubles (d : Doubles) : Type 0 where
  pub equal_self : (x y : d.Double) → d.less x y ≡ true → d.equal x x ≡ true

module _ (d : Doubles) (n : IsDoubles d) (total : d.Double) (counters : List ℕ) where
  -- The income at node `t`.
  abbrev pub income : ℕ → d.Double
  income t = income_from d total (length counters) t 0 counters (d.of_nat 0)

  coldest_later :
      (left t : ℕ) (smallest head_income : d.Double) (hottest : ℕ)
      → 0 < t
      → (hottest ≡ 0 → smallest ≡ head_income)
      → hottest < t
      → (s : d.Double) × (w : ℕ) × (coldest_from d total counters left t smallest hottest
            head_income
          ≡ (s, w, head_income))
        × (w ≡ 0 → s ≡ head_income)
        × (w < t + left)
  unfolding coldest_from
  coldest_later zero t smallest head_income hottest pos zero_is lt =
      (smallest, hottest, refl, zero_is, omega arith)
  coldest_later (suc left) t smallest head_income hottest pos zero_is lt =
      let later : (t == 0) ≡ false = ground arith in
      elim (Bool-cases (d.less (income t) smallest)) [
        | inl smaller ↦
            let r =
              coldest_later left (t + 1) (income t) head_income t (omega arith)
                (λ e. absurd (omega arith)) (omega arith) in
            (r.0, r.1, rw (later, smaller) r.2, r.3, (let x = r.4 in omega arith))
        | inr larger ↦
            let r =
              coldest_later left (t + 1) smallest head_income hottest (omega arith) zero_is
                (omega arith) in
            (r.0, r.1, rw (later, larger) r.2, r.3, (let x = r.4 in omega arith))
      ]

  -- Where the head's income is below the bound that the search starts from, node 0 is chosen only with
  -- the income of the head.
  pub coldest :
      (left : ℕ) (bound : d.Double)
      → d.less (income 0) bound ≡ true
      → (s : d.Double) × (w : ℕ) × (coldest_from d total counters (suc left) 0 bound 0 (d.of_nat 0)
          ≡ (s, w, income 0))
        × (w ≡ 0 → s ≡ income 0)
        × (w < suc left)
  unfolding coldest_from
  coldest left bound cool =
      let r =
        coldest_later left 1 (income 0) (income 0) 0 (omega arith) (λ e. refl) (omega arith) in
      (r.0, r.1, rw cool r.2, r.3, (let x = r.4 in omega arith))
