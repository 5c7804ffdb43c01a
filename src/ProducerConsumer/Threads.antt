-- ===== src/ProducerConsumer/Threads.antt =====
-- The threads of a program, by their numbers, and where each stands.
use jeopardy.Prelude.{ℕ, ◌≡◌, ◌≢◌, refl, ◌==◌, if◌then◌else◌, arith, true, false}

-- Thread `i` goes on to `p`.
abbrev pub update {ℓ} : {Pc : Type ℓ} → (ℕ → Pc) → ℕ → Pc → ℕ → Pc
update pc i p j = if j == i then p else pc j

pub update_self {ℓ} : {Pc : Type ℓ} (pc : ℕ → Pc) (i : ℕ) (p : Pc) → update pc i p i ≡ p
update_self pc i p = let same : (i == i) ≡ true = ground arith in rw same refl

pub update_ne {ℓ} : {Pc : Type ℓ} (pc : ℕ → Pc) (i j : ℕ) (p : Pc) → j ≢ i → update pc i p j ≡ pc j
update_ne pc i j p ne = let apart : (j == i) ≡ false = ground arith in rw apart refl
