-- ===== src/Memory.antt =====
-- Typed memory: the cells of one C type at their addresses, and code that reads and writes them.
-- A memory is the list of its writes, the latest first: `none` stands for `free`.
use jeopardy.Prelude.{ℕ, ◌≡◌, ◌≢◌, Option, none, some, List, [], ◌∷◌, arith, ◌==◌, if◌then◌else◌}

abbrev pub Ptr : Type 0
Ptr = ℕ

abbrev pub null : Ptr
null = 0

abbrev pub Cells : Type 0 → Type 0
Cells A = List (Ptr × Option A)

module _ {A : Type 0} where
  unfoldable pub read : Cells A → Ptr → Option A
  read [] p = none
  read ((q, v) ∷ c) p = if p == q then v else read c p

  abbrev pub write : Cells A → Ptr → A → Cells A
  write c p v = (p, some v) ∷ c

  abbrev pub erase : Cells A → Ptr → Cells A
  erase c p = (p, none) ∷ c

-- What a run over a state `S` ends with: a value and the new state, the undefined behaviour of an
-- access that no cell backs, or the rounds given to a loop used up.
pub data Run (S A : Type 0) : Type 0 where
  ok : A → S → Run S A
  fault : Run S A
  out_of_fuel : Run S A

abbrev pub M : Type 0 → Type 0 → Type 0
M S A = S → Run S A

module _ {S A : Type 0} where
  abbrev pub pure : A → M S A
  pure a s = ok a s

  abbrev pub crash : M S A
  crash s = fault

  -- The value of an access that the memory may not back.
  abbrev pub checked : Option A → M S A
  checked none s = fault
  checked (some a) s = ok a s

  -- A read of the state.
  abbrev pub asks : (S → A) → M S A
  asks f s = ok (f s) s

abbrev pub modify : {S : Type 0} → (S → S) → M S (Unit {0})
modify f s = ok tt (f s)

module _ {S A B : Type 0} where
  abbrev pub run_next : Run S A → (A → M S B) → Run S B
  run_next (ok a s) k = k a s
  run_next fault k = fault
  run_next out_of_fuel k = out_of_fuel

  infixl 5 ◌>>=◌ ◌>>◌
  abbrev pub ◌>>=◌ : M S A → (A → M S B) → M S B
  ◌>>=◌ m k s = run_next (m s) k

  abbrev pub ◌>>◌ : M S A → M S B → M S B
  m >> k = m >>= λ _. k

module _ {A : Type 0} (c : Cells A) (p : Ptr) where
  pub read-write_self : (v : A) → read (write c p v) p ≡ some v
  unfolding read
  read-write_self v = ground arith

  pub read-write_ne : (q : Ptr) (v : A) → q ≢ p → read (write c p v) q ≡ read c q
  unfolding read
  read-write_ne q v h = ground arith

  pub read-erase_ne : (q : Ptr) → q ≢ p → read (erase c p) q ≡ read c q
  unfolding read
  read-erase_ne q h = ground arith

  pub read-erase_self : read (erase c p) p ≡ none
  unfolding read
  read-erase_self = ground arith
