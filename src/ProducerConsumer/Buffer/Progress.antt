-- ===== src/ProducerConsumer/Buffer/Progress.antt =====
-- What holds of a `Buffer` in every order of the threads' steps.
use jeopardy.Prelude.{
  ℕ, ◌≡◌, ◌≢◌, ◌≤◌, refl, Bool, true, false, List, [], ◌∷◌, ◌++◌, none, length, arith, ◌⊎◌, inl,
  inr, Option-cases, Bool-cases, leb,
}
use mathlib.Core.List.{Perm}
use jeopardy.ProducerConsumer.Buffer.{
  capacity, Pc, idle, wants_add, tests_add, waits_add, told_add, wants_remove, tests_remove,
  waits_remove, told_remove, holds, is_told, System, Step, lock_add, wait_add, push_back,
  notify_add, lock_remove, wait_remove, pop_back, notify_remove, Reach,
}
use jeopardy.ProducerConsumer.Buffer.Kept.{IsSound, Reach-IsSound}

module _ {A : Type 0} where
  -- Whether a thread is in a call and does not wait.
  abbrev pub is_active : Pc A → Bool
  is_active idle = false
  is_active (waits_add a) = false
  is_active waits_remove = false
  is_active p = true

  -- Some thread that is in a call, and does not wait, has a step.
  abbrev pub Moves : System A → Type 0
  Moves s = (j : ℕ) × (t : System A) × (is_active (s.pc j) ≡ true) × Step s j t

  -- Thread `i` waits for a state that is not there.
  abbrev pub Waits : System A → ℕ → Type 0
  Waits s i =
      ((a : A) × (s.pc i ≡ waits_add a) × (capacity ≤ length s.buffer))
      ⊎ ((s.pc i ≡ waits_remove) × (s.buffer ≡ []))

  holder-Moves : (s : System A) (k : ℕ) (p : Pc A) → s.pc k ≡ p → holds p ≡ true → Moves s
  holder-Moves s k (tests_add a) e h = elim (Bool-cases (leb capacity (length s.buffer))) [
    | inl full ↦ (k, _, rw e refl, wait_add a e (ground arith))
    | inr room ↦ (k, _, rw e refl, push_back a e (ground arith))
  ]
  holder-Moves s k tests_remove e h = by_buffer s.buffer refl
    where
      by_buffer : (b : List A) → s.buffer ≡ b → Moves s
      by_buffer [] g = (k, _, rw e refl, wait_remove e g)
      by_buffer (back ∷ rest) g = (k, _, rw e refl, pop_back back rest e g)
  holder-Moves s k idle e h = cc h
  holder-Moves s k (wants_add a) e h = cc h
  holder-Moves s k (waits_add a) e h = cc h
  holder-Moves s k told_add e h = cc h
  holder-Moves s k wants_remove e h = cc h
  holder-Moves s k waits_remove e h = cc h
  holder-Moves s k (told_remove a) e h = cc h

  Told-Moves : (s : System A) (k : ℕ) (p : Pc A) → s.pc k ≡ p → is_told p ≡ true → Moves s
  Told-Moves s k told_add e h = (k, _, rw e refl, notify_add e)
  Told-Moves s k (told_remove a) e h = (k, _, rw e refl, notify_remove a e)
  Told-Moves s k idle e h = cc h
  Told-Moves s k (wants_add a) e h = cc h
  Told-Moves s k (tests_add a) e h = cc h
  Told-Moves s k (waits_add a) e h = cc h
  Told-Moves s k wants_remove e h = cc h
  Told-Moves s k tests_remove e h = cc h
  Told-Moves s k waits_remove e h = cc h

  -- Where the mutex is free.
  free-Moves :
      (s : System A) (i : ℕ) (p : Pc A)
      → IsSound s
      → s.owner ≡ none
      → s.pc i ≡ p
      → p ≢ idle
      → Moves s ⊎ Waits s i
  free-Moves s i idle v free e ne = absurd (ne refl)
  free-Moves s i (wants_add a) v free e ne = inl (i, _, rw e refl, lock_add a e free)
  free-Moves s i (tests_add a) v free e ne = inl (holder-Moves s i (tests_add a) e refl)
  free-Moves s i (waits_add a) v free e ne = elim (v.awake.full i a e) [
    | inl full ↦ inr (inl (a, e, full))
    | inr (k, told) ↦ inl (Told-Moves s k (s.pc k) refl told)
  ]
  free-Moves s i told_add v free e ne = inl (Told-Moves s i told_add e refl)
  free-Moves s i wants_remove v free e ne = inl (i, _, rw e refl, lock_remove e free)
  free-Moves s i tests_remove v free e ne = inl (holder-Moves s i tests_remove e refl)
  free-Moves s i waits_remove v free e ne = elim (v.awake.empty i e) [
    | inl empty ↦ inr (inr (e, empty))
    | inr (k, told) ↦ inl (Told-Moves s k (s.pc k) refl told)
  ]
  free-Moves s i (told_remove a) v free e ne = inl (Told-Moves s i (told_remove a) e refl)

  -- However the steps of any number of threads are ordered, the buffer holds at most 10 values, and what
  -- was added is, in some order, what was removed and what the buffer holds: no value is lost or removed twice.
  pub Reach-conserves :
      {s : System A} → Reach s → (length s.buffer ≤ capacity) × Perm s.added (s.removed ++ s.buffer)
  Reach-conserves r = let v = Reach-IsSound r in (v.awake.few, v.kept)

  -- However the steps of any number of threads are ordered, no two threads are between their lock and unlock
  -- of the mutex.
  Reach-exclusive :
      {s : System A} → Reach s → (i j : ℕ) → holds (s.pc i) ≡ true → holds (s.pc j) ≡ true → i ≡ j
  Reach-exclusive r i j hi hj =
      let v = Reach-IsSound r in let a = v.owned.owned i hi in let b = v.owned.owned j hj in cc

  -- However the steps of any number of threads are ordered, no wake-up is lost: for a thread in a call, some
  -- thread in a call that does not wait has a step, or the thread waits to add and the buffer is full, or it
  -- waits to remove and the buffer is empty.
  pub Reach-Moves : {s : System A} → Reach s → (i : ℕ) → s.pc i ≢ idle → Moves s ⊎ Waits s i
  Reach-Moves {s} r i busy =
      let v = Reach-IsSound r in
      elim (Option-cases s.owner) [
        | inl free ↦ free-Moves s i (s.pc i) v free refl busy
        | inr (k, own) ↦ inl (holder-Moves s k (s.pc k) refl (v.owned.held k own))
      ]
