-- ===== src/ProducerConsumer/Buffer.antt =====
-- producer_consumer/example.cpp and parallel_tcpip/socket_server.cpp: the class `Buffer`, an access to the
-- mutex or the condition variable at a time.
use jeopardy.Prelude.{
  ℕ, zero, suc, ◌+◌, ◌≡◌, ◌≢◌, ◌<◌, ◌≤◌, refl, Bool, true, false, List, [], ◌∷◌, Option, none, some,
  length,
}
use jeopardy.ProducerConsumer.Threads.{update}
pub mod Kept
pub mod Progress

-- `size_`
abbrev pub capacity : ℕ
capacity = 10

module _ (A : Type 0) where
  -- Where a thread stands. `wants_add` and `wants_remove` are before the mutex is taken, at the start of the
  -- call and in `cond.wait` after a wake-up; `tests_add` and `tests_remove` hold it, at the test of the wait;
  -- `told_add` and `told_remove` are between `unlock` and `notify_all`.
  pub data Pc : Type 0 where
    idle : Pc
    wants_add tests_add waits_add : A → Pc
    told_add : Pc
    wants_remove tests_remove waits_remove : Pc
    told_remove : A → Pc

module _ {A : Type 0} where
  -- `notify_all`
  abbrev pub woken : Pc A → Pc A
  woken (waits_add a) = wants_add a
  woken waits_remove = wants_remove
  woken p = p

  -- Whether a thread holds the mutex.
  abbrev pub holds : Pc A → Bool
  holds (tests_add a) = true
  holds tests_remove = true
  holds p = false

  -- Whether a thread is about to notify.
  abbrev pub is_told : Pc A → Bool
  is_told told_add = true
  is_told (told_remove a) = true
  is_told p = false

-- `buffer_`, back first, the holder of `mu`, and the threads; what was added and removed, the last first.
pub record System (A : Type 0) : Type 0 where
  pub buffer : List A
  pub owner : Option ℕ
  pub pc : ℕ → Pc A
  pub added : List A
  pub removed : List A

abbrev pub init : {A : Type 0} → System A
init = record { buffer = []; owner = none; pc = λ _. idle; added = []; removed = [] }

-- A step of thread `i`.
pub data Step {A : Type 0} (s : System A) (i : ℕ) : System A → Type 0 where
  call_add : (a : A) → s.pc i ≡ idle → Step s i (record s { pc = update s.pc i (wants_add a) })
  lock_add :
      (a : A)
      → s.pc i ≡ wants_add a
      → s.owner ≡ none
      → Step s i (record s { owner = some i; pc = update s.pc i (tests_add a) })
  wait_add :
      (a : A)
      → s.pc i ≡ tests_add a
      → capacity ≤ length s.buffer
      → Step s i (record s { owner = none; pc = update s.pc i (waits_add a) })
  push_back :
      (a : A)
      → s.pc i ≡ tests_add a
      → length s.buffer < capacity
      → Step s i (record s {
        buffer = a ∷ s.buffer;
        owner = none;
        pc = update s.pc i told_add;
        added = a ∷ s.added;
      })
  notify_add : s.pc i ≡ told_add → Step s i (record s { pc = update (λ j. woken (s.pc j)) i idle })
  wake_add :
      (a : A) → s.pc i ≡ waits_add a → Step s i (record s { pc = update s.pc i (wants_add a) })
  call_remove : s.pc i ≡ idle → Step s i (record s { pc = update s.pc i wants_remove })
  lock_remove :
      s.pc i ≡ wants_remove
      → s.owner ≡ none
      → Step s i (record s { owner = some i; pc = update s.pc i tests_remove })
  wait_remove :
      s.pc i ≡ tests_remove
      → s.buffer ≡ []
      → Step s i (record s { owner = none; pc = update s.pc i waits_remove })
  pop_back :
      (back : A) (rest : List A)
      → s.pc i ≡ tests_remove
      → s.buffer ≡ back ∷ rest
      → Step s i (record s {
        buffer = rest;
        owner = none;
        pc = update s.pc i (told_remove back);
        removed = back ∷ s.removed;
      })
  notify_remove :
      (back : A)
      → s.pc i ≡ told_remove back
      → Step s i (record s { pc = update (λ j. woken (s.pc j)) i idle })
  wake_remove : s.pc i ≡ waits_remove → Step s i (record s { pc = update s.pc i wants_remove })

-- The states that any number of threads lead to, in any order of steps, wake-ups without a cause included.
pub data Reach {A : Type 0} : System A → Type 0 where
  start : Reach init
  later : {s t : System A} (i : ℕ) → Reach s → Step s i t → Reach t
