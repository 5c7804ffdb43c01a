-- ===== src/ProducerConsumer/Queue.antt =====
-- producer_consumer/syncQueue.cpp: the class `SynchronizedQueue`, an access to the mutex, the condition
-- variable or the queue at a time.
use jeopardy.Prelude.{ℕ, ◌≡◌, ◌≢◌, Bool, true, false, not, List, [], ◌∷◌, ◌++◌, Option, none, some}
use jeopardy.ProducerConsumer.Threads.{update}
pub mod Held
pub mod Order
pub mod Wakes
pub mod Lost

module _ (A : Type 0) where
  -- Where a thread stands. In `push`: `wants_push` is before the mutex is taken; `pushing` holds it, and
  -- tells whether the queue was seen to be empty; `pushed` is behind `queue_.push`. In `pop`: `wants_pop` is
  -- before the mutex is taken, at the start and in `condvar_.wait` after a wake-up; `tests` holds the mutex,
  -- at the test of the loop; `took` is behind `queue_.front`, with `retval`.
  pub data Pc : Type 0 where
    idle : Pc
    wants_push : A → Pc
    pushing : Bool → A → Pc
    pushed : Bool → Pc
    wants_pop tests waits : Pc
    took : A → Pc

-- `queue_`, front first, the holder of `mutex_`, and the threads; what was pushed, and what `pop` returned, in order.
pub record System (A : Type 0) : Type 0 where
  pub queue : List A
  pub owner : Option ℕ
  pub pc : ℕ → Pc A
  pub pushes : List A
  pub pops : List A

abbrev pub init : {A : Type 0} → System A
init = record { queue = []; owner = none; pc = λ _. idle; pushes = []; pops = [] }

abbrev pub is_empty : {A : Type 0} → List A → Bool
is_empty [] = true
is_empty (x ∷ xs) = false

-- A step of thread `i`.
pub data Step {A : Type 0} (s : System A) (i : ℕ) : System A → Type 0 where
  call_push : (a : A) → s.pc i ≡ idle → Step s i (record s { pc = update s.pc i (wants_push a) })
  -- The mutex is taken, and `queue_.empty` asked.
  lock_push :
      (a : A)
      → s.pc i ≡ wants_push a
      → s.owner ≡ none
      → Step s i (record s { owner = some i; pc = update s.pc i (pushing (is_empty s.queue) a) })
  push :
      (wake : Bool) (a : A)
      → s.pc i ≡ pushing wake a
      → Step s i (record s {
        queue = s.queue ++ a ∷ [];
        pc = update s.pc i (pushed wake);
        pushes = s.pushes ++ a ∷ [];
      })
  -- `notify_one` wakes a thread that waits.
  notify :
      (j : ℕ)
      → s.pc i ≡ pushed true
      → s.pc j ≡ waits
      → Step s i (record s { owner = none; pc = update (update s.pc j wants_pop) i idle })
  -- `notify_one` where none waits.
  notify_none :
      s.pc i ≡ pushed true
      → ((j : ℕ) → s.pc j ≢ waits)
      → Step s i (record s { owner = none; pc = update s.pc i idle })
  no_notify : s.pc i ≡ pushed false → Step s i (record s { owner = none; pc = update s.pc i idle })
  call_pop : s.pc i ≡ idle → Step s i (record s { pc = update s.pc i wants_pop })
  lock_pop :
      s.pc i ≡ wants_pop
      → s.owner ≡ none
      → Step s i (record s { owner = some i; pc = update s.pc i tests })
  wait :
      s.pc i ≡ tests → s.queue ≡ [] → Step s i (record s { owner = none; pc = update s.pc i waits })
  front :
      (a : A) (rest : List A)
      → s.pc i ≡ tests
      → s.queue ≡ a ∷ rest
      → Step s i (record s { pc = update s.pc i (took a) })
  -- `queue_.pop`, and the return of `retval`.
  pop :
      (a b : A) (rest : List A)
      → s.pc i ≡ took a
      → s.queue ≡ b ∷ rest
      → Step s i (record s {
        queue = rest;
        owner = none;
        pc = update s.pc i idle;
        pops = s.pops ++ a ∷ [];
      })
  -- A wake-up without a cause.
  wake : s.pc i ≡ waits → Step s i (record s { pc = update s.pc i wants_pop })

-- The states that the threads lead to, in any order of steps, where those that call `pop` are consumers.
pub data Reach {A : Type 0} (IsConsumer : ℕ → Type 0) : System A → Type 0 where
  start : Reach IsConsumer init
  later :
      {s t : System A} (i : ℕ)
      → Reach IsConsumer s
      → Step s i t
      → (t.pc i ≡ wants_pop → IsConsumer i)
      → Reach IsConsumer t
