-- ===== src/Tests/WorkerExamples.antt =====
-- producer_consumer/: the theorems at short runs.
use jeopardy.Prelude.{
  ℕ, ◌+◌, ◌*◌, ◌/◌, ◌≡◌, ◌≤◌, ◌<◌, ◌^◌, refl, true, [], ◌++◌, arith, length, ◌⊎◌,
}
use mathlib.Core.List.{Perm}
use jeopardy.ProducerConsumer.Buffer
use jeopardy.ProducerConsumer.Buffer.{capacity}
use jeopardy.ProducerConsumer.Buffer.Progress.{Moves, Waits, Reach-conserves, Reach-Moves}
use jeopardy.ProducerConsumer.Queue
use jeopardy.ProducerConsumer.Queue.Order.{Reach-ordered}
use jeopardy.ProducerConsumer.Queue.Wakes.{Notifies, Reach-wakes}
use jeopardy.ProducerConsumer.Queue.Lost.{Sleeps, lost_wakeup}
use jeopardy.ProducerConsumer.Average.{Step, System, init, start}
use jeopardy.ProducerConsumer.Average.Finishes.{triangle, Finished, Run-finishes}

-- A value added, and its thread about to notify.
abbrev stored : (s : Buffer.System ℕ) × Buffer.Reach s
stored = (
  _,
  Buffer.later 0
      (Buffer.later 0 (Buffer.later 0 Buffer.start (Buffer.call_add 5 refl))
        (Buffer.lock_add 5 refl refl))
      (Buffer.push_back 5 refl (omega arith)),
)

Reach-conserves_example :
    (length stored.0.buffer ≤ capacity) × Perm stored.0.added (stored.0.removed ++ stored.0.buffer)
Reach-conserves_example = Reach-conserves stored.1

Reach-Moves_example : Moves stored.0 ⊎ Waits stored.0 0
Reach-Moves_example = Reach-Moves stored.1 0 (λ e. cc e)

-- A consumer that waits, and a value pushed behind it.
abbrev asleep : (s : Queue.System ℕ) × Queue.Reach (λ i. i ≡ 0) s
asleep = (
  _,
  Queue.later 0
      (Queue.later 0 (Queue.later 0 Queue.start (Queue.call_pop refl) (λ e. refl))
        (Queue.lock_pop refl refl) (λ e. refl))
      (Queue.wait refl refl) (λ e. refl),
)

abbrev behind : (s : Queue.System ℕ) × Queue.Reach (λ i. i ≡ 0) s
behind = (
  _,
  Queue.later 1
      (Queue.later 1 (Queue.later 1 asleep.1 (Queue.call_push 7 refl) (λ e. cc e))
        (Queue.lock_push 7 refl refl) (λ e. cc e))
      (Queue.push true 7 refl) (λ e. cc e),
)

Reach-ordered_example : behind.0.pushes ≡ behind.0.pops ++ behind.0.queue
Reach-ordered_example = Reach-ordered behind.1

Reach-wakes_example : (behind.0.queue ≡ []) ⊎ Notifies behind.0.pc
Reach-wakes_example = Reach-wakes 0 behind.1 refl

lost_wakeup_example : Sleeps {A = ℕ} 1 7 8
lost_wakeup_example = lost_wakeup 0 1 2 (omega arith) (omega arith) (omega arith) 7 8

hundred_fits : triangle 100 < 2 ^ 31
unfolding triangle
hundred_fits = omega arith

Run-finishes_example :
    (0 ≤ 2 * (100 + 1)) × (((t : System) × Step 0 (init 100) t) ⊎ Finished 100 (init 100))
Run-finishes_example = Run-finishes 100 (omega arith) hundred_fits start

-- What `main` prints.
average_of_hundred : triangle 100 / 100 ≡ 50
unfolding triangle
average_of_hundred = refl
