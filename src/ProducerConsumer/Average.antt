-- ===== src/ProducerConsumer/Average.antt =====
-- producer_consumer/producer-consumer-average.cpp: two agents over a buffer of messages. The messages are
-- from 0 up; an `int` that would pass 2 ^ 31 - 1 is undefined.
use jeopardy.Prelude.{
  ℕ, zero, suc, ◌+◌, ◌*◌, ◌/◌, ◌^◌, ◌≡◌, ◌≢◌, ◌<◌, ◌≤◌, List, [], ◌∷◌, ◌++◌, length,
}
pub mod Finishes

-- Where `producer_agent::run` stands: `_count` messages and then the sentinel are left to send, or none.
pub data Producer : Type 0 where
  sending : ℕ → Producer
  done : Producer

-- Where `consumer_agent::run` stands: with `sum` and `count` before a receipt, behind the sending of the
-- average, or in undefined behaviour.
pub data Consumer : Type 0 where
  receiving : ℕ → ℕ → Consumer
  averaged : ℕ → Consumer
  undefined : Consumer

-- The agents, and the messages that the buffer holds, the first to receive first.
pub record System : Type 0 where
  pub buffer : List ℕ
  pub producer : Producer
  pub consumer : Consumer

abbrev pub init : ℕ → System
init count = record { buffer = []; producer = sending count; consumer = receiving 0 0 }

-- A step of one agent, where `sentinel` ends the messages.
pub data Step (sentinel : ℕ) (s : System) : System → Type 0 where
  send :
      (count : ℕ)
      → s.producer ≡ sending (suc count)
      → Step sentinel s (record s { buffer = s.buffer ++ suc count ∷ []; producer = sending count })
  send_sentinel :
      s.producer ≡ sending 0
      → Step sentinel s (record s { buffer = s.buffer ++ sentinel ∷ []; producer = done })
  add :
      (n : ℕ) (rest : List ℕ) (sum count : ℕ)
      → s.buffer ≡ n ∷ rest
      → s.consumer ≡ receiving sum count
      → n ≢ sentinel
      → sum + n < 2 ^ 31
      → Step sentinel s (record s { buffer = rest; consumer = receiving (sum + n) (count + 1) })
  overflow :
      (n : ℕ) (rest : List ℕ) (sum count : ℕ)
      → s.buffer ≡ n ∷ rest
      → s.consumer ≡ receiving sum count
      → n ≢ sentinel
      → 2 ^ 31 ≤ sum + n
      → Step sentinel s (record s { buffer = rest; consumer = undefined })
  average :
      (rest : List ℕ) (sum count : ℕ)
      → s.buffer ≡ sentinel ∷ rest
      → s.consumer ≡ receiving sum count
      → count ≢ 0
      → Step sentinel s (record s { buffer = rest; consumer = averaged (sum / count) })
  divide_by_zero :
      (rest : List ℕ) (sum : ℕ)
      → s.buffer ≡ sentinel ∷ rest
      → s.consumer ≡ receiving sum 0
      → Step sentinel s (record s { buffer = rest; consumer = undefined })

-- The states that `steps` steps lead to.
pub data Run (sentinel count : ℕ) : ℕ → System → Type 0 where
  start : Run sentinel count 0 (init count)
  later :
      {steps : ℕ} {s t : System}
      → Run sentinel count steps s
      → Step sentinel s t
      → Run sentinel count (steps + 1) t
