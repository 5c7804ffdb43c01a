-- ===== src/ProducerConsumer/Queue/Order.antt =====
-- A `SynchronizedQueue` gives its values in the order in which it took them.
use jeopardy.Prelude.{ℕ, ◌≡◌, refl, sym, ◌∙◌, ap, List, [], ◌∷◌, ◌++◌}
use jeopardy.ProducerConsumer.Queue.{
  took, System, Step, call_push, lock_push, push, notify, notify_none, no_notify, call_pop,
  lock_pop, wait, front, pop, wake, Reach, start, later,
}
use jeopardy.ProducerConsumer.Queue.Held.{Sees, IsHeld, Reach-IsHeld}

module _ {A : Type 0} where
  append-append : (xs ys zs : List A) → (xs ++ ys) ++ zs ≡ xs ++ (ys ++ zs)
  append-append [] ys zs = refl
  append-append (x ∷ xs) ys zs = ap (λ ws. x ∷ ws) (append-append xs ys zs)

  abbrev IsOrdered : System A → Type 0
  IsOrdered s = s.pushes ≡ s.pops ++ s.queue

  -- The value that a thread took is still the first when it removes the first.
  same_front :
      (a b : A) (rest queue : List A)
      → ((rest' : List A) × (queue ≡ a ∷ rest'))
      → queue ≡ b ∷ rest
      → queue ≡ a ∷ rest
  same_front a b rest queue (rest', e) f = cc

  Step-IsOrdered :
      {s : System A} {i : ℕ} {t : System A} → IsHeld s → Step s i t → IsOrdered s → IsOrdered t
  Step-IsOrdered {s} held (push w a e) v = rw v (append-append s.pops s.queue (a ∷ []))
  Step-IsOrdered {s} {i} held (pop a b rest e f) v =
      let seen : Sees s.queue (took a) = rw e at (held.sees i) in
      v ∙ rw (same_front a b rest s.queue seen f) (sym (append-append s.pops (a ∷ []) rest))
  Step-IsOrdered held (call_push a e) v = v
  Step-IsOrdered held (lock_push a e free) v = v
  Step-IsOrdered held (notify j e w) v = v
  Step-IsOrdered held (notify_none e w) v = v
  Step-IsOrdered held (no_notify e) v = v
  Step-IsOrdered held (call_pop e) v = v
  Step-IsOrdered held (lock_pop e free) v = v
  Step-IsOrdered held (wait e f) v = v
  Step-IsOrdered held (front a rest e f) v = v
  Step-IsOrdered held (wake e) v = v

  -- However the steps of any number of threads are ordered, what was pushed is, in order, what the calls of
  -- `pop` returned, in the order in which they removed a value, and then what the queue holds: although a
  -- call reads the value and removes it in two steps, no value is returned twice and none is skipped.
  pub Reach-ordered : {C : ℕ → Type 0} {s : System A} → Reach C s → s.pushes ≡ s.pops ++ s.queue
  Reach-ordered start = refl
  Reach-ordered (later i r st c) = Step-IsOrdered (Reach-IsHeld r) st (Reach-ordered r)
