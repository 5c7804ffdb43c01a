-- ===== src/ProducerConsumer/Queue/Held.antt =====
-- The mutex of a `SynchronizedQueue`: what a thread saw of the queue is so until it lets go of the mutex.
use jeopardy.Prelude.{
  ℕ, ◌≡◌, ◌≢◌, refl, sym, ◌∙◌, ap, List, [], ◌∷◌, ◌++◌, Option, none, some, Bool, true, false,
  arith, inl, inr, ◌==◌, Bool-cases, ==_iff,
}
use jeopardy.ProducerConsumer.Threads.{update, update_ne}
use jeopardy.ProducerConsumer.Queue.{
  Pc, idle, wants_push, pushing, pushed, wants_pop, tests, waits, took, System, is_empty, Step,
  call_push, lock_push, push, notify, notify_none, no_notify, call_pop, lock_pop, wait, front, pop,
  wake, Reach, start, later,
}

module _ {A : Type 0} where
  -- Whether a thread holds the mutex.
  abbrev pub holds : Pc A → Bool
  holds (pushing empty a) = true
  holds (pushed empty) = true
  holds tests = true
  holds (took a) = true
  holds p = false

  -- What a thread knows of the queue.
  abbrev pub Sees : List A → Pc A → Type 0
  Sees queue (pushing empty a) = empty ≡ is_empty queue
  Sees queue (took a) = (rest : List A) × (queue ≡ a ∷ rest)
  Sees queue p = Unit

  pub record IsHeld (s : System A) : Type 0 where
    pub owned : (j : ℕ) → holds (s.pc j) ≡ true → s.owner ≡ some j
    pub sees : (j : ℕ) → Sees s.queue (s.pc j)

  -- Without the mutex a thread knows nothing of the queue.
  blind : (queue : List A) (p : Pc A) → holds p ≡ false → Sees queue p
  blind queue idle e = tt
  blind queue (wants_push a) e = tt
  blind queue (pushing b a) e = cc e
  blind queue (pushed b) e = tt
  blind queue wants_pop e = tt
  blind queue tests e = tt
  blind queue waits e = tt
  blind queue (took a) e = cc e

  -- Thread `i` goes on to `p`, with the queue `q` and the holder `o`.
  goes :
      (s : System A) (i : ℕ) (p : Pc A) (o : Option ℕ) (q xs ys : List A)
      → IsHeld s
      → (holds p ≡ true → o ≡ some i)
      → ((j : ℕ) → j ≢ i → holds (s.pc j) ≡ true → (o ≡ some j) × (q ≡ s.queue))
      → Sees q p
      → IsHeld (record { queue = q; owner = o; pc = update s.pc i p; pushes = xs; pops = ys })
  goes s i p o q xs ys v own others seen = record {
    owned = λ j h. elim (Bool-cases (j == i)) [
      | inl same ↦ let e = (==_iff j i).0 same in own (rw same at h) ∙ ap (λ n. some n) (sym e)
      | inr away ↦ (others j (λ e. ground arith) (rw away at h)).0
    ];
    sees = λ j. elim (Bool-cases (j == i)) [
      | inl same ↦ rw same seen
      | inr away ↦ rw away (elim (Bool-cases (holds (s.pc j))) [
        | inl h ↦ rw ((others j (λ e. ground arith) h).1) (v.sees j)
        | inr free ↦ blind q (s.pc j) free
      ])
    ];
  }

  -- No other thread than `i`, which holds the mutex, holds it.
  pub lone :
      (s : System A) (i j : ℕ)
      → IsHeld s
      → holds (s.pc i) ≡ true
      → j ≢ i
      → holds (s.pc j) ≡ true
      → {B : Type 0} → B
  lone s i j v hi ne hj = let a = v.owned i hi in let b = v.owned j hj in absurd (ne (ground arith))

  -- Nobody holds a mutex that is free.
  pub unheld :
      (s : System A) (j : ℕ) → IsHeld s → s.owner ≡ none → holds (s.pc j) ≡ true → {B : Type 0} → B
  unheld s j v free h = let e = sym (v.owned j h) ∙ free in absurd (cc e)

  Step-IsHeld : {s : System A} {i : ℕ} {t : System A} → Step s i t → IsHeld s → IsHeld t
  Step-IsHeld {s} {i} (call_push a e) v =
      goes s i (wants_push a) s.owner s.queue s.pushes s.pops v (λ h. cc h)
        (λ j ne h. (v.owned j h, refl)) tt
  Step-IsHeld {s} {i} (lock_push a e free) v =
      goes s i (pushing (is_empty s.queue) a) (some i) s.queue s.pushes s.pops v (λ h. refl)
        (λ j ne h. unheld s j v free h) refl
  Step-IsHeld {s} {i} (push w a e) v =
      goes s i (pushed w) s.owner (s.queue ++ a ∷ []) (s.pushes ++ a ∷ []) s.pops v
        (λ h. v.owned i (rw e refl)) (λ j ne h. lone s i j v (rw e refl) ne h) tt
  Step-IsHeld {s} {i} (notify j e w) v =
      let woken = record s { pc = update s.pc j wants_pop } in
      let u =
        goes s j wants_pop s.owner s.queue s.pushes s.pops v (λ h. cc h)
          (λ k ne h. (v.owned k h, refl)) tt in
      let here : update s.pc j wants_pop i ≡ pushed true =
        update_ne s.pc j i wants_pop (λ x. cc (sym e ∙ ap s.pc x ∙ w)) ∙ e in
      goes woken i idle none s.queue s.pushes s.pops u (λ h. cc h)
        (λ k ne h. lone woken i k u (rw here refl) ne h) tt
  Step-IsHeld {s} {i} (notify_none e w) v =
      goes s i idle none s.queue s.pushes s.pops v (λ h. cc h)
        (λ j ne h. lone s i j v (rw e refl) ne h) tt
  Step-IsHeld {s} {i} (no_notify e) v =
      goes s i idle none s.queue s.pushes s.pops v (λ h. cc h)
        (λ j ne h. lone s i j v (rw e refl) ne h) tt
  Step-IsHeld {s} {i} (call_pop e) v =
      goes s i wants_pop s.owner s.queue s.pushes s.pops v (λ h. cc h)
        (λ j ne h. (v.owned j h, refl)) tt
  Step-IsHeld {s} {i} (lock_pop e free) v =
      goes s i tests (some i) s.queue s.pushes s.pops v (λ h. refl) (λ j ne h. unheld s j v free h)
        tt
  Step-IsHeld {s} {i} (wait e f) v =
      goes s i waits none s.queue s.pushes s.pops v (λ h. cc h)
        (λ j ne h. lone s i j v (rw e refl) ne h) tt
  Step-IsHeld {s} {i} (front a rest e f) v =
      goes s i (took a) s.owner s.queue s.pushes s.pops v (λ h. v.owned i (rw e refl))
        (λ j ne h. (v.owned j h, refl)) (rest, f)
  Step-IsHeld {s} {i} (pop a b rest e f) v =
      goes s i idle none rest s.pushes (s.pops ++ a ∷ []) v (λ h. cc h)
        (λ j ne h. lone s i j v (rw e refl) ne h) tt
  Step-IsHeld {s} {i} (wake e) v =
      goes s i wants_pop s.owner s.queue s.pushes s.pops v (λ h. cc h)
        (λ j ne h. (v.owned j h, refl)) tt

  pub Reach-IsHeld : {C : ℕ → Type 0} {s : System A} → Reach C s → IsHeld s
  Reach-IsHeld start = record { owned = λ j h. cc h; sees = λ j. tt }
  Reach-IsHeld (later i r st c) = Step-IsHeld st (Reach-IsHeld r)
