-- ===== src/ProducerConsumer/Queue/Lost.antt =====
-- A wake-up that a `SynchronizedQueue` loses.
use jeopardy.Prelude.{ℕ, ◌≡◌, ◌≢◌, refl, sym, ◌∙◌, true, false, [], ◌∷◌, none, arith}
use jeopardy.ProducerConsumer.Threads.{update}
use jeopardy.ProducerConsumer.Queue.{
  init, idle, waits, wants_pop, System, Step, call_push, lock_push, push, notify, notify_none,
  no_notify, call_pop, lock_pop, wait, front, pop, wake, Reach, start, later,
}

abbrev pub Anyone : ℕ → Type 0
Anyone i = Unit

-- A thread that waits does nothing by itself: its only step is a wake-up without a cause.
abbrev pub IsStuck : {A : Type 0} → System A → ℕ → Type 0
IsStuck {A} s j = (t : System A) → Step s j t → t ≡ record s { pc = update s.pc j wants_pop }

waits-IsStuck : {A : Type 0} (s : System A) (j : ℕ) → s.pc j ≡ waits → IsStuck s j
waits-IsStuck s j w t (call_push a e) = cc (sym e ∙ w)
waits-IsStuck s j w t (lock_push a e free) = cc (sym e ∙ w)
waits-IsStuck s j w t (push b a e) = cc (sym e ∙ w)
waits-IsStuck s j w t (notify i e f) = cc (sym e ∙ w)
waits-IsStuck s j w t (notify_none e f) = cc (sym e ∙ w)
waits-IsStuck s j w t (no_notify e) = cc (sym e ∙ w)
waits-IsStuck s j w t (call_pop e) = cc (sym e ∙ w)
waits-IsStuck s j w t (lock_pop e free) = cc (sym e ∙ w)
waits-IsStuck s j w t (wait e f) = cc (sym e ∙ w)
waits-IsStuck s j w t (front a rest e f) = cc (sym e ∙ w)
waits-IsStuck s j w t (pop a b rest e f) = cc (sym e ∙ w)
waits-IsStuck s j w t (wake e) = refl

-- Thread `j` waits although the queue holds `b`: `a` and `b` were pushed and `a` was popped, the mutex is
-- free, and no other thread is in a call, so that none is about to notify.
pub record Sleeps {A : Type 0} (j : ℕ) (a b : A) : Type 0 where
  pub state : System A
  pub reach : Reach Anyone state
  pub pushed_are : state.pushes ≡ a ∷ b ∷ []
  pub popped_are : state.pops ≡ a ∷ []
  pub holds : state.queue ≡ b ∷ []
  pub free : state.owner ≡ none
  pub idles : (m : ℕ) → m ≢ j → state.pc m ≡ idle
  pub sleeps : state.pc j ≡ waits
  pub stuck : IsStuck state j

module _ {A : Type 0} (i j k : ℕ) (ij : i ≢ j) (ik : i ≢ k) (jk : j ≢ k) (a b : A) where
  -- For any three different threads and any two values `a` and `b`, the steps of the threads lead to a state
  -- in which one of the three waits in `pop` although the queue holds `b`: `a` and `b` were pushed and `a`
  -- was popped, the mutex is free, every other thread is outside of `push` and `pop`, and the thread's
  -- own next step can only be a wake-up without a cause.
  pub lost_wakeup : Sleeps j a b
  lost_wakeup =
      let r0 : Reach {A = A} Anyone init = start in
      let r1 = later j r0 (call_pop refl) (λ _. tt) in
      let r2 = later j r1 (lock_pop (ground arith) refl) (λ _. tt) in
      let r3 = later j r2 (wait (ground arith) refl) (λ _. tt) in
      let r4 = later i r3 (call_pop (ground arith)) (λ _. tt) in
      let r5 = later i r4 (lock_pop (ground arith) refl) (λ _. tt) in
      let r6 = later i r5 (wait (ground arith) refl) (λ _. tt) in
      let r7 = later k r6 (call_push a (ground arith)) (λ _. tt) in
      let r8 = later k r7 (lock_push a (ground arith) refl) (λ _. tt) in
      let r9 = later k r8 (push true a (ground arith)) (λ _. tt) in
      let r10 = later k r9 (notify i (ground arith) (ground arith)) (λ _. tt) in
      let r11 = later k r10 (call_push b (ground arith)) (λ _. tt) in
      let r12 = later k r11 (lock_push b (ground arith) refl) (λ _. tt) in
      let r13 = later k r12 (push false b (ground arith)) (λ _. tt) in
      let r14 = later k r13 (no_notify (ground arith)) (λ _. tt) in
      let r15 = later i r14 (lock_pop (ground arith) refl) (λ _. tt) in
      let r16 = later i r15 (front a (b ∷ []) (ground arith) refl) (λ _. tt) in
      let r17 = later i r16 (pop a a (b ∷ []) (ground arith) refl) (λ _. tt) in
      record {
        state = _;
        reach = r17;
        pushed_are = refl;
        popped_are = refl;
        holds = refl;
        free = refl;
        idles = λ m ne. ground arith;
        sleeps = ground arith;
        stuck = waits-IsStuck _ j (ground arith);
      }
