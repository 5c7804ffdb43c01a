-- ===== src/ProducerConsumer/Queue/Wakes.antt =====
-- The wake-ups of a `SynchronizedQueue`: none is lost for one consumer.
use jeopardy.Prelude.{
  ℕ, ◌≡◌, ◌≢◌, refl, sym, ◌∙◌, ap, List, [], ◌∷◌, ◌++◌, Bool, true, false, arith, ◌⊎◌, inl, inr,
  ◌==◌, Bool-cases, ==_iff,
}
use jeopardy.ProducerConsumer.Threads.{update, update_self, update_ne}
use jeopardy.ProducerConsumer.Queue.{
  Pc, idle, wants_push, pushing, pushed, wants_pop, tests, waits, took, System, is_empty, Step,
  call_push, lock_push, push, notify, notify_none, no_notify, call_pop, lock_pop, wait, front, pop,
  wake, Reach, start, later,
}
use jeopardy.ProducerConsumer.Queue.Held.{Sees, IsHeld, Reach-IsHeld}

module _ {A : Type 0} where
  -- Whether a thread is in a call of `pop`.
  abbrev pub is_popping : Pc A → Bool
  is_popping wants_pop = true
  is_popping tests = true
  is_popping waits = true
  is_popping (took a) = true
  is_popping p = false

  -- A thread is about to call `notify_one`.
  abbrev pub Notifies : (ℕ → Pc A) → Type 0
  Notifies pc = (j : ℕ) × (pc j ≡ pushed true)

  module _ (k : ℕ) where
    record IsSound (queue : List A) (pc : ℕ → Pc A) : Type 0 where
      alone : (j : ℕ) → is_popping (pc j) ≡ true → j ≡ k
      awake : pc k ≡ waits → (queue ≡ []) ⊎ Notifies pc

    -- A thread that neither notifies nor waits goes on to where it does not wait.
    moves :
        (queue : List A) (pc : ℕ → Pc A) (i : ℕ) (p : Pc A)
        → IsSound queue pc
        → (is_popping p ≡ true → i ≡ k)
        → (p ≡ waits → queue ≡ [])
        → pc i ≢ pushed true
        → IsSound queue (update pc i p)
    moves queue pc i p v popping sleeps quiet = record {
      alone = λ j h. elim (Bool-cases (j == i)) [
        | inl same ↦ (==_iff j i).0 same ∙ popping (rw same at h)
        | inr away ↦ v.alone j (rw away at h)
      ];
      awake = λ w. elim (Bool-cases (k == i)) [
        | inl same ↦ inl (sleeps (rw same at w))
        | inr away ↦ elim (v.awake (rw away at w)) [
          | inl empty ↦ inl empty
          | inr (j, told) ↦ inr (j, update_ne pc i j p (λ e. quiet (rw (sym e) told)) ∙ told)
        ]
      ];
    }

    pushes :
        (queue : List A) (pc : ℕ → Pc A) (i : ℕ) (empty : Bool) (a : A)
        → IsSound queue pc
        → pc i ≡ pushing empty a
        → empty ≡ is_empty queue
        → IsSound (queue ++ a ∷ []) (update pc i (pushed empty))
    pushes queue pc i empty a v e seen =
        let u = moves queue pc i (pushed empty) v (λ h. cc h) (λ w. cc w) (λ f. cc (sym e ∙ f)) in
        record {
          alone = u.alone;
          awake = λ w. elim (u.awake w) [
            | inl none' ↦
                inr (i, update_self pc i _ ∙ ap (λ b. pushed b) (seen ∙ ap (λ q. is_empty q) none'))
            | inr told ↦ inr told
          ];
        }

    -- The consumer itself goes on, and does not wait.
    pops :
        (queue rest : List A) (pc : ℕ → Pc A) (i : ℕ) (a : A)
        → IsSound queue pc
        → pc i ≡ took a
        → IsSound rest (update pc i idle)
    pops queue rest pc i a v e =
        let u = moves queue pc i idle v (λ h. cc h) (λ w. cc w) (λ f. cc (sym e ∙ f)) in
        record {
          alone = u.alone;
          awake = λ w.
              let me : i ≡ k = v.alone i (rw e refl) in
              let at : update pc i idle i ≡ waits = rw (sym me) at w in
              cc (sym (update_self pc i idle) ∙ at);
        }

    wakes :
        (queue : List A) (pc : ℕ → Pc A) (i j : ℕ)
        → IsSound queue pc
        → pc j ≡ waits
        → IsSound queue (update (update pc j wants_pop) i idle)
    wakes queue pc i j v w = record {
      alone = λ m h. elim (Bool-cases (m == i)) [
        | inl same ↦ cc (rw same at h)
        | inr away ↦ elim (Bool-cases (m == j)) [
          | inl same ↦ (==_iff m j).0 same ∙ v.alone j (rw w refl)
          | inr far ↦ v.alone m (rw (away, far) at h)
        ]
      ];
      awake = λ x. elim (Bool-cases (k == i)) [
        | inl same ↦ cc (rw same at x)
        | inr away ↦
            let me : (k == j) ≡ true = let g = v.alone j (rw w refl) in ground arith in
            cc (rw (away, me) at x)
      ];
    }

    wakes_none :
        (queue : List A) (pc : ℕ → Pc A) (i : ℕ)
        → IsSound queue pc
        → ((j : ℕ) → pc j ≢ waits)
        → IsSound queue (update pc i idle)
    wakes_none queue pc i v silent = record {
      alone = λ j h. elim (Bool-cases (j == i)) [
        | inl same ↦ cc (rw same at h)
        | inr away ↦ v.alone j (rw away at h)
      ];
      awake = λ w. elim (Bool-cases (k == i)) [
        | inl same ↦ cc (rw same at w)
        | inr away ↦ absurd (silent k (rw away at w))
      ];
    }

    Step-IsSound :
        {s : System A} {i : ℕ} {t : System A}
        → IsHeld s
        → Step s i t
        → (t.pc i ≡ wants_pop → i ≡ k)
        → IsSound s.queue s.pc
        → IsSound t.queue t.pc
    Step-IsSound {s} {i} held (call_push a e) c v =
        moves s.queue s.pc i (wants_push a) v (λ h. cc h) (λ w. cc w) (λ f. cc (sym e ∙ f))
    Step-IsSound {s} {i} held (lock_push a e free) c v =
        moves s.queue s.pc i (pushing (is_empty s.queue) a) v (λ h. cc h) (λ w. cc w)
          (λ f. cc (sym e ∙ f))
    Step-IsSound {s} {i} held (push b a e) c v =
        let seen : Sees s.queue (pushing b a) = rw e at (held.sees i) in
        pushes s.queue s.pc i b a v e seen
    Step-IsSound {s} {i} held (notify j e w) c v = wakes s.queue s.pc i j v w
    Step-IsSound {s} {i} held (notify_none e silent) c v = wakes_none s.queue s.pc i v silent
    Step-IsSound {s} {i} held (no_notify e) c v =
        moves s.queue s.pc i idle v (λ h. cc h) (λ w. cc w) (λ f. cc (sym e ∙ f))
    Step-IsSound {s} {i} held (call_pop e) c v =
        moves s.queue s.pc i wants_pop v (λ h. c (update_self s.pc i wants_pop)) (λ w. cc w)
          (λ f. cc (sym e ∙ f))
    Step-IsSound {s} {i} held (lock_pop e free) c v =
        moves s.queue s.pc i tests v (λ h. v.alone i (rw e refl)) (λ w. cc w) (λ f. cc (sym e ∙ f))
    Step-IsSound {s} {i} held (wait e empty) c v =
        moves s.queue s.pc i waits v (λ h. v.alone i (rw e refl)) (λ w. empty) (λ f. cc (sym e ∙ f))
    Step-IsSound {s} {i} held (front a rest e f) c v =
        moves s.queue s.pc i (took a) v (λ h. v.alone i (rw e refl)) (λ w. cc w)
          (λ f. cc (sym e ∙ f))
    Step-IsSound {s} {i} held (pop a b rest e f) c v = pops s.queue rest s.pc i a v e
    Step-IsSound {s} {i} held (wake e) c v =
        moves s.queue s.pc i wants_pop v (λ h. v.alone i (rw e refl)) (λ w. cc w)
          (λ f. cc (sym e ∙ f))

    Reach-IsSound : {s : System A} → Reach (λ i. i ≡ k) s → IsSound s.queue s.pc
    Reach-IsSound start = record { alone = λ j h. cc h; awake = λ w. cc w }
    Reach-IsSound (later i r st c) = Step-IsSound (Reach-IsHeld r) st c (Reach-IsSound r)

    -- Where one thread alone calls `pop`, and however the steps of the threads are ordered: it waits only
    -- while the queue is empty, or a thread is about to notify it.
    pub Reach-wakes :
        {s : System A} → Reach (λ i. i ≡ k) s → s.pc k ≡ waits → (s.queue ≡ []) ⊎ Notifies s.pc
    Reach-wakes r w = (Reach-IsSound r).awake w
