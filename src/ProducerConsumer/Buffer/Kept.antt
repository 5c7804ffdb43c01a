-- ===== src/ProducerConsumer/Buffer/Kept.antt =====
-- What every step on a `Buffer` keeps.
use jeopardy.Prelude.{
  ℕ, ◌≡◌, ◌≤◌, refl, sym, true, false, List, [], ◌∷◌, ◌++◌, Option, none, some, length, ◌==◌, arith,
  ◌⊎◌, inl, inr, Bool-cases,
}
use mathlib.Core.List.{Perm, perm_middle}
use mathlib.Core.List.Perm
use jeopardy.ProducerConsumer.Threads.{update, update_self, update_ne}
use jeopardy.ProducerConsumer.Buffer.{
  capacity, Pc, idle, wants_add, tests_add, waits_add, told_add, wants_remove, tests_remove,
  waits_remove, told_remove, woken, holds, is_told, System, Step, call_add, lock_add, wait_add,
  push_back, notify_add, wake_add, call_remove, lock_remove, wait_remove, pop_back, notify_remove,
  wake_remove, Reach, start, later,
}

module _ {A : Type 0} where
  -- The holder of the mutex is the thread between its lock and its unlock.
  pub record IsOwned (s : System A) : Type 0 where
    pub owned : (j : ℕ) → holds (s.pc j) ≡ true → s.owner ≡ some j
    pub held : (j : ℕ) → s.owner ≡ some j → holds (s.pc j) ≡ true

  woken-holds : (p : Pc A) → holds (woken p) ≡ holds p
  woken-holds p = ground arith

  -- A thread that does not hold the mutex goes on to where it does not either.
  passes :
      (s : System A) (i : ℕ) (p : Pc A)
      → IsOwned s
      → holds (s.pc i) ≡ false
      → holds p ≡ false
      → IsOwned (record s { pc = update s.pc i p })
  passes s i p v from to = record {
    owned = λ j h. ground (arith, v.owned j);
    held = λ j h. ground (arith, v.held j);
  }

  takes :
      (s : System A) (i : ℕ) (p : Pc A)
      → IsOwned s
      → s.owner ≡ none
      → holds p ≡ true
      → IsOwned (record s { owner = some i; pc = update s.pc i p })
  takes s i p v free to = record {
    owned = λ j h. ground (arith, v.owned j);
    held = λ j h. ground (arith, v.held j);
  }

  leaves :
      (s : System A) (i : ℕ) (p : Pc A) (b add rem : List A)
      → IsOwned s
      → holds (s.pc i) ≡ true
      → holds p ≡ false
      → IsOwned
          (record s { buffer = b; owner = none; pc = update s.pc i p; added = add; removed = rem })
  leaves s i p b add rem v from to = record {
    owned = λ j h. ground (arith, v.owned j, v.owned i);
    held = λ j h. ground arith;
  }

  notifies :
      (s : System A) (i : ℕ)
      → IsOwned s
      → holds (s.pc i) ≡ false
      → IsOwned (record s { pc = update (λ j. woken (s.pc j)) i idle })
  notifies s i v from = record {
    owned = λ j h. ground (arith, v.owned j, woken-holds (s.pc j));
    held = λ j h. ground (arith, v.held j, woken-holds (s.pc j));
  }

  Step-IsOwned : {s : System A} {i : ℕ} {t : System A} → Step s i t → IsOwned s → IsOwned t
  Step-IsOwned {s} {i} (call_add a e) v = passes s i (wants_add a) v (rw e refl) refl
  Step-IsOwned {s} {i} (lock_add a e free) v = takes s i (tests_add a) v free refl
  Step-IsOwned {s} {i} (wait_add a e l) v =
      leaves s i (waits_add a) s.buffer s.added s.removed v (rw e refl) refl
  Step-IsOwned {s} {i} (push_back a e l) v =
      leaves s i told_add (a ∷ s.buffer) (a ∷ s.added) s.removed v (rw e refl) refl
  Step-IsOwned {s} {i} (notify_add e) v = notifies s i v (rw e refl)
  Step-IsOwned {s} {i} (wake_add a e) v = passes s i (wants_add a) v (rw e refl) refl
  Step-IsOwned {s} {i} (call_remove e) v = passes s i wants_remove v (rw e refl) refl
  Step-IsOwned {s} {i} (lock_remove e free) v = takes s i tests_remove v free refl
  Step-IsOwned {s} {i} (wait_remove e l) v =
      leaves s i waits_remove s.buffer s.added s.removed v (rw e refl) refl
  Step-IsOwned {s} {i} (pop_back back rest e l) v =
      leaves s i (told_remove back) rest s.added (back ∷ s.removed) v (rw e refl) refl
  Step-IsOwned {s} {i} (notify_remove back e) v = notifies s i v (rw e refl)
  Step-IsOwned {s} {i} (wake_remove e) v = passes s i wants_remove v (rw e refl) refl

  abbrev pub Told : (ℕ → Pc A) → Type 0
  Told pc = (j : ℕ) × (is_told (pc j) ≡ true)

  -- A thread waits only for a state that is not there, or that a thread is about to tell of.
  pub record IsAwake (s : System A) : Type 0 where
    pub few : length s.buffer ≤ capacity
    pub full : (j : ℕ) (a : A) → s.pc j ≡ waits_add a → (capacity ≤ length s.buffer) ⊎ Told s.pc
    pub empty : (j : ℕ) → s.pc j ≡ waits_remove → (s.buffer ≡ []) ⊎ Told s.pc

  still-Told :
      (pc : ℕ → Pc A) (i : ℕ) (p : Pc A) → is_told (pc i) ≡ false → Told pc → Told (update pc i p)
  still-Told pc i p from (j, told) =
      (j, rw (update_ne pc i j p (λ e. let w : is_told (pc i) ≡ true = rw (sym e) told in cc)) told)

  moves :
      (s : System A) (i : ℕ) (p : Pc A) (o : Option ℕ)
      → IsAwake s
      → is_told (s.pc i) ≡ false
      → ((a : A) → p ≡ waits_add a → capacity ≤ length s.buffer)
      → (p ≡ waits_remove → s.buffer ≡ [])
      → IsAwake (record s { owner = o; pc = update s.pc i p })
  moves s i p o v from to_add to_remove = record {
    few = v.few;
    full = λ j a w. elim (Bool-cases (j == i)) [
      | inl same ↦ inl (to_add a (rw same at w))
      | inr away ↦ elim (v.full j a (rw away at w)) [
        | inl l ↦ inl l
        | inr told ↦ inr (still-Told s.pc i p from told)
      ]
    ];
    empty = λ j w. elim (Bool-cases (j == i)) [
      | inl same ↦ inl (to_remove (rw same at w))
      | inr away ↦ elim (v.empty j (rw away at w)) [
        | inl l ↦ inl l
        | inr told ↦ inr (still-Told s.pc i p from told)
      ]
    ];
  }

  tells :
      (s : System A) (i : ℕ) (p : Pc A) (b add rem : List A)
      → length b ≤ capacity
      → is_told p ≡ true
      → IsAwake
          (record s { buffer = b; owner = none; pc = update s.pc i p; added = add; removed = rem })
  tells s i p b add rem few told =
      let now : Told (update s.pc i p) = (i, rw (update_self s.pc i p) told) in
      record { few = few; full = λ j a w. inr now; empty = λ j w. inr now }

  woken-add : (p : Pc A) (a : A) → ¬ (woken p ≡ waits_add a)
  woken-add p a w = ground arith

  woken-remove : (p : Pc A) → ¬ (woken p ≡ waits_remove)
  woken-remove p w = ground arith

  awakens :
      (s : System A) (i : ℕ)
      → IsAwake s
      → IsAwake (record s { pc = update (λ j. woken (s.pc j)) i idle })
  awakens s i v = record {
    few = v.few;
    full = λ j a w. elim (Bool-cases (j == i)) [
      | inl same ↦ cc (rw same at w)
      | inr away ↦ absurd (woken-add (s.pc j) a (rw away at w))
    ];
    empty = λ j w. elim (Bool-cases (j == i)) [
      | inl same ↦ cc (rw same at w)
      | inr away ↦ absurd (woken-remove (s.pc j) (rw away at w))
    ];
  }

  Step-IsAwake : {s : System A} {i : ℕ} {t : System A} → Step s i t → IsAwake s → IsAwake t
  Step-IsAwake {s} {i} (call_add a e) v =
      moves s i (wants_add a) s.owner v (rw e refl) (λ b w. cc w) (λ w. cc w)
  Step-IsAwake {s} {i} (lock_add a e free) v =
      moves s i (tests_add a) (some i) v (rw e refl) (λ b w. cc w) (λ w. cc w)
  Step-IsAwake {s} {i} (wait_add a e l) v =
      moves s i (waits_add a) none v (rw e refl) (λ b w. l) (λ w. cc w)
  Step-IsAwake {s} {i} (push_back a e l) v =
      tells s i told_add (a ∷ s.buffer) (a ∷ s.added) s.removed (omega arith) refl
  Step-IsAwake {s} {i} (notify_add e) v = awakens s i v
  Step-IsAwake {s} {i} (wake_add a e) v =
      moves s i (wants_add a) s.owner v (rw e refl) (λ b w. cc w) (λ w. cc w)
  Step-IsAwake {s} {i} (call_remove e) v =
      moves s i wants_remove s.owner v (rw e refl) (λ b w. cc w) (λ w. cc w)
  Step-IsAwake {s} {i} (lock_remove e free) v =
      moves s i tests_remove (some i) v (rw e refl) (λ b w. cc w) (λ w. cc w)
  Step-IsAwake {s} {i} (wait_remove e l) v =
      moves s i waits_remove none v (rw e refl) (λ b w. cc w) (λ w. l)
  Step-IsAwake {s} {i} (pop_back back rest e l) v =
      let n : length (back ∷ rest) ≤ capacity = rw l at v.few in
      tells s i (told_remove back) rest s.added (back ∷ s.removed) (omega arith) refl
  Step-IsAwake {s} {i} (notify_remove back e) v = awakens s i v
  Step-IsAwake {s} {i} (wake_remove e) v =
      moves s i wants_remove s.owner v (rw e refl) (λ b w. cc w) (λ w. cc w)

  -- Each value is either in the buffer or was removed, once.
  abbrev pub IsKept : System A → Type 0
  IsKept s = Perm s.added (s.removed ++ s.buffer)

  Step-IsKept : {s : System A} {i : ℕ} {t : System A} → Step s i t → IsKept s → IsKept t
  Step-IsKept {s} (push_back a e l) v =
      Perm.trans (Perm.cons a v) (Perm.symm (perm_middle s.removed s.buffer))
  Step-IsKept {s} (pop_back back rest e l) v = Perm.trans (rw l at v) (perm_middle s.removed rest)
  Step-IsKept (call_add a e) v = v
  Step-IsKept (lock_add a e free) v = v
  Step-IsKept (wait_add a e l) v = v
  Step-IsKept (notify_add e) v = v
  Step-IsKept (wake_add a e) v = v
  Step-IsKept (call_remove e) v = v
  Step-IsKept (lock_remove e free) v = v
  Step-IsKept (wait_remove e l) v = v
  Step-IsKept (notify_remove back e) v = v
  Step-IsKept (wake_remove e) v = v

  pub record IsSound (s : System A) : Type 0 where
    pub owned : IsOwned s
    pub awake : IsAwake s
    pub kept : IsKept s

  pub Reach-IsSound : {s : System A} → Reach s → IsSound s
  Reach-IsSound start = record {
    owned = record { owned = λ j h. cc h; held = λ j h. cc h };
    awake = record { few = omega arith; full = λ j a w. cc w; empty = λ j w. cc w };
    kept = Perm.refl [];
  }
  Reach-IsSound (later i r st) =
      let v = Reach-IsSound r in
      record {
        owned = Step-IsOwned st v.owned;
        awake = Step-IsAwake st v.awake;
        kept = Step-IsKept st v.kept;
      }
