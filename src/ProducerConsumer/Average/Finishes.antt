-- ===== src/ProducerConsumer/Average/Finishes.antt =====
-- However the two agents take turns, they finish, with the average of what was sent.
use jeopardy.Prelude.{
  All, append-All, ℕ, zero, suc, ◌+◌, ◌*◌, ◌/◌, ◌^◌, ◌≡◌, ◌≢◌, ◌<◌, ◌≤◌, refl, List, [], ◌∷◌, ◌++◌,
  length, length-append, arith, ◌⊎◌, inl, inr,
}
use jeopardy.ProducerConsumer.Average.{
  Producer, sending, done, Consumer, receiving, averaged, undefined, System, Step, send,
  send_sentinel, add, overflow, average, divide_by_zero, Run, start, later,
}

-- The sum of the numbers up to `n`.
unfoldable pub triangle : ℕ → ℕ
triangle zero = 0
triangle (suc n) = suc n + triangle n

abbrev total : List ℕ → ℕ
total [] = 0
total (x ∷ xs) = x + total xs

total-append : (xs ys : List ℕ) → total (xs ++ ys) ≡ total xs + total ys
total-append [] ys = omega arith
total-append (x ∷ xs) ys = let r = total-append xs ys in omega arith

abbrev IsPositive : ℕ → Type 0
IsPositive x = 0 < x

-- What is in the buffer, was received and is left to send makes up the numbers from `c` down to 1.
abbrev IsSound : ℕ → List ℕ → Producer → Consumer → Type 0
IsSound c b (sending n) (receiving sum count) =
    All IsPositive b × (total b + sum + triangle n ≡ triangle c) × (length b + count + n ≡ c)
IsSound c b done (receiving sum count) =
    (xs : List ℕ) × (b ≡ xs ++ 0 ∷ [])
    × All IsPositive xs
    × (total xs + sum ≡ triangle c)
    × (length xs + count ≡ c)
IsSound c b done (averaged v) = (b ≡ []) × (v ≡ triangle c / c)
IsSound c b _ _ = ⊥

module _ (c : ℕ) where
  sends :
      (b : List ℕ) (n : ℕ) (q : Consumer)
      → IsSound c b (sending (suc n)) q
      → IsSound c (b ++ suc n ∷ []) (sending n) q
  unfolding triangle
  sends b n (receiving sum count) (pos, t, l) =
      let more = total-append b (suc n ∷ []) in
      let long = length-append b (suc n ∷ []) in
      (append-All IsPositive b (suc n ∷ []) pos (omega arith, tt), omega arith, omega arith)
  sends b n (averaged v) g = g
  sends b n undefined g = g

  ends : (b : List ℕ) (q : Consumer) → IsSound c b (sending 0) q → IsSound c (b ++ 0 ∷ []) done q
  unfolding triangle
  ends b (receiving sum count) (pos, t, l) = (b, refl, pos, omega arith, omega arith)
  ends b (averaged v) g = absurd g
  ends b undefined g = absurd g

  -- The first message, where it is not the sentinel.
  adds :
      (n : ℕ) (rest : List ℕ) (p : Producer) (sum count : ℕ)
      → IsSound c (n ∷ rest) p (receiving sum count)
      → n ≢ 0
      → IsSound c rest p (receiving (sum + n) (count + 1)) × (sum + n ≤ triangle c)
  adds n rest (sending m) sum count (pos, t, l) ne =
      ((pos.1, omega arith, omega arith), omega arith)
  adds n rest done sum count ([], e, pos, t, l) ne = absurd (ne (ground arith))
  adds n rest done sum count (x ∷ xs, e, pos, t, l) ne =
      let at : n ≡ x = ground arith in
      ((xs, ground arith, pos.1, omega arith, omega arith), omega arith)

  -- The sentinel, behind the numbers.
  closes :
      (rest : List ℕ) (p : Producer) (sum count : ℕ)
      → IsSound c (0 ∷ rest) p (receiving sum count)
      → (p ≡ done) × (rest ≡ []) × (sum ≡ triangle c) × (count ≡ c)
  closes rest (sending m) sum count (pos, t, l) = absurd (omega (arith, pos.0))
  closes rest done sum count ([], e, pos, t, l) = (refl, ground arith, omega arith, omega arith)
  closes rest done sum count (x ∷ xs, e, pos, t, l) =
      let at : 0 ≡ x = ground arith in absurd (omega (arith, pos.0))

  -- Both agents are done, with the average of the numbers up to `c`.
  abbrev pub Finished : System → Type 0
  Finished s = (s.producer ≡ done) × (s.consumer ≡ averaged (triangle c / c)) × (s.buffer ≡ [])

  module _ (some_sent : 0 < c) (fits : triangle c < 2 ^ 31) where
    abbrev Sound : System → Type 0
    Sound s = IsSound c s.buffer s.producer s.consumer

    Step-IsSound : {s t : System} → Step 0 s t → Sound s → Sound t
    Step-IsSound {s} (send n e) v = sends s.buffer n s.consumer (rw e at v)
    Step-IsSound {s} (send_sentinel e) v = ends s.buffer s.consumer (rw e at v)
    Step-IsSound {s} (add n rest sum count e q ne lt) v =
        (adds n rest s.producer sum count (rw (e, q) at v) ne).0
    Step-IsSound {s} (overflow n rest sum count e q ne over) v =
        let l = (adds n rest s.producer sum count (rw (e, q) at v) ne).1 in absurd (omega arith)
    Step-IsSound {s} (average rest sum count e q ne) v =
        let r = closes rest s.producer sum count (rw (e, q) at v) in
        rw r.0 (r.1, rw (r.2, r.3) refl)
    Step-IsSound {s} (divide_by_zero rest sum e q) v =
        let r = closes rest s.producer sum 0 (rw (e, q) at v) in
        let none : 0 ≡ c = r.3 in absurd (omega arith)

    -- The steps that are left.
    abbrev remaining : Producer → ℕ
    remaining (sending n) = 2 * (n + 1)
    remaining done = 0

    abbrev rounds : System → ℕ
    rounds s = remaining s.producer + length s.buffer

    Step-rounds : {s t : System} → Step 0 s t → Sound s → rounds t + 1 ≡ rounds s
    Step-rounds {s} (send n e) v = let l = length-append s.buffer (suc n ∷ []) in rw e (omega arith)
    Step-rounds {s} (send_sentinel e) v =
        let l = length-append s.buffer (0 ∷ []) in rw e (omega arith)
    Step-rounds {s} (add n rest sum count e q ne lt) v = rw e (omega arith)
    Step-rounds {s} (overflow n rest sum count e q ne over) v = rw e (omega arith)
    Step-rounds {s} (average rest sum count e q ne) v = rw e (omega arith)
    Step-rounds {s} (divide_by_zero rest sum e q) v = rw e (omega arith)

    Run-IsSound :
        {steps : ℕ} {s : System} → Run 0 c steps s → Sound s × (steps + rounds s ≡ 2 * (c + 1))
    Run-IsSound start = ((tt, omega arith, omega arith), omega arith)
    Run-IsSound (later r st) =
        let v = Run-IsSound r in
        let l = Step-rounds st v.0 in (Step-IsSound st v.0, (let e = v.1 in omega arith))

    goes_on :
        (s : System) (p : Producer) (q : Consumer)
        → s.producer ≡ p
        → s.consumer ≡ q
        → IsSound c s.buffer p q
        → ((t : System) × Step 0 s t) ⊎ Finished s
    goes_on s (sending zero) q e f v = inl (_, send_sentinel e)
    goes_on s (sending (suc n)) q e f v = inl (_, send n e)
    goes_on s done (averaged x) e f (b, v) = inr (e, rw (← v) f, b)
    goes_on s done undefined e f v = absurd v
    goes_on s done (receiving sum count) e f ([], b, pos, t, l) =
        inl (_, average [] sum count b f (λ z. omega arith))
    goes_on s done (receiving sum count) e f (x ∷ xs, b, pos, t, l) =
        inl (_, add x (xs ++ 0 ∷ []) sum count b f (λ z. omega (arith, pos.0)) (omega arith))

    -- For a sentinel of 0 and at least one number, whose sum an `int` holds: however the two agents take turns,
    -- a run has at most 2 * (c + 1) steps, and goes on until the buffer is empty and both are done, with the
    -- average of the numbers from 1 to `c`.
    pub Run-finishes :
        {steps : ℕ} {s : System}
        → Run 0 c steps s
        → (steps ≤ 2 * (c + 1)) × (((t : System) × Step 0 s t) ⊎ Finished s)
    Run-finishes {steps} {s} r =
        let v = Run-IsSound r in
        ((let e = v.1 in omega arith), goes_on s s.producer s.consumer refl refl v.0)
