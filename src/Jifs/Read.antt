-- ===== src/Jifs/Read.antt =====
-- JIFS/file.c: what a caller gets who reads a counter file in pieces.
use jeopardy.Prelude.{
  ℕ, zero, suc, ◌+◌, ◌-◌, ◌%◌, ◌^◌, ◌≡◌, ◌≢◌, ◌≤◌, ◌<◌, refl, inl, inr, arith, List, [], ◌∷◌, ◌++◌,
  true, false, ltb, leb, ◌==◌, some, if◌then◌else◌, length, take, drop, take-append-drop,
  length-append, length-take, length-drop, drop-drop, drop-length, take-append, take_all,
  Bool-cases, ℤ, pos, negsuc,
}
use jeopardy.Memory.{Ptr, read, write, read-write_self, M, ok, out_of_fuel, pure, asks, ◌>>=◌}
use jeopardy.Jifs.State.{State}
use jeopardy.Jifs.File.{read_file, write_file, digits, text, padded}

-- A caller that reads pieces of `count` bytes until a read returns nothing, and joins them.
unfoldable pub read_all : (List ℕ → ℕ) → ℕ → Ptr → ℕ → ℕ → M State (List ℕ)
unfolding read_file
read_all uncopied zero filp count offset = λ _. out_of_fuel
read_all uncopied (suc fuel) filp count offset = do
  (result, next) ← read_file uncopied filp count offset
  elim result [
    | negsuc e ↦ pure []
    | pos n ↦ if n == 0 then pure [] else do
      bytes ← asks (λ s. take n s.user)
      rest ← read_all uncopied fuel filp count next
      pure (bytes ++ rest)
  ]

overlaid :
    (n : ℕ) (b u : List ℕ)
    → length b ≡ n
    → take n (take (length b - 0) b ++ drop (length b - 0) u) ≡ b
overlaid n b u e =
    let whole : take (length b - 0) b ≡ b = take_all (length b - 0) b (omega arith) in
    rw (whole, ← e) (take-append b (drop (length b - 0) u))

module _ (uncopied : List ℕ → ℕ) (copies : (b : List ℕ) → uncopied b ≡ 0) (filp counter : Ptr)
    (v count : ℕ) (lt : v < 2 ^ 32) where
  -- The file before the read at an offset: it was read from 0 if the offset is positive.
  pub record Opened (offset : ℕ) (s : State) : Type 0 where
    pub private_is : read s.files filp ≡ some counter
    pub word : ℕ
    pub counted : read s.counters counter ≡ some word
    pub first : offset ≡ 0 → word ≡ v
    pub later : offset ≢ 0 → word ≡ (v + 1) % 2 ^ 32

  abbrev size : ℕ → ℕ
  size offset = if ltb (length (text v) - offset) count then length (text v) - offset else count

  abbrev piece : ℕ → List ℕ
  piece offset = take (size offset) (drop offset (text v))

  size_fits : (offset : ℕ) → offset ≤ length (text v) → size offset + offset ≤ length (text v)
  size_fits offset le = ground arith

  length-piece : (offset : ℕ) → offset ≤ length (text v) → length (piece offset) ≡ size offset
  length-piece offset le =
      let f = size_fits offset le in
      let d = length-drop offset (text v) le in
      length-take (size offset) (drop offset (text v)) (omega arith)

  abbrev buffered : ℕ → State → List ℕ
  buffered offset s =
      let bytes = piece offset in take (length bytes - 0) bytes ++ drop (length bytes - 0) s.user

  buffered-piece :
      (offset : ℕ) (s : State)
      → offset ≤ length (text v)
      → take (size offset) (buffered offset s) ≡ piece offset
  buffered-piece offset s le = overlaid (size offset) (piece offset) s.user (length-piece offset le)

  -- The state after a piece is read.
  abbrev after_piece : ℕ → State → State
  after_piece zero s = record s {
    counters = write s.counters counter ((v + 1) % 2 ^ 32);
    user = buffered 0 s;
  }
  after_piece (suc offset) s = record s { user = buffered (suc offset) s }

  read_piece :
      (offset : ℕ) (s : State)
      → offset ≤ length (text v)
      → Opened offset s
      → read_file uncopied filp count offset s
        ≡ ok (pos (size offset), offset + size offset) (after_piece offset s)
  unfolding read_file
  read_piece zero s le o =
      let counted : read s.counters counter ≡ some v = rw (o.first refl) at o.counted in
      let within : ltb (length (text v)) 0 ≡ false = ground arith in
      rw (o.private_is, counted, within, copies (piece 0)) refl
  read_piece (suc offset) s le o =
      let later : ltb 0 (suc offset) ≡ true = ground arith in
      let counted : read s.counters counter ≡ some ((v + 1) % 2 ^ 32) =
        rw (o.later (omega arith)) at o.counted in
      let back : ((v + 1) % 2 ^ 32 + 2 ^ 32 - 1) % 2 ^ 32 ≡ v = omega arith in
      let within : ltb (length (text v)) (suc offset) ≡ false = ground arith in
      rw (o.private_is, counted, later, back, within, copies (piece (suc offset))) refl

  after-Opened :
      (offset next : ℕ) (s : State)
      → next ≢ 0
      → Opened offset s
      → Opened next (after_piece offset s)
  after-Opened zero next s ne o = record {
    private_is = o.private_is;
    word = (v + 1) % 2 ^ 32;
    counted = read-write_self s.counters counter ((v + 1) % 2 ^ 32);
    first = λ e. absurd (ne e);
    later = λ e. refl;
  }
  after-Opened (suc offset) next s ne o = record {
    private_is = o.private_is;
    word = o.word;
    counted = o.counted;
    first = λ e. absurd (ne e);
    later = λ e. o.later (omega arith);
  }

  got_piece :
      (offset : ℕ) (s : State)
      → offset ≤ length (text v)
      → take (size offset) (after_piece offset s).user ≡ piece offset
  got_piece zero s le = buffered-piece 0 s le
  got_piece (suc offset) s le = buffered-piece (suc offset) s le

  text_positive : 0 < length (text v)
  unfolding text
  text_positive =
      let a = length-append (digits 10 v) (10 ∷ []) in
      elim (Bool-cases (ltb v (2 ^ 31))) [
        | inl e ↦ rw (e, a) (omega arith)
        | inr e ↦ rw e (omega arith)
      ]

  -- What is left of the file is what the caller gets from an offset on.
  read_on :
      (fuel offset : ℕ) (s : State)
      → 0 < count
      → offset ≤ length (text v)
      → length (text v) < offset + fuel
      → Opened offset s
      → (s' : State) × (read_all uncopied fuel filp count offset s ≡ ok (drop offset (text v)) s')
        × Opened 1 s'
  unfolding read_all
  read_on zero offset s some_read le enough o = absurd (omega arith)
  read_on (suc fuel) offset s some_read le enough o =
      let step = read_piece offset s le o in
      elim (Bool-cases (size offset == 0)) [
        | inl done ↦
            let none_left : length (text v) ≡ offset = ground arith in
            (
              after_piece offset s,
              rw (step, done, ← none_left) (rw (drop-length (text v)) refl),
              after-Opened offset 1 s (omega arith) o,
            )
        | inr more ↦
            let f = size_fits offset le in
            let moved : size offset ≢ 0 = ground arith in
            let rest =
              read_on fuel (offset + size offset) (after_piece offset s) some_read (omega arith)
                (omega arith) (after-Opened offset (offset + size offset) s (omega arith) o) in
            let joined : piece offset ++ drop (offset + size offset) (text v)
                ≡ drop offset (text v) =
              rw (← drop-drop (size offset) offset (text v))
                (take-append-drop (size offset) (drop offset (text v))) in
            (rest.0, rw (step, more, got_piece offset s le, rest.1, joined) refl, rest.2)
      ]

  -- For an open counter file whose counter has the value `v` and whose reads `copy_to_user` does not
  -- fail, a caller that reads pieces of any positive size from the start until a read returns nothing,
  -- with fuel for the length of the file, gets exactly the decimal text of `v` and a newline, and the
  -- counter has then gone up by one, on 32 bits, however many pieces there were.
  pub read_all-text :
      (fuel : ℕ) (s : State)
      → 0 < count
      → length (text v) < fuel
      → read s.files filp ≡ some counter
      → read s.counters counter ≡ some v
      → (s' : State) × (read_all uncopied fuel filp count 0 s ≡ ok (text v) s')
        × (read s'.counters counter ≡ some ((v + 1) % 2 ^ 32))
  read_all-text fuel s some_read enough private_is counted =
      let o : Opened 0 s = record {
        private_is = private_is;
        word = v;
        counted = counted;
        first = λ e. refl;
        later = λ e. absurd (e refl);
      } in
      let r = read_on fuel 0 s some_read (omega arith) (omega arith) o in
      (r.0, r.1, rw (r.2.later (omega arith)) at r.2.counted)

-- A write at the start, and then reads of the whole file.
abbrev pub write_then_read :
    (ℕ → ℕ) → (List ℕ → ℕ) → (List ℕ → ℕ) → Ptr → ℕ → ℕ → ℕ → M State (ℤ × List ℕ)
write_then_read from to strtol filp bytes count fuel = do
  written ← write_file from strtol filp bytes 0
  got ← read_all to fuel filp count 0
  pure (written, got)

-- Where `copy_from_user` and `copy_to_user` do not fail, after a write of fewer than 20 bytes at the start of an open
-- counter file, a caller that reads it in pieces, with fuel for its length, gets the decimal text of the
-- number that `simple_strtol` finds in the bytes, cut to 32 bits, and a newline. The write returns the
-- number of bytes.
pub read_all-write_file :
    (from : ℕ → ℕ) (to : List ℕ → ℕ) (strtol : List ℕ → ℕ) (filp counter bytes count fuel : ℕ)
    (s : State)
    → from bytes ≡ 0
    → ((b : List ℕ) → to b ≡ 0)
    → bytes < 20
    → 0 < count
    → length (text (strtol (padded bytes s.user) % 2 ^ 32)) < fuel
    → read s.files filp ≡ some counter
    → (s' : State) × (write_then_read from to strtol filp bytes count fuel s
        ≡ ok (pos bytes, text (strtol (padded bytes s.user) % 2 ^ 32)) s')
unfolding write_file
read_all-write_file from to strtol filp counter bytes count fuel s copied copies short some_read
      enough private_is =
    let v = strtol (padded bytes s.user) % 2 ^ 32 in
    let s1 = record s { counters = write s.counters counter v } in
    let r =
      read_all-text to copies filp counter v count (omega arith) fuel s1 some_read enough private_is
        (read-write_self s.counters counter v) in
    let fits : leb 20 bytes ≡ false = ground arith in (r.0, rw (private_is, fits, copied, r.1) refl)
