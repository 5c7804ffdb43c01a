-- ===== src/Device/Served.antt =====
-- device/virtual_device/virtual_device.c: requests that keep to the buffer, and those that do not.
use jeopardy.Prelude.{
  All, ℕ, zero, suc, ◌-◌, ◌≤◌, ◌<◌, ◌≡◌, refl, true, false, List, [], ◌∷◌, ◌++◌, some, arith, ltb,
  length, take, drop, length-take, length-drop, length-append, take_all,
}
use jeopardy.Memory.{ok, fault}
use jeopardy.Device.{
  Device, Copies, IsCopies, Request, open_request, release_request, write_request, read_request,
  device_write, device_read, serve, serve_all,
}

-- A write of at most 1024 bytes, which the caller has.
abbrev pub Fits : Request → Type 0
Fits open_request = Unit
Fits release_request = Unit
Fits (write_request bytes count) = (count ≤ 1024) × (count ≤ length bytes)
Fits (read_request count) = Unit

-- What the buffer holds after requests: each write goes over what was there.
abbrev pub held : List Request → List ℕ → List ℕ
held [] b = b
held (open_request ∷ rs) b = held rs b
held (release_request ∷ rs) b = held rs b
held (write_request bytes count ∷ rs) b = held rs (take count bytes ++ drop count b)
held (read_request count ∷ rs) b = held rs b

abbrev pub answers : List Request → List ℕ
answers [] = []
answers (open_request ∷ rs) = 0 ∷ answers rs
answers (release_request ∷ rs) = 0 ∷ answers rs
answers (write_request bytes count ∷ rs) = count ∷ answers rs
answers (read_request count ∷ rs) = count ∷ answers rs

pub record Served (k : Copies) (rs : List Request) (d : Device) (b : List ℕ) : Type 0 where
  pub after : Device
  pub returns : serve_all k rs d ≡ ok (answers rs) after
  pub buffer : after.buffer ≡ some (held rs b)
  pub size : length (held rs b) ≡ 1024

overlay_size :
    (bytes b : List ℕ) (count : ℕ)
    → length b ≡ 1024
    → count ≤ 1024
    → count ≤ length bytes
    → length (take count bytes ++ drop count b) ≡ 1024
overlay_size bytes b count size small has =
    let l = length-append (take count bytes) (drop count b) in
    let f = length-take count bytes has in let g = length-drop count b (omega arith) in omega arith

module _ (k : Copies) (c : IsCopies k) where
  written :
      (count : ℕ) (d : Device) (b : List ℕ)
      → d.buffer ≡ some b
      → length b ≡ 1024
      → count ≤ 1024
      → count ≤ length d.user
      → device_write k count d
        ≡ ok count (record d { buffer = some (take count d.user ++ drop count b) })
  unfolding device_write
  written count d b e size small has =
      let n = length-take count d.user has in
      let inside : ltb (length b) (length (take count d.user)) ≡ false = ground arith in
      rw (e, c.whole d.user count has, inside, n) refl

  -- The device after a read from a buffer of the bytes `b`.
  abbrev delivered : Device → List ℕ → Device
  delivered d b =
      let bytes = take 1024 b in
      let n = length bytes - k.uncopied bytes in
      record { buffer = some b; user = take n bytes ++ drop n d.user }

  read_delivers :
      (count : ℕ) (d : Device) (b : List ℕ)
      → d.buffer ≡ some b
      → device_read k count d ≡ ok count (delivered d b)
  unfolding device_read
  read_delivers count d b e = rw e refl

  -- Requests whose writes have at most 1024 bytes, which the caller has, on a device with its buffer of
  -- 1024 bytes: no call faults, each returns 0 or the `count` that it was given, and the buffer keeps its
  -- size and holds the bytes of the writes, each over the ones before.
  pub serve_all-held :
      (rs : List Request) (d : Device) (b : List ℕ)
      → d.buffer ≡ some b
      → length b ≡ 1024
      → All Fits rs
      → Served k rs d b
  unfolding serve_all serve
  serve_all-held [] d b e size fits = record { after = d; returns = refl; buffer = e; size = size }
  serve_all-held (open_request ∷ rs) d b e size fits =
      let s = serve_all-held rs d b e size fits.1 in
      record { after = s.after; returns = rw s.returns refl; buffer = s.buffer; size = s.size }
  serve_all-held (release_request ∷ rs) d b e size fits =
      let s = serve_all-held rs d b e size fits.1 in
      record { after = s.after; returns = rw s.returns refl; buffer = s.buffer; size = s.size }
  serve_all-held (write_request bytes count ∷ rs) d b e size fits =
      let b' = take count bytes ++ drop count b in
      let s =
        serve_all-held rs (record d { buffer = some b'; user = bytes }) b' refl
          (overlay_size bytes b count size fits.0.0 fits.0.1) fits.1 in
      record {
        after = s.after;
        returns =
            rw (written count (record d { user = bytes }) b e size fits.0.0 fits.0.1, s.returns)
              refl;
        buffer = s.buffer;
        size = s.size;
      }
  serve_all-held (read_request count ∷ rs) d b e size fits =
      let s = serve_all-held rs (delivered d b) b refl size fits.1 in
      record {
        after = s.after;
        returns = rw (read_delivers count d b e, s.returns) refl;
        buffer = s.buffer;
        size = s.size;
      }

  -- On a device with its buffer of 1024 bytes, a write of more than 1024 bytes, which the caller has, stores
  -- past the end of the buffer.
  pub device_write-overruns :
      (count : ℕ) (d : Device) (b : List ℕ)
      → d.buffer ≡ some b
      → length b ≡ 1024
      → 1024 < count
      → count ≤ length d.user
      → device_write k count d ≡ fault
  unfolding device_write
  device_write-overruns count d b e size big has =
      let n = length-take count d.user has in
      let outside : ltb (length b) (length (take count d.user)) ≡ true = ground arith in
      rw (e, c.whole d.user count has, outside) refl

drop-append : (n : ℕ) (xs ys : List ℕ) → n ≤ length xs → drop n (xs ++ ys) ≡ drop n xs ++ ys
drop-append zero [] ys le = refl
drop-append zero (x ∷ xs) ys le = refl
drop-append (suc n) [] ys le = absurd (omega arith)
drop-append (suc n) (x ∷ xs) ys le = drop-append n xs ys (omega arith)

-- On a device with its buffer of 1024 bytes, a read of fewer than 1024 bytes, which `copy_to_user` delivers whole, writes over the caller's memory
-- past the bytes that it asked for, and returns their number.
pub device_read-overruns :
    (k : Copies) (count : ℕ) (d : Device) (b : List ℕ)
    → d.buffer ≡ some b
    → length b ≡ 1024
    → count < 1024
    → k.uncopied b ≡ 0
    → (u : List ℕ) × (device_read k count d ≡ ok count (record d { user = u }))
      × (drop count u ≡ drop count b ++ drop 1024 d.user)
unfolding device_read
device_read-overruns k count d b e size few whole = (
  b ++ drop 1024 d.user,
  rw (e, take_all 1024 b (omega arith), whole, size) (rw (take_all 1024 b (omega arith)) refl),
  drop-append count b (drop 1024 d.user) (omega arith),
)
