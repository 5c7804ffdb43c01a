-- ===== src/Jifs/File.antt =====
-- JIFS/file.c: opening, reading and writing a counter file. An `int` is its word of 32 bits.
use jeopardy.Prelude.{
  ℕ, zero, suc, ◌+◌, ◌-◌, ◌/◌, ◌%◌, ◌^◌, List, [], ◌∷◌, ◌++◌, not, ltb, leb, ◌==◌, if◌then◌else◌,
  length, take, drop, replicate, ℤ, pos, negsuc,
}
use jeopardy.Memory.{Ptr, write, M, pure, modify, asks, ◌>>=◌, ◌>>◌}
use jeopardy.Jifs.State.{State, load_counter, set_counter, load_inode, load_private}

-- `-EFAULT` and `-EINVAL`
abbrev pub efault : ℤ
efault = negsuc 13

abbrev pub einval : ℤ
einval = negsuc 21

-- The decimal digits of a number of at most `n` digits.
unfoldable pub digits : ℕ → ℕ → List ℕ
digits zero v = []
digits (suc n) v =
    let rest = digits n (v / 10) in if ltb v 10 then (48 + v) ∷ [] else rest ++ (48 + v % 10) ∷ []

-- What `snprintf(tmp, 20, "%d\n", v)` writes, less the final NUL: at most 12 bytes.
unfoldable pub text : ℕ → List ℕ
text v = if ltb v (2 ^ 31) then digits 10 v ++ 10 ∷ [] else 45 ∷ (digits 10 (2 ^ 32 - v) ++ 10 ∷ [])

-- `jifs_open`
unfoldable pub open_file : Ptr → Ptr → M State ℤ
open_file inode filp = do
  v ← load_inode inode
  modify (λ s. record s { files = write s.files filp v.private_data })
  pure (pos 0)

-- The bytes that `copy_to_user` does copy.
abbrev pub copy_to_user : List ℕ → ℕ → M State (Unit {0})
copy_to_user bytes uncopied = modify λ s. record s {
  user = take (length bytes - uncopied) bytes ++ drop (length bytes - uncopied) s.user;
}

-- `jifs_read_file`: the result, and the new offset. `uncopied` is what `copy_to_user` returns.
unfoldable pub read_file : (List ℕ → ℕ) → Ptr → ℕ → ℕ → M State (ℤ × ℕ)
read_file uncopied filp count offset = do
  counter ← load_private filp
  v ← load_counter counter
  if ltb 0 offset then pure tt else set_counter counter ((v + 1) % 2 ^ 32)
  let tmp = text (if ltb 0 offset then (v + 2 ^ 32 - 1) % 2 ^ 32 else v)
  if ltb (length tmp) offset then pure (pos 0, offset) else do
    let n = if ltb (length tmp - offset) count then length tmp - offset else count
    let bytes = take n (drop offset tmp)
    copy_to_user bytes (uncopied bytes)
    if not (uncopied bytes == 0) then pure (efault, offset) else pure (pos n, offset + n)

-- `tmp` after `memset` and `copy_from_user`.
unfoldable pub padded : ℕ → List ℕ → List ℕ
padded count user = take count user ++ replicate (20 - length (take count user)) 0

-- `jifs_write_file`. `uncopied` is what `copy_from_user` returns, and `strtol` is `simple_strtol`, whose
-- result is a word of 64 bits.
unfoldable pub write_file : (ℕ → ℕ) → (List ℕ → ℕ) → Ptr → ℕ → ℕ → M State ℤ
write_file uncopied strtol filp count offset = do
  counter ← load_private filp
  if not (offset == 0)
      then pure einval
      else if leb 20 count
      then pure einval
      else if not (uncopied count == 0)
      then pure efault
      else do
        user ← asks (λ s. s.user)
        set_counter counter (strtol (padded count user) % 2 ^ 32)
        pure (pos count)
