-- ===== src/Device.antt =====
-- device/virtual_device/virtual_device.c: a character device over one buffer of 1024 bytes.
pub mod Served
use jeopardy.Prelude.{
  All, ℕ, ◌+◌, ◌-◌, ◌≤◌, ◌<◌, ◌≡◌, refl, sym, ◌∙◌, ap, Bool, true, false, List, [], ◌∷◌, ◌++◌,
  Option, none, some, arith, ltb, if◌then◌else◌, length, take, drop, replicate, length-take,
  length-drop,
}
use jeopardy.Memory.{M, pure, crash, checked, asks, modify, ◌>>=◌, ◌>>◌, ok, fault}

-- What `buffer` points to, if anything, and the caller's bytes at `buf`.
pub record Device : Type 0 where
  pub buffer : Option (List ℕ)
  pub user : List ℕ

-- The kernel's copies: the bytes that `copy_from_user` stores of the caller's bytes, and the number that
-- `copy_to_user` does not deliver.
pub record Copies : Type 0 where
  pub copied : List ℕ → ℕ → List ℕ
  pub uncopied : List ℕ → ℕ

-- `copy_from_user` stores at most `count` bytes, and all of them where the caller has them.
pub record IsCopies (k : Copies) : Type 0 where
  pub at_most : (user : List ℕ) (count : ℕ) → length (k.copied user count) ≤ count
  pub whole :
      (user : List ℕ) (count : ℕ) → count ≤ length user → k.copied user count ≡ take count user

-- A call through `vd_fops`; a write with what the caller has at `buf`.
pub data Request : Type 0 where
  open_request release_request : Request
  write_request : List ℕ → ℕ → Request
  read_request : ℕ → Request

-- `kmalloc(1024)`, if granted, and `memset`.
unfoldable pub device_init : Bool → M Device ℕ
device_init granted = do
  modify λ d. record d { buffer = if granted then some (replicate 1024 0) else none }
  pure 0

-- `kfree(buffer)`
unfoldable pub device_exit : M Device (Unit {0})
device_exit = modify λ d. record d { buffer = none }

-- A store past the end of the buffer is a fault, as is one through NULL.
unfoldable pub device_write : Copies → ℕ → M Device ℕ
device_write k count = do
  user ← asks (λ d. d.user)
  b ← asks (λ d. d.buffer) >>= checked
  let bytes = k.copied user count
  if ltb (length b) (length bytes) then crash else pure tt
  modify λ d. record d { buffer = some (bytes ++ drop (length bytes) b) }
  pure count

-- `copy_to_user` of 1024 bytes, whatever `count` is.
unfoldable pub device_read : Copies → ℕ → M Device ℕ
device_read k count = do
  b ← asks (λ d. d.buffer) >>= checked
  let bytes = take 1024 b
  let n = length bytes - k.uncopied bytes
  modify λ d. record d { user = take n bytes ++ drop n d.user }
  pure count

-- `vd_fops`
unfoldable pub serve : Copies → Request → M Device ℕ
serve k open_request = pure 0
serve k release_request = pure 0
serve k (write_request bytes count) = do modify λ d. record d { user = bytes }; device_write k count
serve k (read_request count) = device_read k count

unfoldable pub serve_all : Copies → List Request → M Device (List ℕ)
serve_all k [] = pure []
serve_all k (r ∷ rs) = do n ← serve k r; ns ← serve_all k rs; pure (n ∷ ns)
