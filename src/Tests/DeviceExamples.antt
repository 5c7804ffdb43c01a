-- ===== src/Tests/DeviceExamples.antt =====
-- device/: the theorems at a small run, and the run itself.
use jeopardy.Prelude.{
  ℕ, ◌≡◌, refl, List, [], ◌∷◌, some, arith, take, drop, ◌++◌, replicate, length-replicate, length,
  zero, suc, ◌≤◌,
}
use jeopardy.Memory.{ok, fault}
use jeopardy.Device.{
  Device, Copies, IsCopies, Request, open_request, release_request, write_request, read_request,
  device_write, device_read,
}
use jeopardy.Device.Served.{Served, serve_all-held, device_write-overruns, device_read-overruns}

-- Copies that fail only at the end of the caller's bytes.
abbrev ready : Copies
ready = record { copied = λ user count. take count user; uncopied = λ bytes. 0 }

ready-IsCopies : IsCopies ready
ready-IsCopies = record { at_most = at_most; whole = λ user count le. refl }
  where
    at_most : (user : List ℕ) (count : ℕ) → length (take count user) ≤ count
    at_most user zero = omega arith
    at_most [] (suc n) = omega arith
    at_most (x ∷ xs) (suc n) = let r = at_most xs n in omega arith

abbrev zeros : List ℕ
zeros = replicate 1024 0

abbrev device : Device
device = record { buffer = some zeros; user = replicate 1025 7 }

zeros_size : length zeros ≡ 1024
zeros_size = length-replicate {A = ℕ} 1024 0

user_size : 1025 ≤ length device.user
user_size = let l : length device.user ≡ 1025 = length-replicate {A = ℕ} 1025 7 in omega arith

abbrev requests : List Request
requests = open_request ∷ write_request (5 ∷ 6 ∷ []) 2 ∷ read_request 2 ∷ release_request ∷ []

serve_all-held_example : Served ready requests device zeros
serve_all-held_example =
    serve_all-held ready ready-IsCopies requests device zeros refl zeros_size
      (tt, ((omega arith, omega arith), (tt, (tt, tt))))

device_write-overruns_example : device_write ready 1025 device ≡ fault
device_write-overruns_example =
    device_write-overruns ready ready-IsCopies 1025 device zeros refl zeros_size (omega arith)
      user_size

device_read-overruns_example :
    (u : List ℕ) × (device_read ready 2 device ≡ ok 2 (record device { user = u }))
    × (drop 2 u ≡ drop 2 zeros ++ drop 1024 device.user)
device_read-overruns_example =
    device_read-overruns ready 2 device zeros refl zeros_size (omega arith) refl
