-- ===== src/HotRing/Range.antt =====
-- Keys of more than `n` bits: the index is taken from the key, and lies outside the slots.
use jeopardy.Prelude.{ℕ, ◌^◌, ◌≤◌, ◌≡◌, refl, Option, none, get_elem?, get_elem?-none}
use jeopardy.Memory.{Ptr, fault}
use jeopardy.HotRing.State.{Hash, Mem, Calloc}
use jeopardy.HotRing.Table.{hash_index}
use jeopardy.HotRing.Get.{raw_hash_get}
use jeopardy.HotRing.Create.{hash_insert}
use jeopardy.HotRing.Delete.{hotring_delete}
use jeopardy.HotRing.Valid.{Ring, IsTable, index-ge_size}

-- On a well-formed table and a key of more than `n` bits, the search, the insertion and the deletion
-- read outside `slots`.
pub wide_key-fault :
    (calloc : Calloc) (fuel : ℕ) (m : Mem) (hp : Ptr) (h : Hash) (rings : ℕ → Option Ring) (key : ℕ)
    (value : Ptr)
    → IsTable m hp h rings
    → 2 ^ h.n ≤ key
    → (raw_hash_get fuel hp key m ≡ fault)
      × (hash_insert calloc fuel hp key value m ≡ fault)
      × (hotring_delete fuel hp key m ≡ fault)
unfolding raw_hash_get hash_insert hotring_delete
wide_key-fault calloc fuel m hp h rings key value t wide =
    let out : get_elem? h.slots (hash_index h key) ≡ none =
      get_elem?-none h.slots (hash_index h key)
        (rw t.spans (index-ge_size h key t.narrow t.split t.sized wide)) in
    (rw (t.loaded, out) refl, rw (t.loaded, t.loaded, out) refl, rw (t.loaded, out) refl)
