-- ===== src/HotRing/RoundTrip.antt =====
-- A search after an insertion.
use jeopardy.Prelude.{ℕ, ◌+◌, ◌^◌, ◌<◌, ◌≤◌, ◌≡◌, ◌≢◌, refl, ◌∙◌, Option, none, some, arith}
use jeopardy.Memory.{Ptr, M, ok, ◌>>◌}
use jeopardy.HotRing.State.{Hash, Mem, Calloc}
use jeopardy.HotRing.Table.{hash_index}
use jeopardy.HotRing.Create.{hash_insert}
use jeopardy.HotRing.Get.{Got, raw_hash_get}
use jeopardy.HotRing.Access.{value_at, raw_hash_get-view}
use jeopardy.HotRing.Adding.{IsCalloc, HasRoom, Inserted, hash_insert-adds}
use jeopardy.HotRing.Valid.{Ring, IsTable, ring_size, view}

-- What `__hash_get` of `k` answers after `hash_insert` of `key`.
abbrev pub insert_then_get : Calloc → ℕ → Ptr → ℕ → Ptr → ℕ → M Mem Got
insert_then_get calloc fuel hp key value k = do
  hash_insert calloc fuel hp key value
  raw_hash_get fuel hp k

pub record Answers (run : M Mem Got) (m : Mem) (answer : Option Ptr) : Type 0 where
  pub got : Got
  pub after : Mem
  pub returns : run m ≡ ok got after
  pub value : value_at after got.node ≡ answer

pub same_index : (h h' : Hash) (k : ℕ) → h'.n ≡ h.n → h'.k ≡ h.k → hash_index h' k ≡ hash_index h k
unfolding hash_index
same_index h h' k en ek = rw (en, ek) refl

module _ (calloc : Calloc) (c : IsCalloc calloc) (fuel : ℕ) (m : Mem) (hp : Ptr) (h : Hash)
    (rings : ℕ → Option Ring) (key : ℕ) (value : Ptr) (t : IsTable m hp h rings)
    (narrow : key < 2 ^ h.n) (room : HasRoom calloc m hp h key value (rings (hash_index h key)))
    (enough : (j : ℕ) → ring_size (rings j) + 1 ≤ fuel) where
  added : Inserted calloc fuel m hp h rings key value
  added =
      hash_insert-adds calloc c fuel m hp h rings key value t narrow room
        (omega (arith, enough (hash_index h key)))

  then_get :
      (k : ℕ) (answer : Option Ptr)
      → k < 2 ^ h.n
      → view added.hash added.rings_after k ≡ answer
      → Answers (insert_then_get calloc fuel hp key value k) m answer
  then_get k answer lt e =
      let a = added in
      let g =
        raw_hash_get-view fuel a.after hp a.hash a.rings_after k a.adds.table (rw a.adds.bits.0 lt)
          (omega (arith, a.adds.grows (hash_index a.hash k), enough (hash_index a.hash k))) in
      record {
        got = g.got;
        after = g.after;
        returns = rw (a.returns, g.returns) refl;
        value = g.answers ∙ e;
      }

  -- On a well-formed table, with room for what the insertion allocates and fuel beyond the longest
  -- ring: a search for a new key of `n` bits after its insertion finds its value.
  pub raw_hash_get-hash_insert_self :
      view h rings key ≡ none
      → Answers (insert_then_get calloc fuel hp key value key) m (some value)
  raw_hash_get-hash_insert_self absent = then_get key (some value) narrow (added.adds.self absent)

  -- On a well-formed table, with room for what the insertion allocates and fuel beyond the longest
  -- ring: after the insertion of a key of `n` bits, a search for another such key finds what the
  -- table held for it before.
  pub raw_hash_get-hash_insert_ne :
      (k : ℕ)
      → k ≢ key
      → k < 2 ^ h.n
      → Answers (insert_then_get calloc fuel hp key value k) m (view h rings k)
  raw_hash_get-hash_insert_ne k ne lt = then_get k (view h rings k) lt (added.adds.others k ne)
