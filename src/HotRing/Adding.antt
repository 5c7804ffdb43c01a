-- ===== src/HotRing/Adding.antt =====
-- `hash_insert` on a well-formed table.
use jeopardy.Prelude.{ℕ, ◌^◌, ◌<◌, ◌≡◌, ◌≢◌, refl, Option, none, some, pos}
use jeopardy.Memory.{Ptr, null, read, ok}
use jeopardy.HotRing.State.{Hash, Mem, Calloc}
use jeopardy.HotRing.Table.{hash_index}
use jeopardy.HotRing.Create.{hash_insert}
use jeopardy.HotRing.Grown.{Adds, grown}
use jeopardy.HotRing.Founded.{mem_between, insert_in_empty, founded}
use jeopardy.HotRing.Insert.{insert_in_ring}
use jeopardy.HotRing.Lookup.{EnoughFor}
use jeopardy.HotRing.Valid.{Ring, IsBucket, IsTable, index-lt_size}

-- What the code relies on of `calloc`: an address that is not null is not in use, and it is a
-- user-space address, of 48 bits at most.
pub record IsCalloc (calloc : Calloc) : Type 0 where
  pub node_unused : (m : Mem) → calloc.node m ≢ null → read m.nodes (calloc.node m) ≡ none
  pub head_unused : (m : Mem) → calloc.head m ≢ null → read m.heads (calloc.head m) ≡ none
  pub node_narrow : (m : Mem) → calloc.node m < 2 ^ 48

-- There is room for what the insertion allocates: a node, and for an empty bucket a head first.
abbrev pub HasRoom : Calloc → Mem → Ptr → Hash → ℕ → Ptr → Option Ring → Type 0
HasRoom calloc m hp h key value none =
    (calloc.head m ≢ null) × (calloc.node (mem_between m hp h key value (calloc.head m)) ≢ null)
HasRoom calloc m hp h key value (some r) = calloc.node m ≢ null

-- `hash_insert` returned 0, and added `key`.
pub record Inserted (calloc : Calloc) (fuel : ℕ) (m : Mem) (hp : Ptr) (h : Hash)
    (rings : ℕ → Option Ring) (key : ℕ) (value : Ptr) : Type 0 where
  pub after : Mem
  pub hash : Hash
  pub rings_after : ℕ → Option Ring
  pub returns : hash_insert calloc fuel hp key value m ≡ ok (pos 0) after
  pub adds : Adds after hp h hash rings rings_after key value

module _ (calloc : Calloc) (c : IsCalloc calloc) (fuel : ℕ) (m : Mem) (hp : Ptr) (h : Hash)
    (rings : ℕ → Option Ring) (key : ℕ) (value : Ptr) (t : IsTable m hp h rings)
    (narrow : key < 2 ^ h.n) where
  by_bucket :
      (o : Option Ring)
      → rings (hash_index h key) ≡ o
      → IsBucket m h (hash_index h key) o
      → HasRoom calloc m hp h key value o
      → EnoughFor fuel o
      → Inserted calloc fuel m hp h rings key value
  by_bucket none e b room enough =
      let between = mem_between m hp h key value (calloc.head m) in
      record {
        after = _;
        hash = _;
        rings_after = _;
        returns =
            insert_in_empty calloc fuel m hp h key value t.loaded b room.0 room.1
              (c.node_narrow between);
        adds =
            founded m hp h rings key value (calloc.head m) (calloc.node between) t e b room.0 room.1
              (c.node_narrow between) (c.head_unused m room.0) (c.node_unused between room.1)
              narrow;
      }
  by_bucket (some r) e b room enough = record {
    after = _;
    hash = _;
    rings_after = _;
    returns =
        insert_in_ring calloc fuel m h (hash_index h key) r b room (c.node_narrow m)
          (c.node_unused m room) enough hp key value t.loaded refl;
    adds =
        grown m hp h rings key value (calloc.node m) r t e b room (c.node_narrow m)
          (c.node_unused m room) narrow;
  }

  -- On a well-formed table, with room for what it allocates and fuel for the bucket's ring,
  -- `hash_insert` returns 0 for every key of `n` bits, whether it is there or not; the table stays
  -- well formed, other keys read as before, and a new key reads as the value.
  pub hash_insert-adds :
      HasRoom calloc m hp h key value (rings (hash_index h key))
      → EnoughFor fuel (rings (hash_index h key))
      → Inserted calloc fuel m hp h rings key value
  hash_insert-adds =
      by_bucket (rings (hash_index h key)) refl
        (t.bucket (hash_index h key) (index-lt_size h key t.narrow t.split t.sized narrow))
