-- ===== src/ChainHash/Insert.antt =====
-- `hash_insert` and `hash_get` on a well-formed table.
use jeopardy.Prelude.{ℕ, ◌≡◌, ◌≢◌, refl, Option, none, some, arith, ◌==◌, false, pos}
use jeopardy.Memory.{Ptr, null, read, ok}
use jeopardy.ChainHash.State.{Hash, Mem, Calloc, link_of}
use jeopardy.ChainHash.Table.{hash_lookup, hash_get, hash_insert}
use jeopardy.ChainHash.Append.{Appends, appends, insert_in_chain}
use jeopardy.ChainHash.Found.{mem_headed, founds, insert_in_empty}
use jeopardy.ChainHash.Valid.{IsChain, Bucket, IsBucket, IsTable, place_of, hash_code-lt_size}

-- What the code relies on of `calloc`: an address that is not null is not in use.
pub record IsCalloc (calloc : Calloc) : Type 0 where
  pub link_unused :
      (m : Mem) → calloc.node m ≢ null → read m.links.next (link_of (calloc.node m)) ≡ none
  pub head_unused : (m : Mem) → calloc.head m ≢ null → read m.heads (calloc.head m) ≡ none

-- There is room for what the insertion allocates: a node, and for an empty bucket a head first.
abbrev pub HasRoom : Calloc → Mem → Ptr → Hash → ℕ → Option Bucket → Type 0
HasRoom calloc m hp h i none =
    (calloc.head m ≢ null) × (calloc.node (mem_headed m hp h i (calloc.head m)) ≢ null)
HasRoom calloc m hp h i (some b) = calloc.node m ≢ null

-- The first node of a bucket.
abbrev pub first_of_bucket : Option Bucket → Option Ptr
first_of_bucket none = none
first_of_bucket (some b) = some b.first

-- `hash_insert` returned 0, and appended the item; the bucket keeps its first node if it had one.
pub record Inserted (calloc : Calloc) (m : Mem) (hp : Ptr) (h : Hash) (buckets : ℕ → Option Bucket)
    (key : ℕ) (item : Ptr) : Type 0 where
  pub after : Mem
  pub hash : Hash
  pub buckets_after : ℕ → Option Bucket
  pub returns : hash_insert calloc hp key item m ≡ ok (pos 0) after
  pub same_size : hash.size ≡ h.size
  pub appends : Appends m after hp hash buckets buckets_after (place_of h key) item

module _ (m : Mem) (hp : Ptr) (h : Hash) (buckets : ℕ → Option Bucket) (t : IsTable m hp h buckets)
    (key : ℕ) where
  by_bucket :
      (o : Option Bucket)
      → IsBucket m h t.owners (place_of h key) o
      → buckets (place_of h key) ≡ o
      → hash_get hp key m ≡ ok (first_of_bucket o) m
  unfolding hash_get
  by_bucket none k e =
      let code = hash_code-lt_size m h key t.inhabited t.narrow in rw (t.loaded, code.0, k) refl
  by_bucket (some b) k e =
      let code = hash_code-lt_size m h key t.inhabited t.narrow in
      let off : (b.ptr == null) ≡ false = let n = k.ptr_ne in ground arith in
      rw (t.loaded, code.0, k.slot, off, k.loaded) refl

  -- `hash_get` on a well-formed table returns the first node of the bucket that the key belongs to,
  -- whatever key it was inserted for, or nothing where the bucket is empty; it changes nothing.
  pub hash_get-first : hash_get hp key m ≡ ok (first_of_bucket (buckets (place_of h key))) m
  hash_get-first =
      by_bucket (buckets (place_of h key))
        (t.bucket (place_of h key) (hash_code-lt_size m h key t.inhabited t.narrow).1) refl

  -- `hash_lookup` on a well-formed table and a key whose bucket has a chain returns the address of the
  -- bucket's `struct head`, which is no item's; it changes nothing.
  pub hash_lookup-head :
      (b : Bucket)
      → buckets (place_of h key) ≡ some b
      → (hash_lookup hp key m ≡ ok b.ptr m) × (read m.heads b.ptr ≡ some b.first)
  unfolding hash_lookup
  hash_lookup-head b e =
      let code = hash_code-lt_size m h key t.inhabited t.narrow in
      let k : IsChain m h t.owners (place_of h key) b =
        rw e at (t.bucket (place_of h key) code.1) in
      let off : (b.ptr == null) ≡ false = let n = k.ptr_ne in ground arith in
      (rw (t.loaded, code.0, k.slot, off) refl, k.loaded)

  module _ (calloc : Calloc) (c : IsCalloc calloc) (item : Ptr) where
    inserts :
        (o : Option Bucket)
        → buckets (place_of h key) ≡ o
        → HasRoom calloc m hp h (place_of h key) o
        → Inserted calloc m hp h buckets key item
    inserts none e room =
        let i = place_of h key in
        let inside = (hash_code-lt_size m h key t.inhabited t.narrow).1 in
        let between = mem_headed m hp h i (calloc.head m) in
        let node = calloc.node between in
        record {
          after = _;
          hash = _;
          buckets_after = _;
          returns =
              insert_in_empty m hp h buckets t i inside e (calloc.head m) node item room.0
                (c.link_unused between room.1) (c.head_unused m room.0) calloc key refl refl refl
                room.1;
          same_size = refl;
          appends =
              founds m hp h buckets t i inside e (calloc.head m) node item room.0
                (c.link_unused between room.1) (c.head_unused m room.0);
        }
    inserts (some b) e room =
        let i = place_of h key in
        let inside = (hash_code-lt_size m h key t.inhabited t.narrow).1 in
        record {
          after = _;
          hash = _;
          buckets_after = _;
          returns =
              insert_in_chain m hp h buckets t i inside b e (calloc.node m) item
                (c.link_unused m room) calloc key refl refl room;
          same_size = refl;
          appends =
              appends m hp h buckets t i inside b e (calloc.node m) item (c.link_unused m room);
        }

    -- On a well-formed table, where `calloc` has room, `hash_insert` returns 0 for every key; the
    -- table stays well formed, and the item stands at the end of the bucket that the key belongs to,
    -- behind the items that were there; the items of the other buckets stay.
    pub hash_insert-appends :
        HasRoom calloc m hp h (place_of h key) (buckets (place_of h key))
        → Inserted calloc m hp h buckets key item
    hash_insert-appends = inserts (buckets (place_of h key)) refl
