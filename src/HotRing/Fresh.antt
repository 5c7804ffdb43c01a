-- ===== src/HotRing/Fresh.antt =====
-- `hash_alloc`: the empty table, and what happens when `calloc` has no room.
use jeopardy.Prelude.{
  leb, ◌+◌, ℕ, ◌^◌, ◌<◌, ◌≤◌, ◌≡◌, ◌≢◌, refl, none, true, false, arith, ◌==◌, replicate,
  length-replicate, get_elem?-replicate,
}
use jeopardy.Memory.{null, write, read-write_self, ok}
use jeopardy.HotRing.State.{Hash, Mem, Calloc}
use jeopardy.HotRing.Table.{hash_alloc}
use jeopardy.HotRing.Valid.{IsTable, view}

abbrev pub empty_hash : ℕ → ℕ → Hash
empty_hash nbits kbits = record {
  n = nbits;
  k = kbits;
  size = 2 ^ kbits;
  slots = replicate (2 ^ kbits) null;
}

module _ (calloc : Calloc) (nbits kbits : ℕ) (m : Mem) where
  abbrev pub allocated : Mem
  allocated = record m {
    hashes = write m.hashes (calloc.hash m) (empty_hash nbits kbits);
    cur_hash = calloc.hash m;
  }

  -- Where `calloc` has room, and `nbits` is below 2 ^ 64, `kbits` at most `nbits` and at most 30, and
  -- `nbits` at most `kbits` + 30, `hash_alloc` makes a well-formed table that holds no key.
  pub hash_alloc-empty :
      nbits < 2 ^ 64
      → kbits ≤ nbits
      → nbits ≤ kbits + 30
      → kbits ≤ 30
      → calloc.hash m ≢ null
      → calloc.slots_fit m (2 ^ kbits) ≡ true
      → (hash_alloc calloc nbits kbits m ≡ ok (calloc.hash m) allocated)
        × IsTable allocated (calloc.hash m) (empty_hash nbits kbits) (λ _. none)
        × ((key : ℕ) → view (empty_hash nbits kbits) (λ _. none) key ≡ none)
  unfolding hash_alloc
  hash_alloc-empty narrow split int_shift small ne fits =
      let nonnull : (calloc.hash m == null) ≡ false = ground arith in
      let defined : leb kbits 30 ≡ true = ground arith in
      (
        rw (nonnull, defined, fits) refl,
        record {
          loaded = read-write_self m.hashes (calloc.hash m) (empty_hash nbits kbits);
          narrow = narrow;
          split = split;
          int_shift = int_shift;
          sized = refl;
          spans = length-replicate (2 ^ kbits) null;
          bucket = λ i lt. get_elem?-replicate (2 ^ kbits) i null lt;
          heads_apart = λ i j p li lj e _. cc e;
        },
        λ key. refl,
      )
