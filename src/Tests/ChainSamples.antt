-- ===== src/Tests/ChainSamples.antt =====
-- A `calloc` for the tests of chaining_hash/, and a small table.
use jeopardy.Prelude.{
  get_elem?-set_ne, get_elem?-replicate, replicate, ==_iff, ◌∙◌, ℕ, ◌+◌, ◌<◌, refl, [], ◌∷◌, Option,
  none, some, arith, true, inl, inr, Bool-cases, ◌==◌, if◌then◌else◌,
}
use jeopardy.Memory.{null, read}
use jeopardy.ChainHash.State.{Hash, Mem, Calloc, link_of}
use jeopardy.ChainHash.Valid.{Bucket, Owners, IsChain, IsBucket, IsTable}
use jeopardy.ChainHash.Insert.{IsCalloc}
use jeopardy.Tests.RingSamples.{top, read-top}

abbrev pub bump : Calloc
bump = record {
  node = λ m. top m.links.next + 16;
  head = λ m. top m.heads + 16;
  hash = λ m. top m.hashes + 16;
  slots_fit = λ m n. true;
}

pub bump-IsCalloc : IsCalloc bump
bump-IsCalloc = record {
  link_unused = λ m ne. read-top m.links.next (link_of (top m.links.next + 16)) (omega arith);
  head_unused = λ m ne. read-top m.heads (top m.heads + 16) (omega arith);
}

abbrev pub small_hash : Hash
small_hash = record { size = 4; slots = null ∷ 16 ∷ null ∷ null ∷ [] }

-- A table of four slots with the item 900 in slot 1.
abbrev pub small_mem : Mem
small_mem = record {
  links = record { next = (32, some 32) ∷ []; prev = (32, some 32) ∷ [] };
  items = (24, some 900) ∷ [];
  heads = (16, some 24) ∷ [];
  hashes = (4, some small_hash) ∷ [];
}

abbrev pub small_bucket : Bucket
small_bucket = record { ptr = 16; first = 24; rest = [] }

abbrev pub small_buckets : ℕ → Option Bucket
small_buckets i = if i == 1 then some small_bucket else none

abbrev small_owners : Owners
small_owners = record { link = λ p. 1; head = λ p. 1 }

small-IsChain : IsChain small_mem small_hash small_owners 1 small_bucket
unfolding read
small-IsChain = record {
  slot = refl;
  ptr_ne = omega arith;
  loaded = refl;
  circle = ((refl, refl), (tt, tt));
  owned = (refl, tt);
  head_owned = refl;
}

small-IsBucket : (i : ℕ) → i < 4 → IsBucket small_mem small_hash small_owners i (small_buckets i)
small-IsBucket j lt = elim (Bool-cases (j == 1)) [
  | inl same ↦ rw same (rw ((==_iff j 1).0 same) small-IsChain)
  | inr away ↦ rw away (
      get_elem?-set_ne (replicate 4 null) 1 j 16 (λ e. ground arith)
      ∙ get_elem?-replicate 4 j null lt)
]

pub small-IsTable : IsTable small_mem 4 small_hash small_buckets
unfolding read
small-IsTable = record {
  owners = small_owners;
  loaded = refl;
  inhabited = omega arith;
  narrow = omega arith;
  spans = refl;
  bucket = small-IsBucket;
}
