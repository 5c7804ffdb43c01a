-- ===== src/Tests/RingSamples.antt =====
-- A `calloc` for the tests of hotring/, and a small table.
use jeopardy.Prelude.{
  ℕ, ◌+◌, ◌^◌, ◌<◌, ◌≡◌, ◌≢◌, refl, ◌∙◌, [], ◌∷◌, Option, none, some, arith, true, inl, inr,
  Bool-cases, ◌==◌, ==_iff, ltb, if◌then◌else◌, set, replicate, get_elem?-set_ne,
  get_elem?-replicate,
}
use Prim.Native.Nat.{max}
use jeopardy.Memory.{Ptr, null, Cells, read}
use jeopardy.HotRing.State.{Node, Head, Hash, Mem, Calloc}
use jeopardy.HotRing.Table.{hash_index, hash_tag}
use jeopardy.HotRing.Order.{descents}
use jeopardy.HotRing.Adding.{IsCalloc}
use jeopardy.HotRing.Valid.{Ring, IsRing, IsBucket, IsTable, ptr_of, put_ring}

-- The first address past all that were ever used, while it has 48 bits.
abbrev pub top : {A : Type 0} → Cells A → ℕ
top [] = 0
top ((p, _) ∷ c) = max p (top c)

abbrev pub next : {A : Type 0} → Cells A → Ptr
next c = if ltb (top c + 16) (2 ^ 48) then top c + 16 else null

abbrev pub bump : Calloc
bump = record {
  node = λ m. next m.nodes;
  head = λ m. next m.heads;
  hash = λ m. next m.hashes;
  slots_fit = λ m n. true;
}

pub read-top : {A : Type 0} (c : Cells A) (p : Ptr) → top c < p → read c p ≡ none
unfolding read
read-top [] p h = refl
read-top ((q, v) ∷ c) p h = ground (arith, read-top c p)

next_unused : {A : Type 0} (c : Cells A) → next c ≢ null → read c (next c) ≡ none
next_unused c ne = elim (Bool-cases (ltb (top c + 16) (2 ^ 48))) [
  | inl e ↦ rw e (read-top c (top c + 16) (omega arith))
  | inr e ↦ absurd (ne (rw e refl))
]

pub bump-IsCalloc : IsCalloc bump
bump-IsCalloc = record {
  node_unused = λ m. next_unused m.nodes;
  head_unused = λ m. next_unused m.heads;
  node_narrow = λ m. ground arith;
}

abbrev pub blank : Mem
blank = record { nodes = []; heads = []; hashes = []; nr_request = 0; cur_hash = null }

-- Two keys in bucket 1: 0x12 at the head, and 0x15 behind it.
abbrev pub pair_hash : Hash
pair_hash = record { n = 8; k = 4; size = 16; slots = set (replicate 16 null) 1 8 }

-- The counters of the head pointer and of the two nodes.
module _ (hits a b : ℕ) where
  abbrev node_a : Node
  node_a = record {
    list = record { addr = 32; counter = a; occupied = 0; rehash = 0 };
    tag = 2;
    key = 0x12;
    value = 700;
  }

  abbrev pub node_b : Node
  node_b = record {
    list = record { addr = 16; counter = b; occupied = 0; rehash = 0 };
    tag = 5;
    key = 0x15;
    value = 701;
  }

  abbrev head_a : Head
  head_a = record { addr = 16; counter = hits; active = 0 }

  abbrev pub counted_mem : Mem
  counted_mem = record {
    nodes = (16, some node_a) ∷ (32, some node_b) ∷ [];
    heads = (8, some head_a) ∷ [];
    hashes = (4, some pair_hash) ∷ [];
    nr_request = 0;
    cur_hash = 4;
  }

  abbrev pub counted_ring : Ring
  counted_ring = record { ptr = 8; head = head_a; node = node_a; rest = (32, node_b) ∷ [] }

  abbrev pub counted_rings : ℕ → Option Ring
  counted_rings = put_ring (λ _. none) 1 (some counted_ring)

  counted-IsRing : IsRing counted_mem pair_hash 1 counted_ring
  unfolding read hash_index hash_tag descents
  counted-IsRing = record {
    slot = refl;
    ptr_ne = omega arith;
    loaded = refl;
    begins = refl;
    seg = (refl, refl, omega arith, refl);
    apart = ((omega arith, tt), (tt, tt));
    addresses = ((omega arith, omega arith), ((omega arith, omega arith), tt));
    homes = ((omega arith, refl, refl), ((omega arith, refl, refl), tt));
    order = omega arith;
  }

  counted-IsBucket : (j : ℕ) → j < 16 → IsBucket counted_mem pair_hash j (counted_rings j)
  counted-IsBucket j lt = elim (Bool-cases (j == 1)) [
    | inl same ↦ rw same (rw ((==_iff j 1).0 same) counted-IsRing)
    | inr away ↦ rw away (
        get_elem?-set_ne (replicate 16 null) 1 j 8 (λ e. ground arith)
        ∙ get_elem?-replicate 16 j null lt)
  ]

  counted_ptr : (j : ℕ) (p : Ptr) → ptr_of (counted_rings j) ≡ some p → j ≡ 1
  counted_ptr j p e = elim (Bool-cases (j == 1)) [
    | inl same ↦ (==_iff j 1).0 same
    | inr away ↦ cc (rw away at e)
  ]

  pub counted-IsTable : IsTable counted_mem 4 pair_hash counted_rings
  unfolding read
  counted-IsTable = record {
    loaded = refl;
    narrow = omega arith;
    split = omega arith;
    int_shift = omega arith;
    sized = refl;
    spans = refl;
    bucket = counted-IsBucket;
    heads_apart = λ i j p li lj ei ej. omega (arith, counted_ptr i p ei, counted_ptr j p ej);
  }

abbrev pub pair_mem : Mem
pair_mem = counted_mem 0 1 1

abbrev pub pair_ring : Ring
pair_ring = counted_ring 0 1 1

abbrev pub pair_rings : ℕ → Option Ring
pair_rings = counted_rings 0 1 1

pub pair-IsTable : IsTable pair_mem 4 pair_hash pair_rings
pair-IsTable = counted-IsTable 0 1 1
