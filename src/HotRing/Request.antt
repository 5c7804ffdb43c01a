-- ===== src/HotRing/Request.antt =====
-- `hash_get` as long as fewer than four requests were counted before it, so that no hotspot shift is due.
use jeopardy.Prelude.{
  ℕ, ◌+◌, ◌^◌, ◌≡◌, ◌≢◌, ◌<◌, refl, Bool, true, false, Option, none, some, arith, leb, inl, inr,
  Option-cases, sym, ◌∙◌,
}
use jeopardy.Memory.{Ptr, ok}
use jeopardy.HotRing.State.{Hash, Mem, Calloc}
use jeopardy.HotRing.Table.{hash_index}
use jeopardy.HotRing.Get.{Got}
use jeopardy.HotRing.Hotspot.{Doubles, hash_get}
use jeopardy.HotRing.Lookup.{EnoughFor, search_bucket, raw_hash_get-search_bucket}
use jeopardy.HotRing.Access.{Accessed, value_at, raw_hash_get-view}
use jeopardy.HotRing.Still.{Still}
use jeopardy.HotRing.Amounts.{NoMore}
use jeopardy.HotRing.Valid.{Ring, IsBucket, IsTable, view}

abbrev pub is_some {ℓ} : {A : Type ℓ} → Option A → Bool
is_some none = false
is_some (some a) = true

-- With another number of requests.
abbrev pub with_requests : ℕ → Mem → Mem
with_requests n m = record m { nr_request = n }

-- The request counted.
abbrev pub requested : Mem → Mem
requested m = with_requests (m.nr_request + 1) m

module _ (n : ℕ) (m : Mem) (h : Hash) where
  with_requests-IsBucket :
      (i : ℕ) (o : Option Ring) → IsBucket m h i o → IsBucket (with_requests n m) h i o
  with_requests-IsBucket i none b = b
  with_requests-IsBucket i (some r) b = record {
    slot = b.slot;
    ptr_ne = b.ptr_ne;
    loaded = b.loaded;
    begins = b.begins;
    seg = b.seg;
    apart = b.apart;
    addresses = b.addresses;
    homes = b.homes;
    order = b.order;
  }

  pub with_requests-IsTable :
      (hp : Ptr) (rings : ℕ → Option Ring)
      → IsTable m hp h rings
      → IsTable (with_requests n m) hp h rings
  with_requests-IsTable hp rings t = record {
    loaded = t.loaded;
    narrow = t.narrow;
    split = t.split;
    int_shift = t.int_shift;
    sized = t.sized;
    spans = t.spans;
    bucket = λ i lt. with_requests-IsBucket i (rings i) (t.bucket i lt);
    heads_apart = t.heads_apart;
  }

-- `hash_get` answered, and kept the table and `*hashp`: it counted the request, searched the bucket and
-- did nothing else.
pub record Answered (doubles : Doubles) (calloc : Calloc) (fuel : ℕ) (m : Mem) (hp : Ptr) (h : Hash)
    (rings : ℕ → Option Ring) (key : ℕ) : Type 0 where
  pub got : Got
  pub after : Mem
  pub rings_after : ℕ → Option Ring
  pub returns :
      hash_get doubles calloc fuel hp key m ≡ ok (is_some (view h rings key), got, hp) after
  pub table : IsTable after hp h rings_after
  pub same : (k : ℕ) → view h rings_after k ≡ view h rings k
  pub no_more : NoMore rings rings_after
  pub only_searches : search_bucket (requested m) key (rings (hash_index h key)) ≡ ok got after
  pub still : Still (requested m) after
  pub answers : value_at after got.node ≡ view h rings key

module _ (doubles : Doubles) (calloc : Calloc) (fuel : ℕ) (m : Mem) (hp : Ptr) (h : Hash)
    (rings : ℕ → Option Ring) (key : ℕ) where
  some_of : view h rings key ≢ none → is_some (view h rings key) ≡ true
  some_of ne = elim (Option-cases (view h rings key)) [
    | inl e ↦ absurd (ne e)
    | inr (a, e) ↦ rw e refl
  ]

  returned :
      (a : Accessed fuel (requested m) hp h rings key)
      → m.nr_request < 4
      → hash_get doubles calloc fuel hp key m ≡ ok (is_some (view h rings key), a.got, hp) a.after
  unfolding hash_get
  returned a few =
      let fits : leb 2147483647 m.nr_request ≡ false = ground arith in
      let early : leb 5 (m.nr_request + 1) ≡ false = ground arith in
      elim a.outcome [
        | inl (e, g) ↦ rw (fits, rw g at a.returns, a.table.loaded, g, e) refl
        | inr (ne, (q, inl g)) ↦ rw (fits, rw g at a.returns, a.table.loaded, g, some_of ne) refl
        | inr (ne, (q, inr (p, g))) ↦
            rw (fits, rw g at a.returns, a.table.loaded, early, g, some_of ne) refl
      ]

  -- On a well-formed table and a key of `n` bits, with fuel for the bucket's ring and fewer than four
  -- requests counted, `hash_get` returns whether the table holds the key, with a node of its value and
  -- the same `*hashp`. The memory is the one that a search of the whole bucket leaves, with the request
  -- counted: no hotspot shift happens, since the links, keys and values of the nodes, where the heads lead
  -- and whether they are active, and the tables are as they were. The table stays well formed and stands
  -- for the same.
  pub hash_get-view :
      IsTable m hp h rings
      → key < 2 ^ h.n
      → EnoughFor fuel (rings (hash_index h key))
      → m.nr_request < 4
      → Answered doubles calloc fuel m hp h rings key
  hash_get-view t narrow enough few =
      let t' = with_requests-IsTable (m.nr_request + 1) m h hp rings t in
      let a = raw_hash_get-view fuel (requested m) hp h rings key t' narrow enough in
      record {
        got = a.got;
        after = a.after;
        rings_after = a.rings_after;
        returns = returned a few;
        table = a.table;
        same = a.same;
        no_more = a.no_more;
        only_searches =
            sym (raw_hash_get-search_bucket fuel (requested m) hp h rings key t' narrow enough)
            ∙ a.returns;
        still = a.still;
        answers = a.answers;
      }
