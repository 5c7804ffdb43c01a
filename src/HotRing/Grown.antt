-- ===== src/HotRing/Grown.antt =====
-- `hash_insert` into a bucket that has a ring, on the whole table.
use jeopardy.Prelude.{
  ℕ, ◌+◌, ◌≤◌, ◌^◌, ◌<◌, ◌≡◌, ◌≢◌, refl, sym, ◌∙◌, Option, none, some, arith, true, inl, inr,
  Bool-cases, ◌==◌, ==_iff,
}
use jeopardy.Memory.{Ptr, null, read}
use jeopardy.HotRing.State.{Hash, Mem}
use jeopardy.HotRing.Table.{hash_index, hash_tag}
use jeopardy.HotRing.Place.{length-back}
use jeopardy.HotRing.Growth.{
  mem_after, ring_after, ring_after-IsRing, others, find-back_other, find-back_self,
  occurrences-back,
}
use jeopardy.HotRing.Amounts.{occurrences, occurrences-none, IsOnce}
use jeopardy.HotRing.Valid.{
  Ring, ring_size, items, first, IsRing, IsBucket, IsTable, ptr_of, view, put_ring,
}

-- The table after `key` was added: well formed, every other key reads as before, and `key` reads
-- as `value` unless it was there.
pub record Adds (m : Mem) (hp : Ptr) (h h' : Hash) (rings rings' : ℕ → Option Ring) (key : ℕ)
    (value : Ptr) : Type 0 where
  pub table : IsTable m hp h' rings'
  pub bits : (h'.n ≡ h.n) × (h'.k ≡ h.k)
  pub grows : (j : ℕ) → ring_size (rings' j) ≤ ring_size (rings j) + 1
  pub others : (k : ℕ) → k ≢ key → view h' rings' k ≡ view h rings k
  pub self : view h rings key ≡ none → view h' rings' key ≡ some value
  pub once : view h rings key ≡ none → IsOnce rings → IsOnce rings'

put_ring_self : (rings : ℕ → Option Ring) (i : ℕ) (o : Option Ring) → put_ring rings i o i ≡ o
put_ring_self rings i o = ground arith

module _ (m : Mem) (hp : Ptr) (h : Hash) (rings : ℕ → Option Ring) (key : ℕ) (value p : Ptr)
    (r : Ring) (t : IsTable m hp h rings) (full : rings (hash_index h key) ≡ some r)
    (b : IsRing m h (hash_index h key) r) (ne : p ≢ null) (small : p < 2 ^ 48)
    (fresh : read m.nodes p ≡ none) (narrow : key < 2 ^ h.n) where
  abbrev m' : Mem
  m' = mem_after m h key value p r

  abbrev rings' : ℕ → Option Ring
  rings' = put_ring rings (hash_index h key) (some (ring_after m h key value p r))

  IsBucket-after : (j : ℕ) → j < h.size → IsBucket m' h j (rings' j)
  IsBucket-after j inside = elim (Bool-cases (j == hash_index h key)) [
    | inl same ↦
        rw same
          (rw ((==_iff j _).0 same) (ring_after-IsRing m h key value p r b ne small fresh narrow))
    | inr away ↦ rw away (other (λ e. ground arith) (rings j) (t.bucket j inside))
  ]
    where
      other : hash_index h key ≢ j → (o : Option Ring) → IsBucket m h j o → IsBucket m' h j o
      other ne' none bj = bj
      other ne' (some s) bj = others m h key value p r b ne small fresh narrow j s ne' bj

  same_ptr : (j : ℕ) → ptr_of (rings' j) ≡ ptr_of (rings j)
  same_ptr j = elim (Bool-cases (j == hash_index h key)) [
    | inl same ↦ rw same (rw ((==_iff j _).0 same, full) refl)
    | inr away ↦ rw away refl
  ]

  reads_other : (k : ℕ) → k ≢ key → view h rings' k ≡ view h rings k
  reads_other k away = elim (Bool-cases (hash_index h k == hash_index h key)) [
    | inl same ↦ rw same (
        rw ((==_iff (hash_index h k) _).0 same, full)
          (find-back_other p (hash_tag h key) key value k (first r) r.node r.rest
            (λ e. away (sym e))))
    | inr elsewhere ↦ rw elsewhere refl
  ]

  reads_self : view h rings key ≡ none → view h rings' key ≡ some value
  reads_self absent =
      let here : (hash_index h key == hash_index h key) ≡ true = ground arith in
      rw here
        (find-back_self p (hash_tag h key) key value (first r) r.node r.rest (rw full at absent))

  grows_by_one : (j : ℕ) → ring_size (rings' j) ≤ ring_size (rings j) + 1
  grows_by_one j = elim (Bool-cases (j == hash_index h key)) [
    | inl same ↦
        rw (same, (==_iff j _).0 same, full, length-back p (hash_tag h key) key value r.node r.rest)
          (omega arith)
    | inr away ↦ rw away (omega arith)
  ]

  IsOnce-after : view h rings key ≡ none → IsOnce rings → IsOnce rings'
  IsOnce-after absent once j k = elim (Bool-cases (j == hash_index h key)) [
    | inl same ↦
        let grows = occurrences-back p (hash_tag h key) key value k (first r) r.node r.rest in
        let before : occurrences k (items r) ≤ 1 = rw full at (once (hash_index h key) k) in
        let gone : occurrences key (items r) ≡ 0 =
          occurrences-none key (items r) (rw full at absent) in
        rw (same, grows)
          (elim (Bool-cases (key == k)) [
            | inl is ↦ let e = (==_iff key k).0 is in rw (is, ← e, gone) (omega arith)
            | inr away ↦ rw away (omega arith)
          ])
    | inr away ↦ rw away (once j k)
  ]

  pub grown : Adds m' hp h h rings rings' key value
  grown = record {
    table = record {
      loaded = t.loaded;
      narrow = t.narrow;
      split = t.split;
      int_shift = t.int_shift;
      sized = t.sized;
      spans = t.spans;
      bucket = IsBucket-after;
      heads_apart = λ i j q li lj ei ej.
          t.heads_apart i j q li lj (sym (same_ptr i) ∙ ei) (sym (same_ptr j) ∙ ej);
    };
    bits = (refl, refl);
    grows = grows_by_one;
    others = reads_other;
    self = reads_self;
    once = IsOnce-after;
  }
