-- ===== src/HotRing/Change.antt =====
-- A change inside one ring, on the whole table: what every operation on a ring leaves of the others.
use jeopardy.Prelude.{
  ℕ, ◌<◌, ◌≡◌, ◌≢◌, refl, sym, ◌∙◌, Option, none, some, arith, inl, inr, Bool-cases, ◌==◌, ==_iff,
}
use jeopardy.Memory.{Ptr, read}
use jeopardy.HotRing.State.{Node, Hash, Mem}
use jeopardy.HotRing.Table.{hash_index}
use jeopardy.HotRing.Frame.{IsRing-Reads, IsRing-frame, Same-Outside, Outside-index}
use jeopardy.HotRing.Valid.{Ring, items, IsRing, IsBucket, IsTable, ptr_of, put_ring}

module _ (m m' : Mem) (hp : Ptr) (h : Hash) (rings : ℕ → Option Ring) (i : ℕ) (r r' : Ring)
    (p q : Ptr) (u v : Node) (t : IsTable m hp h rings) (inside : i < h.size)
    (full : rings i ≡ some r) (p_in : read m.nodes p ≡ some u) (q_in : read m.nodes q ≡ some v)
    (p_home : hash_index h u.key ≡ i) (q_home : hash_index h v.key ≡ i)
    (hashes : read m'.hashes hp ≡ read m.hashes hp)
    (heads : (a : Ptr) → a ≢ r.ptr → read m'.heads a ≡ read m.heads a)
    (nodes : (a : Ptr) → a ≢ p → a ≢ q → read m'.nodes a ≡ read m.nodes a) (ptr : r'.ptr ≡ r.ptr)
    (b' : IsRing m' h i r') where
  others :
      (j : ℕ) (o : Option Ring)
      → j < h.size
      → rings j ≡ o
      → i ≢ j
      → IsBucket m h j o
      → IsBucket m' h j o
  others j none lj e away b = b
  others j (some s) lj e away b =
      let reads = IsRing-Reads m h j s b in
      let mine : ptr_of (rings i) ≡ some r.ptr = rw full in
      let theirs : ptr_of (rings j) ≡ some s.ptr = rw e in
      IsRing-frame m m' h h.slots j s refl
        (heads s.ptr λ same. away (t.heads_apart i j s.ptr inside lj (rw same mine) theirs))
        (Same-Outside m.nodes m'.nodes p q (items s) nodes
          (Outside-index m.nodes h j p u (items s) p_in (λ x. away (sym p_home ∙ x)) reads b.homes)
          (Outside-index m.nodes h j q v (items s) q_in (λ x. away (sym q_home ∙ x)) reads b.homes))
        b

  same_ptr : (j : ℕ) → ptr_of (put_ring rings i (some r') j) ≡ ptr_of (rings j)
  same_ptr j = elim (Bool-cases (j == i)) [
    | inl same ↦ rw same (rw ((==_iff j i).0 same, full, ptr) refl)
    | inr away ↦ rw away refl
  ]

  IsBucket-after : (j : ℕ) → j < h.size → IsBucket m' h j (put_ring rings i (some r') j)
  IsBucket-after j lj = elim (Bool-cases (j == i)) [
    | inl same ↦ rw same (rw ((==_iff j i).0 same) b')
    | inr away ↦ rw away (others j (rings j) lj refl (λ e. ground arith) (t.bucket j lj))
  ]

  -- The table stays well formed.
  pub changed-IsTable : IsTable m' hp h (put_ring rings i (some r'))
  changed-IsTable = record {
    loaded = hashes ∙ t.loaded;
    narrow = t.narrow;
    split = t.split;
    int_shift = t.int_shift;
    sized = t.sized;
    spans = t.spans;
    bucket = IsBucket-after;
    heads_apart = λ i' j o li lj ei ej.
        t.heads_apart i' j o li lj (sym (same_ptr i') ∙ ei) (sym (same_ptr j) ∙ ej);
  }
