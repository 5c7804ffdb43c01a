-- ===== src/HotRing/Reach/Deletes.antt =====
-- hotring/hotring.c: what deletions leave of a table that holds what a caller knows.
use jeopardy.Prelude.{
  ℕ, suc, List, ◌∷◌, ◌^◌, ◌≡◌, ◌≢◌, ◌≤◌, ◌<◌, refl, sym, ◌∙◌, ap, inl, inr, Bool, true, Option,
  none, some, arith, length, Option-cases, ◌==◌, ==_iff, Bool-cases,
}
use mathlib.Core.Path.{subst}
use jeopardy.Memory.{Ptr, ok}
use jeopardy.HotRing.State.{Node, Hash, Mem, Calloc}
use jeopardy.HotRing.Table.{hash_index}
use jeopardy.HotRing.Get.{Got, hot, cold, raw_hash_get}
use jeopardy.HotRing.Hotspot.{Doubles}
use jeopardy.HotRing.Delete.{hotring_delete}
use jeopardy.HotRing.Fresh.{empty_hash}
use jeopardy.HotRing.Adding.{IsCalloc}
use jeopardy.HotRing.Valid.{Ring}
use jeopardy.HotRing.Amounts.{occurrences}
use jeopardy.HotRing.Reach.{Known, known_but, known_outside}
use jeopardy.HotRing.Lookup.{search_bucket, raw_hash_get-search_bucket}
use jeopardy.HotRing.Access.{locate-some}
use jeopardy.HotRing.Frame.{IsRing-Reads}
use jeopardy.HotRing.Ring.{Item, locate}
use jeopardy.HotRing.Removed.{hotring_delete-behind}
use jeopardy.HotRing.Dropped.{hotring_delete-head}
use jeopardy.HotRing.RoundTrip.{same_index}
use jeopardy.HotRing.Valid.{first, IsBucket, find_value, index-lt_size}
use jeopardy.HotRing.Reach.Stands.{Stands, ends_of, in_hash, for_ring}

-- `__hash_get` tells where a key stands in its ring.
module _ (m m1 : Mem) (h : Hash) (i key : ℕ) where
  same_got : {m2 : Mem} {a b : Got} → ok a m2 ≡ ok b m1 → a ≡ b
  same_got {m2} {a} {b} e = (ends_of (ok a m2) a b m2 m1 refl e).0

  behind_of :
      (o : Option Ring) (q p : Ptr)
      → IsBucket m h i o
      → search_bucket m key o ≡ ok (cold q p) m1
      → (r : Ring) × (o ≡ some r) × (r.node.key ≢ key) × (find_value key r.rest ≢ none)
  behind_of none q p b e = let x = ap (λ (g : Got). g.ret) (same_got e) in absurd (cc x)
  behind_of (some r) q p b e = elim (Bool-cases (r.node.key == key)) [
    | inl hit ↦ let x = ap (λ (g : Got). g.ret) (same_got (rw hit at e)) in absurd (cc x)
    | inr miss ↦ elim (Option-cases (locate key (first r) r.rest)) [
      | inl out ↦ let x = ap (λ (g : Got). g.ret) (same_got (rw (miss, out) at e)) in absurd (cc x)
      | inr (x, at) ↦
          let w =
            locate-some m.nodes h i key (first r) r.rest x.0 x.1 x.2 (IsRing-Reads m h i r b).1
              b.homes.1 at in
          (r, refl, (λ z. ground arith), (λ z. cc (w.2, z)))
    ]
  ]

  head_of :
      (o : Option Ring) (q : Ptr)
      → search_bucket m key o ≡ ok (hot q) m1
      → (r : Ring) × (o ≡ some r) × (r.node.key ≡ key)
  head_of none q e = let x = ap (λ (g : Got). g.ret) (same_got e) in absurd (cc x)
  head_of (some r) q e = elim (Bool-cases (r.node.key == key)) [
    | inl hit ↦ (r, refl, (==_iff r.node.key key).0 hit)
    | inr miss ↦ elim (Option-cases (locate key (first r) r.rest)) [
      | inl out ↦ let x = ap (λ (g : Got). g.ret) (same_got (rw (miss, out) at e)) in absurd (cc x)
      | inr (x, at) ↦
          let x = ap (λ (g : Got). g.ret) (same_got (rw (miss, at) at e)) in absurd (cc x)
    ]
  ]

few_behind :
    (key : ℕ) (q : Ptr) (v : Node) (xs : List Item)
    → v.key ≢ key
    → occurrences key ((q, v) ∷ xs) ≤ 1
    → occurrences key xs ≤ 1
unfolding occurrences
few_behind key q v xs ne few = ground arith

module _ (calloc : Calloc) (doubles : Doubles) (nbits kbits : ℕ) where
  module _ (c : IsCalloc calloc) (hp : Ptr) (inserted : ℕ) (known : Known) (m : Mem)
      (s : Stands calloc doubles nbits kbits hp inserted known m) (fuel key : ℕ)
      (enough : inserted ≤ fuel) (narrow : key < 2 ^ nbits) (m1 : Mem) where
    abbrev i : ℕ
    i = hash_index s.hash key

    fits : key < 2 ^ s.hash.n
    fits = in_hash calloc doubles nbits kbits c hp inserted known m s fuel key enough narrow

    search : raw_hash_get fuel hp key m ≡ search_bucket m key (s.rings i)
    search =
        raw_hash_get-search_bucket fuel m hp s.hash s.rings key s.table fits
          (for_ring calloc doubles nbits kbits c hp inserted known m s fuel key enough narrow)

    long_enough : (r : Ring) → s.rings i ≡ some r → suc (length r.rest) ≤ fuel
    long_enough r full = let l = rw full at (s.sizes i) in omega arith

    pub deleted_behind :
        (q p : Ptr) (deleted : Bool) (m' : Mem)
        → raw_hash_get fuel hp key m ≡ ok (cold q p) m1
        → hotring_delete fuel hp key m ≡ ok deleted m'
        → Stands calloc doubles nbits kbits hp inserted (known_but known key) m'
    deleted_behind q p deleted m' found run =
        let b =
          s.table.bucket i
            (index-lt_size s.hash key s.table.narrow s.table.split s.table.sized fits) in
        let (r, full, ne, there) =
          behind_of m m1 s.hash i key (s.rings i) q p b (sym search ∙ found) in
        let a =
          hotring_delete-behind fuel m hp s.hash s.rings key r s.table fits full
            (long_enough r full) ne there in
        let few : occurrences key r.rest ≤ 1 =
          few_behind key (first r) r.node r.rest ne (rw full at (s.once i key)) in
        let w : Stands calloc doubles nbits kbits hp inserted (known_but known key) a.after =
          record {
            hash = s.hash;
            rings = a.rings_after;
            table = a.table;
            bits = s.bits;
            sizes = λ j. omega (arith, (a.no_more j).0, s.sizes j);
            once = λ j k. omega (arith, (a.no_more j).1 k, s.once j k);
            same = λ k. elim (Bool-cases (k == key)) [
              | inl is ↦ rw is (rw ((==_iff k key).0 is) (a.self few))
              | inr away ↦ rw away (a.others k (λ e. ground arith) ∙ s.same k)
            ];
          } in
        subst (Stands calloc doubles nbits kbits hp inserted (known_but known key))
          (ends_of _ true deleted a.after m' a.returns run).1 w

    pub deleted_head :
        (q : Ptr) (deleted : Bool) (m' : Mem)
        → raw_hash_get fuel hp key m ≡ ok (hot q) m1
        → hotring_delete fuel hp key m ≡ ok deleted m'
        → Stands calloc doubles nbits kbits hp inserted
            (known_outside (empty_hash nbits kbits) known key)
            m'
    deleted_head q deleted m' found run =
        let (r, full, head) = head_of m m1 s.hash i key (s.rings i) q (sym search ∙ found) in
        let a =
          hotring_delete-head fuel m hp s.hash s.rings key r s.table fits full (long_enough r full)
            head in
        let index = λ (k : ℕ). same_index (empty_hash nbits kbits) s.hash k s.bits.0 s.bits.1 in
        let w : Stands calloc doubles nbits kbits hp inserted
            (known_outside (empty_hash nbits kbits) known key) a.after =
          record {
            hash = a.hash;
            rings = a.rings_after;
            table = a.table;
            bits = (a.bits.0 ∙ s.bits.0, a.bits.1 ∙ s.bits.1);
            sizes = λ j. omega (arith, (a.no_more j).0, s.sizes j);
            once = λ j k. omega (arith, (a.no_more j).1 k, s.once j k);
            same = λ k.
                rw (← index k, ← index key)
                  (elim (Bool-cases (hash_index s.hash k == i)) [
                    | inl is ↦ rw is (a.lost k ((==_iff (hash_index s.hash k) i).0 is))
                    | inr away ↦ rw away (a.others k (λ e. ground arith) ∙ s.same k)
                  ]);
          } in
        subst
          (Stands calloc doubles nbits kbits hp inserted
            (known_outside (empty_hash nbits kbits) known key))
          (ends_of _ true deleted a.after m' a.returns run).1 w
