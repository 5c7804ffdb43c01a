-- ===== src/HotRing/Dropped.antt =====
-- `hotring_delete` of the head of a ring, which drops the whole ring, and of a key that is not there.
use jeopardy.Prelude.{
  ℕ, ◌^◌, ◌<◌, ◌≡◌, ◌≢◌, refl, sym, ◌∙◌, Option, none, some, arith, true, false, inl, inr,
  Bool-cases, ◌==◌, ==_iff, length, set, length-set, get_elem?-set_self, get_elem?-set_ne,
}
use jeopardy.Memory.{Ptr, null, read, write, erase, read-write_self, ok}
use jeopardy.HotRing.State.{Hash, Mem}
use jeopardy.HotRing.Table.{hash_index, hash_tag}
use jeopardy.HotRing.Get.{counted, head_counted}
use jeopardy.HotRing.Delete.{hotring_delete}
use jeopardy.HotRing.Frame.{IsRing-Reads, IsRing-frame, Same-Outside, Outside-index}
use jeopardy.HotRing.Access.{raw_hash_get-view}
use jeopardy.HotRing.Lookup.{EnoughFor, search_ring}
use jeopardy.HotRing.Amounts.{NoMore, put_ring-NoMore}
use jeopardy.HotRing.Valid.{
  Ring, items, first, IsRing, IsBucket, IsTable, ptr_of, view, put_ring, view-put_ring,
  index-lt_size,
}

pub record Kept (fuel : ℕ) (m : Mem) (hp : Ptr) (h : Hash) (rings : ℕ → Option Ring) (key : ℕ)
    : Type 0 where
  pub after : Mem
  pub rings_after : ℕ → Option Ring
  pub returns : hotring_delete fuel hp key m ≡ ok false after
  pub table : IsTable after hp h rings_after
  pub same : (k : ℕ) → view h rings_after k ≡ view h rings k
  pub no_more : NoMore rings rings_after

-- On a well-formed table, deleting a key of `n` bits that is not there, with fuel for the ring,
-- returns false; the table stays well formed and every key reads as before.
pub hotring_delete-absent :
    (fuel : ℕ) (m : Mem) (hp : Ptr) (h : Hash) (rings : ℕ → Option Ring) (key : ℕ)
    → IsTable m hp h rings
    → key < 2 ^ h.n
    → EnoughFor fuel (rings (hash_index h key))
    → view h rings key ≡ none
    → Kept fuel m hp h rings key
unfolding hotring_delete
hotring_delete-absent fuel m hp h rings key t narrow enough absent =
    let a = raw_hash_get-view fuel m hp h rings key t narrow enough in
    record {
      after = a.after;
      rings_after = a.rings_after;
      returns = rw (a.returns, a.misses absent) refl;
      table = a.table;
      same = a.same;
      no_more = a.no_more;
    }

pub record Dropped (fuel : ℕ) (m : Mem) (hp : Ptr) (h : Hash) (rings : ℕ → Option Ring) (key : ℕ)
    : Type 0 where
  pub after : Mem
  pub hash : Hash
  pub rings_after : ℕ → Option Ring
  pub returns : hotring_delete fuel hp key m ≡ ok true after
  pub table : IsTable after hp hash rings_after
  pub bits : (hash.n ≡ h.n) × (hash.k ≡ h.k)
  pub no_more : NoMore rings rings_after
  pub lost : (k : ℕ) → hash_index h k ≡ hash_index h key → view hash rings_after k ≡ none
  pub others :
      (k : ℕ) → hash_index h k ≢ hash_index h key → view hash rings_after k ≡ view h rings k

module _ (fuel : ℕ) (m : Mem) (hp : Ptr) (h : Hash) (rings : ℕ → Option Ring) (key : ℕ) (r : Ring)
    (t : IsTable m hp h rings) (narrow : key < 2 ^ h.n) (full : rings (hash_index h key) ≡ some r)
    (b : IsRing m h (hash_index h key) r) (head : r.node.key ≡ key) where
  abbrev i : ℕ
  i = hash_index h key

  abbrev hash' : Hash
  hash' = record h { slots = set h.slots i null }

  abbrev after : Mem
  after = record m {
    nodes = erase (write m.nodes (first r) (counted r.node)) (first r);
    heads = erase (write m.heads r.ptr (head_counted r.head)) r.ptr;
    hashes = write m.hashes hp hash';
  }

  abbrev rings' : ℕ → Option Ring
  rings' = put_ring rings i none

  run : length r.rest < fuel → hotring_delete fuel hp key m ≡ ok true after
  unfolding hotring_delete
  run enough =
      let nonnull : (r.ptr == null) ≡ false = ground arith in
      let hit : (r.node.key == key) ≡ true = ground arith in
      rw
        (
          search_ring fuel m hp h key i r t.loaded refl narrow b enough,
          hit,
          read-write_self,
          t.loaded,
          t.loaded,
          b.slot,
          t.loaded,
          b.slot,
          nonnull,
          read-write_self,
        )
        refl

  nodes_same : (a : Ptr) → a ≢ first r → a ≢ first r → read after.nodes a ≡ read m.nodes a
  unfolding read
  nodes_same a ne _ = ground arith

  heads_same : (a : Ptr) → a ≢ r.ptr → read after.heads a ≡ read m.heads a
  unfolding read
  heads_same a ne = ground arith

  others_stand :
      (j : ℕ) (o : Option Ring)
      → j < h.size
      → rings j ≡ o
      → i ≢ j
      → IsBucket m h j o
      → IsBucket after hash' j o
  others_stand j none lj e away bj = get_elem?-set_ne h.slots i j null away ∙ bj
  others_stand j (some s) lj e away bj =
      let mine : ptr_of (rings i) ≡ some r.ptr = rw full in
      let theirs : ptr_of (rings j) ≡ some s.ptr = rw e in
      let lt = index-lt_size h key t.narrow t.split t.sized narrow in
      let out =
        Outside-index m.nodes h j (first r) r.node (items s) b.begins
          (λ x. away (sym b.homes.0.1 ∙ x)) (IsRing-Reads m h j s bj) bj.homes in
      IsRing-frame m after h hash'.slots j s (get_elem?-set_ne h.slots i j null away)
        (heads_same s.ptr λ same. away (t.heads_apart i j s.ptr lt lj (rw same mine) theirs))
        (Same-Outside m.nodes after.nodes (first r) (first r) (items s) nodes_same out out) bj

  IsBucket-after : (j : ℕ) → j < h.size → IsBucket after hash' j (rings' j)
  IsBucket-after j lj = elim (Bool-cases (j == i)) [
    | inl same ↦ rw same (rw ((==_iff j i).0 same) (get_elem?-set_self h.slots i null b.slot))
    | inr away ↦ rw away (others_stand j (rings j) lj refl (λ e. ground arith) (t.bucket j lj))
  ]

  ptr_before : (j : ℕ) (o : Ptr) → ptr_of (rings' j) ≡ some o → ptr_of (rings j) ≡ some o
  ptr_before j o e = elim (Bool-cases (j == i)) [
    | inl same ↦ cc (rw same at e)
    | inr away ↦ rw away at e
  ]

  dropped : length r.rest < fuel → Dropped fuel m hp h rings key
  unfolding hash_index hash_tag
  dropped enough = record {
    after = after;
    hash = hash';
    rings_after = rings';
    returns = run enough;
    table = record {
      loaded = read-write_self m.hashes hp hash';
      narrow = t.narrow;
      split = t.split;
      int_shift = t.int_shift;
      sized = t.sized;
      spans = length-set h.slots i null ∙ t.spans;
      bucket = IsBucket-after;
      heads_apart =
          λ i' j o li lj ei ej. t.heads_apart i' j o li lj (ptr_before i' o ei) (ptr_before j o ej);
    };
    bits = (refl, refl);
    no_more = put_ring-NoMore rings i none (omega arith) (λ k. omega arith);
    lost = λ k e. rw (view-put_ring h rings i none k, (==_iff (hash_index h k) i).1 e) refl;
    others = λ k ne.
        let away : (hash_index h k == i) ≡ false = ground arith in
        rw (view-put_ring h rings i none k, away) refl;
  }

-- On a well-formed table, a key of `n` bits at the head of its ring, with fuel for the ring, is
-- deleted: the result is true, and every key of the bucket is gone with it; the table stays well
-- formed, and the keys of other buckets read as before.
pub hotring_delete-head :
    (fuel : ℕ) (m : Mem) (hp : Ptr) (h : Hash) (rings : ℕ → Option Ring) (key : ℕ) (r : Ring)
    → IsTable m hp h rings
    → key < 2 ^ h.n
    → rings (hash_index h key) ≡ some r
    → length r.rest < fuel
    → r.node.key ≡ key
    → Dropped fuel m hp h rings key
hotring_delete-head fuel m hp h rings key r t narrow full enough head =
    let b : IsRing m h (hash_index h key) r =
      rw full at (t.bucket _ (index-lt_size h key t.narrow t.split t.sized narrow)) in
    dropped fuel m hp h rings key r t narrow full b head enough
