-- ===== src/HotRing/Access.antt =====
-- `__hash_get` on the whole table: the table stays as it is but for counters, and the answer is what
-- the table stands for.
use jeopardy.Prelude.{
  ◌⊎◌, ◌≢◌, All, ℕ, ◌^◌, ◌<◌, ◌≡◌, ◌≢◌, refl, sym, ◌∙◌, List, [], ◌∷◌, Option, none, some, arith,
  inl, inr, Bool-cases, Option-cases, ◌==◌, ==_iff,
}
use jeopardy.Memory.{Ptr, Cells, read, write, read-write_self, read-write_ne, ok}
use jeopardy.HotRing.State.{Node, Hash, Mem}
use jeopardy.HotRing.Table.{hash_index}
use jeopardy.HotRing.Get.{Got, not_found, hot, cold, counted, head_counted, raw_hash_get}
use jeopardy.HotRing.Ring.{Item, locate, length-replace}
use jeopardy.HotRing.Frame.{Reads, IsRing-Reads}
use jeopardy.HotRing.Lookup.{EnoughFor, head_touched, search_bucket, raw_hash_get-search_bucket}
use jeopardy.HotRing.Count.{
  replaced, head_replaced, head_replaced-IsRing, counted-IsRing, find-replaced,
  occurrences-replaced,
}
use jeopardy.HotRing.Change.{changed-IsTable}
use jeopardy.HotRing.Amounts.{NoMore, put_ring-NoMore}
use jeopardy.HotRing.Still.{Still, read-counted, read-head_counted}
use jeopardy.HotRing.Valid.{
  Ring, items, first, Home, IsRing, IsBucket, IsTable, index-lt_size, find_value, view, put_ring,
}

-- The value of the node that an access returned.
abbrev pub value_of : Option Node → Option Ptr
value_of none = none
value_of (some v) = some v.value

abbrev pub value_at : Mem → Option Ptr → Option Ptr
value_at m none = none
value_at m (some q) = value_of (read m.nodes q)

-- The search ended at the head, or at a node behind it.
abbrev pub IsHit : Got → Type 0
IsHit g = (q : Ptr) × ((g ≡ hot q) ⊎ ((p : Ptr) × (g ≡ cold q p)))

pub record Accessed (fuel : ℕ) (m : Mem) (hp : Ptr) (h : Hash) (rings : ℕ → Option Ring) (key : ℕ)
    : Type 0 where
  pub got : Got
  pub after : Mem
  pub rings_after : ℕ → Option Ring
  pub returns : raw_hash_get fuel hp key m ≡ ok got after
  pub table : IsTable after hp h rings_after
  pub same : (k : ℕ) → view h rings_after k ≡ view h rings k
  pub no_more : NoMore rings rings_after
  pub still : Still m after
  pub answers : value_at after got.node ≡ view h rings key
  pub misses : view h rings key ≡ none → got ≡ not_found
  pub outcome :
      ((view h rings key ≡ none) × (got ≡ not_found)) ⊎ ((view h rings key ≢ none) × IsHit got)

module _ (c : Cells Node) (h : Hash) (i key : ℕ) where
  pub locate-none :
      (prev : Ptr) (xs : List Item) → locate key prev xs ≡ none → find_value key xs ≡ none
  unfolding locate
  locate-none prev [] e = refl
  locate-none prev ((a, u) ∷ xs) e = ground (arith, locate-none a xs)

  pub locate-some :
      (prev : Ptr) (xs : List Item) (q : Ptr) (v : Node) (p : Ptr)
      → Reads c xs
      → All (λ x. Home h i x.1) xs
      → locate key prev xs ≡ some (q, v, p)
      → (read c q ≡ some v) × Home h i v × (find_value key xs ≡ some v.value)
  unfolding locate
  locate-some prev [] q v p r a e = cc
  locate-some prev ((b, u) ∷ xs) q v p r a e = elim (Bool-cases (u.key == key)) [
    | inl hit ↦
        let e' : ◌≡◌ {A = Option (Ptr × Node × Ptr)} (some (b, u, prev)) (some (q, v, p)) =
          rw hit at e in
        let same : u ≡ v = ground arith in
        let at : b ≡ q = ground arith in rw hit (ground (arith, r.0), rw (← same) a.0, ground arith)
    | inr miss ↦ rw miss (locate-some b xs q v p r.1 a.1 (rw miss at e))
  ]

-- `m'` is the memory once the head is counted, and a node at `q` may be counted too.
module _ (fuel : ℕ) (m : Mem) (hp : Ptr) (h : Hash) (rings : ℕ → Option Ring) (key : ℕ)
    (t : IsTable m hp h rings) (narrow : key < 2 ^ h.n) where
  abbrev i : ℕ
  i = hash_index h key

  pub inside : i < h.size
  inside = index-lt_size h key t.narrow t.split t.sized narrow

  pub heads_but :
      (r : Ring) (a : Ptr) → a ≢ r.ptr → read (head_touched m r).heads a ≡ read m.heads a
  heads_but r a ne = read-write_ne m.heads r.ptr a (head_counted r.head) ne

  pub same_view :
      (r r' : Ring)
      → rings i ≡ some r
      → ((k : ℕ) → find_value k (items r') ≡ find_value k (items r))
      → (k : ℕ) → view h (put_ring rings i (some r')) k ≡ view h rings k
  same_view r r' full find k = elim (Bool-cases (hash_index h k == i)) [
    | inl same ↦ rw same (rw ((==_iff (hash_index h k) i).0 same, full) (find k))
    | inr away ↦ rw away refl
  ]

  -- A node of the ring is found and counted.
  unfoldable pub found :
      (r : Ring) (q : Ptr) (v : Node) (g : Got)
      → rings i ≡ some r
      → IsRing m h i r
      → read m.nodes q ≡ some v
      → Home h i v
      → find_value key (items r) ≡ some v.value
      → g.node ≡ some q
      → IsHit g
      → raw_hash_get fuel hp key m
        ≡ ok g (let m' = head_touched m r in record m' { nodes = write m.nodes q (counted v) })
      → Accessed fuel m hp h rings key
  found r q v g full b e home find at hit run =
      let m' = head_touched m r in
      let r' = head_replaced r in
      let b' = head_replaced-IsRing m h i r b in
      let r'' = replaced q (counted v) r' in
      let b'' = counted-IsRing m' h i r' b' q v e home in
      record {
        got = g;
        after = record m' { nodes = write m.nodes q (counted v) };
        rings_after = put_ring rings i (some r'');
        returns = run;
        table =
            changed-IsTable m _ hp h rings i r r'' q q v v t inside full e e home.1 home.1 refl
              (heads_but r) (λ a ne _. read-write_ne m.nodes q a (counted v) ne) refl b'';
        same = same_view r r'' full (find-replaced m' h i r' b' q v e);
        no_more =
            put_ring-NoMore rings i (some r'')
              (rw (full, length-replace q (counted v) r.rest) (omega arith))
              (λ k.
                rw
                  (
                    full,
                    occurrences-replaced m.nodes q v (counted v) e refl k r'
                        (IsRing-Reads m' h i r' b'),
                  )
                  (omega arith));
        still = record {
          nodes = read-counted m.nodes q v e;
          heads = read-head_counted m.heads r.ptr r.head b.loaded;
          hashes = refl;
          requests = refl;
          current = refl;
        };
        answers = rw (at, read-write_self, full) (sym find);
        misses = λ none'. cc (find, rw full at none');
        outcome = inr (λ none'. cc (find, rw full at none'), hit);
      }

  missed :
      (r : Ring)
      → rings i ≡ some r
      → IsRing m h i r
      → find_value key (items r) ≡ none
      → raw_hash_get fuel hp key m ≡ ok not_found (head_touched m r)
      → Accessed fuel m hp h rings key
  missed r full b find run =
      let m' = head_touched m r in
      let r' = head_replaced r in
      record {
        got = not_found;
        after = m';
        rings_after = put_ring rings i (some r');
        returns = run;
        table =
            changed-IsTable m m' hp h rings i r r' (first r) (first r) r.node r.node t inside full
              b.begins b.begins b.homes.0.1 b.homes.0.1 refl (heads_but r) (λ a _ _. refl) refl
              (head_replaced-IsRing m h i r b);
        same = same_view r r' full (λ k. refl);
        no_more =
            put_ring-NoMore rings i (some r') (rw full (omega arith)) (λ k. rw full (omega arith));
        still = record {
          nodes = λ p. refl;
          heads = read-head_counted m.heads r.ptr r.head b.loaded;
          hashes = refl;
          requests = refl;
          current = refl;
        };
        answers = rw full (sym find);
        misses = λ _. refl;
        outcome = inl (rw full find, refl);
      }

  in_ring :
      (r : Ring)
      → rings i ≡ some r
      → IsRing m h i r
      → raw_hash_get fuel hp key m ≡ search_bucket m key (some r)
      → Accessed fuel m hp h rings key
  in_ring r full b run = elim (Bool-cases (r.node.key == key)) [
    | inl hit ↦
        found r (first r) r.node (hot (first r)) full b b.begins b.homes.0 (rw hit refl) refl
          (first r, inl refl) (run ∙ rw hit refl)
    | inr miss ↦ elim (Option-cases (locate key (first r) r.rest)) [
      | inl e ↦
          missed r full b (rw miss (locate-none m.nodes h i key (first r) r.rest e))
            (run ∙ rw (miss, e) refl)
      | inr (x, e) ↦
          let w =
            locate-some m.nodes h i key (first r) r.rest x.0 x.1 x.2 (IsRing-Reads m h i r b).1
              b.homes.1 e in
          found r x.0 x.1 (cold x.0 x.2) full b w.0 w.1 (rw miss w.2) refl (x.0, inr (x.2, refl))
            (run ∙ rw (miss, e) refl)
    ]
  ]

  by_bucket :
      (o : Option Ring)
      → rings i ≡ o
      → IsBucket m h i o
      → raw_hash_get fuel hp key m ≡ search_bucket m key o
      → Accessed fuel m hp h rings key
  by_bucket none e b run = record {
    got = not_found;
    after = m;
    rings_after = rings;
    returns = run;
    table = t;
    same = λ k. refl;
    no_more = λ j. (omega arith, λ k. omega arith);
    still = record {
      nodes = λ p. refl;
      heads = λ p. refl;
      hashes = refl;
      requests = refl;
      current = refl;
    };
    answers = rw e refl;
    misses = λ _. refl;
    outcome = inl (rw e refl, refl);
  }
  by_bucket (some r) e b run = in_ring r e b run

  -- On a well-formed table and a key of `n` bits, with fuel for the bucket's ring, `__hash_get`
  -- answers what the table stands for; the table stays well formed and stands for the same; a key
  -- that is not there is reported as not found.
  pub raw_hash_get-view : EnoughFor fuel (rings (hash_index h key)) → Accessed fuel m hp h rings key
  raw_hash_get-view enough =
      by_bucket (rings i) refl (t.bucket i inside)
        (raw_hash_get-search_bucket fuel m hp h rings key t narrow enough)
