-- ===== src/HotRing/Removed.antt =====
-- `hotring_delete` on the whole table.
use jeopardy.Prelude.{
  ℕ, ◌^◌, ◌<◌, ◌≤◌, ◌≡◌, ◌≢◌, refl, sym, ◌∙◌, List, [], ◌∷◌, Option, none, some, arith, true, false,
  inl, inr, Bool-cases, Option-cases, ◌==◌, ==_iff, length,
}
use native.Mathlib.Nat.{le_trans}
use jeopardy.Memory.{Ptr, read-write_self, ok}
use jeopardy.HotRing.State.{Node, Hash, Mem}
use jeopardy.HotRing.Table.{hash_index}
use jeopardy.HotRing.Get.{head_counted}
use jeopardy.HotRing.Delete.{hotring_delete}
use jeopardy.HotRing.Ring.{Item, locate}
use jeopardy.HotRing.Frame.{IsRing-Reads}
use jeopardy.HotRing.Cut.{
  cut_front, cut_back, cut_front-tag, at-cut, Apart-cut, Home-cut_front, Home-cut, descents-cut,
  find-cut_other, Seg-cut,
}
use jeopardy.HotRing.Removal.{Before, locate-Before, unlinked, unlinked-Unlinked, delete_cold}
use jeopardy.HotRing.Access.{locate-none, locate-some, inside, heads_but}
use jeopardy.HotRing.Change.{changed-IsTable}
use jeopardy.HotRing.Lookup.{EnoughFor, head_touched, search_ring}
use jeopardy.HotRing.Amounts.{occurrences, NoMore, put_ring-NoMore}
use jeopardy.HotRing.Valid.{
  Ring, first, IsAddress, IsRing, IsTable, find_value, view, put_ring, view-put_ring, index-lt_size,
}

find-none : (key : ℕ) (xs : List Item) → occurrences key xs ≡ 0 → find_value key xs ≡ none
unfolding occurrences
find-none key [] h = refl
find-none key ((q, v) ∷ xs) h = ground (arith, find-none key xs)

cut-none :
    (key : ℕ) (q : Ptr) (u : Node) (xs : List Item)
    → (u.key == key) ≡ false
    → occurrences key xs ≤ 1
    → find_value key ((q, cut_front key u xs) ∷ cut_back key xs) ≡ none
unfolding occurrences cut_front cut_back
cut-none key q u [] ne h = ground arith
cut-none key q u ((a, v) ∷ xs) ne h = ground (arith, cut-none key a v xs, find-none key xs)

occurrences-cut :
    (key k : ℕ) (q : Ptr) (u : Node) (xs : List Item)
    → occurrences k ((q, cut_front key u xs) ∷ cut_back key xs) ≤ occurrences k ((q, u) ∷ xs)
unfolding occurrences cut_front cut_back
occurrences-cut key k q u [] = ground arith
occurrences-cut key k q u ((a, v) ∷ xs) = ground (arith, occurrences-cut key k a v xs)

length-cut : (key : ℕ) (xs : List Item) → length (cut_back key xs) ≤ length xs
unfolding cut_back
length-cut key [] = omega arith
length-cut key ((a, v) ∷ xs) = ground (arith, length-cut key xs)

pub record Deleted (fuel : ℕ) (m : Mem) (hp : Ptr) (h : Hash) (rings : ℕ → Option Ring) (key : ℕ)
    (r : Ring) : Type 0 where
  pub after : Mem
  pub rings_after : ℕ → Option Ring
  pub returns : hotring_delete fuel hp key m ≡ ok true after
  pub table : IsTable after hp h rings_after
  pub others : (k : ℕ) → k ≢ key → view h rings_after k ≡ view h rings k
  pub self : occurrences key r.rest ≤ 1 → view h rings_after key ≡ none
  pub no_more : NoMore rings rings_after

abbrev pub cut_ring : ℕ → Ring → Ring
cut_ring key r = record r {
  head = head_counted r.head;
  node = cut_front key r.node r.rest;
  rest = cut_back key r.rest;
}

module _ (fuel : ℕ) (m : Mem) (hp : Ptr) (h : Hash) (rings : ℕ → Option Ring) (key : ℕ)
    (t : IsTable m hp h rings) (narrow : key < 2 ^ h.n) (r : Ring)
    (full : rings (hash_index h key) ≡ some r) (b : IsRing m h (hash_index h key) r)
    (behind : (r.node.key == key) ≡ false) (q : Ptr) (v : Node) (prev : Ptr)
    (found : locate key (first r) r.rest ≡ some (q, v, prev)) where
  before : Before m.nodes h (hash_index h key) q v prev
  before =
      locate-Before m.nodes h (hash_index h key) key (first r) (first r) r.node r.rest q v prev
        b.begins b.homes.0 b.addresses.0.0 b.addresses.0.1 b.seg b.apart.0 b.apart.1 b.homes.1
        b.addresses.1 found

  abbrev after : Mem
  after = let m' = head_touched m r in record m' { nodes = unlinked m.nodes q v prev before.node }

  cut_ring-IsRing : IsRing after h (hash_index h key) (cut_ring key r)
  cut_ring-IsRing =
      let i = hash_index h key in
      let l = unlinked-Unlinked m.nodes q v prev before.node before.holds before.ne in
      let seg =
        Seg-cut key m.nodes after.nodes (first r) (first r) r.node r.rest q v prev b.begins b.seg
          b.apart.0 b.apart.1 found l in
      record {
        slot = b.slot;
        ptr_ne = b.ptr_ne;
        loaded = read-write_self m.heads r.ptr (head_counted r.head);
        begins = seg.0;
        seg = seg.1;
        apart = (at-cut key (λ a. a ≢ first r) r.rest b.apart.0, Apart-cut key r.rest b.apart.1);
        addresses = (b.addresses.0, at-cut key IsAddress r.rest b.addresses.1);
        homes = (Home-cut_front key h i r.node r.rest b.homes.0, Home-cut key h i r.rest b.homes.1);
        order =
            rw (cut_front-tag key r.node r.rest)
              (le_trans (descents-cut key r.node.tag r.rest r.node.tag) b.order);
      }

  reads_other :
      (k : ℕ)
      → k ≢ key
      → view h (put_ring rings (hash_index h key) (some (cut_ring key r))) k ≡ view h rings k
  reads_other k away =
      let i = hash_index h key in
      rw (view-put_ring h rings i (some (cut_ring key r)) k)
        (elim (Bool-cases (hash_index h k == i)) [
          | inl same ↦
              rw (same, (==_iff (hash_index h k) i).0 same, full)
                (find-cut_other key k (first r) r.node r.rest (λ e. away (sym e)))
          | inr elsewhere ↦ rw elsewhere refl
        ])

  reads_self :
      occurrences key r.rest ≤ 1
      → view h (put_ring rings (hash_index h key) (some (cut_ring key r))) key ≡ none
  reads_self once =
      let i = hash_index h key in
      let here : (hash_index h key == i) ≡ true = ground arith in
      rw (view-put_ring h rings i (some (cut_ring key r)) key, here)
        (cut-none key (first r) r.node r.rest behind once)

  removed : EnoughFor fuel (some r) → Deleted fuel m hp h rings key r
  removed enough =
      let i = hash_index h key in
      let l = unlinked-Unlinked m.nodes q v prev before.node before.holds before.ne in
      let w =
        locate-some m.nodes h i key (first r) r.rest q v prev (IsRing-Reads m h i r b).1 b.homes.1
          found in
      record {
        after = after;
        rings_after = put_ring rings i (some (cut_ring key r));
        returns =
            delete_cold fuel hp key m (head_touched m r) q v prev before.node
              (search_ring fuel m hp h key i r t.loaded refl narrow b enough
                ∙ rw (behind, found) refl)
              before.holds before.ne before.not_null before.narrow;
        table =
            changed-IsTable m after hp h rings i r (cut_ring key r) q prev v before.node t
              (inside fuel m hp h rings key t narrow) full w.0 before.holds w.1.1 before.home.1 refl
              (heads_but fuel m hp h rings key t narrow r) l.rest refl cut_ring-IsRing;
        others = reads_other;
        self = reads_self;
        no_more =
            put_ring-NoMore rings i (some (cut_ring key r))
              (rw full (let l = length-cut key r.rest in omega arith))
              (λ k. rw full (occurrences-cut key k (first r) r.node r.rest));
      }

-- On a well-formed table, a key of `n` bits that stands in its ring behind the head, with fuel for
-- the ring, is deleted: the result is true, the table stays well formed, every other key reads as
-- before, and the key is gone if it stood there once.
pub hotring_delete-behind :
    (fuel : ℕ) (m : Mem) (hp : Ptr) (h : Hash) (rings : ℕ → Option Ring) (key : ℕ) (r : Ring)
    → IsTable m hp h rings
    → key < 2 ^ h.n
    → rings (hash_index h key) ≡ some r
    → length r.rest < fuel
    → r.node.key ≢ key
    → find_value key r.rest ≢ none
    → Deleted fuel m hp h rings key r
hotring_delete-behind fuel m hp h rings key r t narrow full enough ne there =
    let i = hash_index h key in
    let b : IsRing m h i r =
      rw full at (t.bucket i (index-lt_size h key t.narrow t.split t.sized narrow)) in
    elim (Option-cases (locate key (first r) r.rest)) [
      | inl e ↦ absurd (there (locate-none m.nodes h i key (first r) r.rest e))
      | inr (x, e) ↦
          removed fuel m hp h rings key t narrow r full b (ground arith) x.0 x.1 x.2 e enough
    ]
