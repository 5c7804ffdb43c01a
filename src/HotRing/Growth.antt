-- ===== src/HotRing/Growth.antt =====
-- The table after `hash_insert` into a bucket that has a ring: well formed, with one node more.
use jeopardy.Prelude.{
  All, ℕ, ◌^◌, ◌<◌, ◌≡◌, ◌≢◌, refl, sym, ◌∙◌, List, [], ◌∷◌, none, some, arith, inl, inr,
  Bool-cases, ◌+◌, ◌==◌, if◌then◌else◌,
}
use jeopardy.Memory.{Ptr, null, read}
use jeopardy.HotRing.State.{Node, Hash, Mem}
use jeopardy.HotRing.Table.{hash_index, hash_tag}
use jeopardy.HotRing.Create.{fits_between}
use jeopardy.HotRing.Order.{place-IsCyclic}
use jeopardy.HotRing.Ring.{Item, tags, Outside}
use jeopardy.HotRing.Place.{
  spot, spot-ne, spot-Reads, front, back, front-tag, tags-back, at-back, Apart-back, Home-front,
  Home-back, Seg-back, Linked,
}
use jeopardy.HotRing.Frame.{IsRing-Reads, IsRing-frame, Same-Outside, Outside-none, Outside-index}
use jeopardy.HotRing.Insert.{inserted, inserted-Linked}
use jeopardy.HotRing.Amounts.{occurrences}
use jeopardy.HotRing.Valid.{Ring, items, first, Home, IsAddress, IsRing, find_value}

-- The ring of a bucket with one node more.
abbrev pub placed : Ptr → ℕ → ℕ → Ptr → Ring → Ring
placed p t key value r = record r {
  node = front p t key value r.node r.rest;
  rest = back p t key value r.node r.rest;
}

module _ (p : Ptr) (t key : ℕ) (value : Ptr) where
  pub find-back_other :
      (k : ℕ) (q : Ptr) (u : Node) (xs : List Item)
      → key ≢ k
      → find_value k ((q, front p t key value u xs) ∷ back p t key value u xs)
        ≡ find_value k ((q, u) ∷ xs)
  unfolding front back
  find-back_other k q u [] ne = ground arith
  find-back_other k q u ((a, v) ∷ xs) ne = ground (arith, find-back_other k a v xs)

  pub occurrences-back :
      (k : ℕ) (q : Ptr) (u : Node) (xs : List Item)
      → occurrences k ((q, front p t key value u xs) ∷ back p t key value u xs)
        ≡ occurrences k ((q, u) ∷ xs) + (if key == k then 1 else 0)
  unfolding front back occurrences
  occurrences-back k q u [] = ground arith
  occurrences-back k q u ((a, v) ∷ xs) = ground (arith, occurrences-back k a v xs)

  pub find-back_self :
      (q : Ptr) (u : Node) (xs : List Item)
      → find_value key ((q, u) ∷ xs) ≡ none
      → find_value key ((q, front p t key value u xs) ∷ back p t key value u xs) ≡ some value
  unfolding front back
  find-back_self q u [] h = ground arith
  find-back_self q u ((a, v) ∷ xs) h = ground (arith, find-back_self a v xs)

spot-Home :
    (t : ℕ) (h : Hash) (i : ℕ) (q : Ptr) (u : Node) (xs : List Item)
    → Home h i u
    → All (λ x. Home h i x.1) xs
    → Home h i (spot t q u xs).1
unfolding spot
spot-Home t h i q u [] a as' = a
spot-Home t h i q u ((b, v) ∷ xs) a as' = elim (Bool-cases (fits_between t u.tag v.tag)) [
  | inl f ↦ rw f a
  | inr f ↦ rw f (spot-Home t h i b v xs as'.0 as'.1)
]

module _ (m : Mem) (h : Hash) (key : ℕ) (value p : Ptr) (r : Ring) where
  abbrev at : Item
  at = spot (hash_tag h key) (first r) r.node r.rest

  abbrev pub mem_after : Mem
  mem_after = record m { nodes = inserted m.nodes p (hash_tag h key) key value at }

  abbrev pub ring_after : Ring
  ring_after = placed p (hash_tag h key) key value r

  module _ (b : IsRing m h (hash_index h key) r) (ne : p ≢ null) (small : p < 2 ^ 48)
      (fresh : read m.nodes p ≡ none) (narrow : key < 2 ^ h.n) where
    out : Outside p (items r)
    out = Outside-none m.nodes p (items r) fresh (IsRing-Reads m h (hash_index h key) r b)

    link : Linked p (hash_tag h key) key value m.nodes mem_after.nodes at
    link =
        inserted-Linked m.nodes p (hash_tag h key) key value at
          (spot-ne (hash_tag h key) p (first r) r.node r.rest out.0 out.1)

    pub ring_after-IsRing : IsRing mem_after h (hash_index h key) ring_after
    ring_after-IsRing =
        let t = hash_tag h key in
        let i = hash_index h key in
        let seg =
          Seg-back p t key value m.nodes mem_after.nodes (first r) (first r) r.node r.rest b.begins
            b.seg out.1 out.0 (λ e. out.0 (sym e)) b.apart.0 b.apart.1 link in
        record {
          slot = b.slot;
          ptr_ne = b.ptr_ne;
          loaded = b.loaded;
          begins = seg.0;
          seg = seg.1;
          apart = (
            at-back p t key value (λ a. a ≢ first r) r.node r.rest (λ e. out.0 (sym e)) b.apart.0,
            Apart-back p t key value r.node r.rest out.1 b.apart.1,
          );
          addresses = (
            b.addresses.0,
            at-back p t key value IsAddress r.node r.rest (ne, small) b.addresses.1,
          );
          homes = (
            Home-front p t key value h i r.node r.rest b.homes.0,
            Home-back p t key value h i r.node r.rest (narrow, refl, refl) b.homes.1,
          );
          order =
              rw (front-tag p t key value r.node r.rest, tags-back p t key value r.node r.rest)
                (place-IsCyclic t r.node.tag (tags r.rest) b.order);
        }

    -- Every other bucket stands as it is.
    pub others : (j : ℕ) (s : Ring) → hash_index h key ≢ j → IsRing m h j s → IsRing mem_after h j s
    others j s away bj =
        let spot_home =
          spot-Home (hash_tag h key) h (hash_index h key) (first r) r.node r.rest b.homes.0
            b.homes.1 in
        let reads = IsRing-Reads m h j s bj in
        IsRing-frame m mem_after h h.slots j s refl refl
          (Same-Outside m.nodes mem_after.nodes p at.0 (items s) link.rest
            (Outside-none m.nodes p (items s) fresh reads)
            (Outside-index m.nodes h j at.0 at.1 (items s)
              (spot-Reads (hash_tag h key) m.nodes (first r) r.node r.rest b.begins
                (IsRing-Reads m h _ r b).1)
              (λ e. away (sym spot_home.1 ∙ e)) reads bj.homes))
          bj
