-- ===== src/HotRing/Frame.antt =====
-- What a write outside a ring, or one that keeps its links, leaves of it.
use jeopardy.Prelude.{
  All, ℕ, ◌≡◌, ◌≢◌, refl, ◌∙◌, List, [], ◌∷◌, none, some, arith, inl, inr, Bool-cases, ◌==◌,
  get_elem?,
}
use jeopardy.Memory.{Ptr, Cells, read}
use jeopardy.HotRing.State.{Node, Hash, Mem}
use jeopardy.HotRing.Table.{hash_index, hash_tag}
use jeopardy.HotRing.Ring.{Item, tags, Seg, Outside, Apart, replace}
use jeopardy.HotRing.Valid.{Ring, first, items, Home, IsRing}

abbrev pub Reads : Cells Node → List Item → Type 0
Reads c xs = All (λ x. read c x.0 ≡ some x.1) xs

abbrev pub Same : Cells Node → Cells Node → List Item → Type 0
Same c d xs = All (λ x. read d x.0 ≡ read c x.0) xs

pub Seg-Reads : (c : Cells Node) (stop p : Ptr) (xs : List Item) → Seg c stop p xs → Reads c xs
Seg-Reads c stop p [] s = tt
Seg-Reads c stop p ((q, v) ∷ xs) s = (s.1, Seg-Reads c stop v.list.addr xs s.3)

pub Seg-Same :
    (c d : Cells Node) (stop p : Ptr) (xs : List Item)
    → Same c d xs
    → Seg c stop p xs
    → Seg d stop p xs
Seg-Same c d stop p [] e s = s
Seg-Same c d stop p ((q, v) ∷ xs) e s =
    (s.0, e.0 ∙ s.1, s.2, Seg-Same c d stop v.list.addr xs e.1 s.3)

-- Memories that agree but at `p` and `q`.
pub Same-Outside :
    (c d : Cells Node) (p q : Ptr) (xs : List Item)
    → ((a : Ptr) → a ≢ p → a ≢ q → read d a ≡ read c a)
    → Outside p xs
    → Outside q xs
    → Same c d xs
Same-Outside c d p q [] e op oq = tt
Same-Outside c d p q ((a, v) ∷ xs) e op oq = (e a op.0 oq.0, Same-Outside c d p q xs e op.1 oq.1)

pub Outside-none :
    (c : Cells Node) (p : Ptr) (xs : List Item) → read c p ≡ none → Reads c xs → Outside p xs
Outside-none c p [] e r = tt
Outside-none c p ((q, v) ∷ xs) e r = (λ same. cc (e, r.0, same), Outside-none c p xs e r.1)

-- A node of another bucket is at another address.
pub Outside-index :
    (c : Cells Node) (h : Hash) (j : ℕ) (p : Ptr) (u : Node) (xs : List Item)
    → read c p ≡ some u
    → hash_index h u.key ≢ j
    → Reads c xs
    → All (λ x. Home h j x.1) xs
    → Outside p xs
Outside-index c h j p u [] e ne r a = tt
Outside-index c h j p u ((q, v) ∷ xs) e ne r a =
    (λ same. ground (arith, ne), Outside-index c h j p u xs e ne r.1 a.1)

pub IsRing-Reads :
    (m : Mem) (h : Hash) (i : ℕ) (r : Ring) → IsRing m h i r → Reads m.nodes (items r)
IsRing-Reads m h i r b = (b.begins, Seg-Reads m.nodes (first r) r.node.list.addr r.rest b.seg)

-- A ring stands in every memory that agrees on its cells and its slot.
pub IsRing-frame :
    (m m' : Mem) (h : Hash) (slots : List Ptr) (i : ℕ) (r : Ring)
    → get_elem? slots i ≡ get_elem? h.slots i
    → read m'.heads r.ptr ≡ read m.heads r.ptr
    → Same m.nodes m'.nodes (items r)
    → IsRing m h i r
    → IsRing m' (record h { slots = slots }) i r
unfolding hash_index hash_tag
IsRing-frame m m' h slots i r at heads nodes b = record {
  slot = at ∙ b.slot;
  ptr_ne = b.ptr_ne;
  loaded = heads ∙ b.loaded;
  begins = nodes.0 ∙ b.begins;
  seg = Seg-Same m.nodes m'.nodes (first r) r.node.list.addr r.rest nodes.1 b.seg;
  apart = b.apart;
  addresses = b.addresses;
  homes = b.homes;
  order = b.order;
}

module _ (q : Ptr) (w : Node) where
  pub at-replace :
      (P : Ptr → Type 0) (xs : List Item) → All (λ x. P x.0) xs → All (λ x. P x.0) (replace q w xs)
  unfolding replace
  at-replace P [] o = tt
  at-replace P ((a, v) ∷ xs) o = (o.0, at-replace P xs o.1)

  pub Apart-replace : (xs : List Item) → Apart xs → Apart (replace q w xs)
  unfolding replace
  Apart-replace [] o = tt
  Apart-replace ((a, v) ∷ xs) o = (at-replace (λ b. b ≢ a) xs o.0, Apart-replace xs o.1)

  pub Home-replace :
      (h : Hash) (i : ℕ) (xs : List Item)
      → Home h i w
      → All (λ x. Home h i x.1) xs
      → All (λ x. Home h i x.1) (replace q w xs)
  unfolding replace
  Home-replace h i [] hw a = tt
  Home-replace h i ((p, v) ∷ xs) hw a = elim (Bool-cases (p == q)) [
    | inl e ↦ rw e (hw, Home-replace h i xs hw a.1)
    | inr e ↦ rw e (a.0, Home-replace h i xs hw a.1)
  ]

  pub tags-replace :
      (c : Cells Node) (v : Node) (xs : List Item)
      → read c q ≡ some v
      → w.tag ≡ v.tag
      → Reads c xs
      → tags (replace q w xs) ≡ tags xs
  unfolding replace
  tags-replace c v [] e t r = refl
  tags-replace c v ((p, u) ∷ xs) e t r = ground (arith, tags-replace c v xs e t r.1)
