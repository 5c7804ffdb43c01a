-- ===== src/HotRing/Turned.antt =====
-- A ring whose counters are reset and which may begin at another node, in its table.
use jeopardy.Prelude.{
  All, ℕ, ◌<◌, ◌≡◌, ◌≢◌, refl, sym, ◌∙◌, ap, List, [], ◌∷◌, ◌++◌, Option, none, some, arith, inl,
  inr, Bool-cases, ◌==◌, ==_iff,
}
use jeopardy.Memory.{Ptr, Cells, read}
use jeopardy.HotRing.State.{Node, Head, Hash, Mem}
use jeopardy.HotRing.Hotspot.{reset}
use jeopardy.HotRing.Order.{IsCyclic}
use jeopardy.HotRing.Ring.{Item, tags, Apart}
use jeopardy.HotRing.Frame.{Reads, Same, IsRing-Reads, IsRing-frame, Outside-index}
use jeopardy.HotRing.Rotate.{
  Course, Seg-Course, Course-Seg, append-Course, Course-append, rotate-IsCyclic, rotate-Apart,
  rotate-All,
}
use jeopardy.HotRing.Resets.{
  reset_items, reset_all, ReadsReset, reset_all-Outside, reset-Course, reset-All, reset-Apart,
  tags-reset_items,
}
use jeopardy.HotRing.Valid.{
  Ring, items, first, Home, IsAddress, IsRing, IsBucket, IsTable, ptr_of, put_ring,
}

-- A list of nodes that leads round in the memory `c`, in order.
pub record IsRound (c : Cells Node) (h : Hash) (i : ℕ) (q : Ptr) (v : Node) (zs : List Item)
    : Type 0 where
  pub path : Course c v.list.addr zs q
  pub apart : Apart ((q, v) ∷ zs)
  pub addresses : All (λ x. IsAddress x.0) ((q, v) ∷ zs)
  pub homes : All (λ x. Home h i x.1) ((q, v) ∷ zs)
  pub order : IsCyclic v.tag (tags zs)

pub ring-IsRound :
    (m : Mem) (h : Hash) (i : ℕ) (r : Ring)
    → IsRing m h i r
    → IsRound m.nodes h i (first r) r.node r.rest
ring-IsRound m h i r b = record {
  path = (Seg-Course m.nodes (first r) r.node.list.addr r.rest b.seg).0;
  apart = b.apart;
  addresses = b.addresses;
  homes = b.homes;
  order = b.order;
}

-- The same nodes from another of them on.
pub rotate-IsRound :
    (c : Cells Node) (h : Hash) (i : ℕ) (p : Ptr) (u : Node) (xs : List Item) (q : Ptr) (v : Node)
    (ys : List Item)
    → read c p ≡ some u
    → IsRound c h i p u (xs ++ (q, v) ∷ ys)
    → IsRound c h i q v (ys ++ (p, u) ∷ xs)
rotate-IsRound c h i p u xs q v ys e r =
    let s = Course-append c u.list.addr xs q v ys p r.path in
    record {
      path = append-Course c v.list.addr ys p u xs q s.2 e s.0;
      apart = rotate-Apart ((p, u) ∷ xs) ((q, v) ∷ ys) r.apart;
      addresses = rotate-All (λ x. IsAddress x.0) ((p, u) ∷ xs) ((q, v) ∷ ys) r.addresses;
      homes = rotate-All (λ x. Home h i x.1) ((p, u) ∷ xs) ((q, v) ∷ ys) r.homes;
      order = rotate-IsCyclic u p q v xs ys r.order;
    }

abbrev pub cold_head : Ptr → Head
cold_head q = record { addr = q; counter = 0; active = 0 }

abbrev pub turned : Ring → Ptr → Node → List Item → Ring
turned r q v zs = record { ptr = r.ptr; head = cold_head q; node = reset v; rest = reset_items zs }

module _ (m m' : Mem) (hp : Ptr) (h : Hash) (rings : ℕ → Option Ring) (i : ℕ) (r : Ring)
    (t : IsTable m hp h rings) (inside : i < h.size) (full : rings i ≡ some r) (b : IsRing m h i r)
    (q : Ptr) (v : Node) (zs : List Item) (round : IsRound m.nodes h i q v zs)
    (resets : ReadsReset m'.nodes ((q, v) ∷ zs)) (nodes : m'.nodes ≡ reset_all m.nodes (items r))
    (head : read m'.heads r.ptr ≡ some (cold_head q))
    (heads : (a : Ptr) → a ≢ r.ptr → read m'.heads a ≡ read m.heads a)
    (hashes : m'.hashes ≡ m.hashes) where
  turned-IsRing : IsRing m' h i (turned r q v zs)
  turned-IsRing = record {
    slot = b.slot;
    ptr_ne = b.ptr_ne;
    loaded = head;
    begins = resets.0;
    seg =
        Course-Seg m'.nodes q v.list.addr (reset_items zs)
          (reset-Course m.nodes m'.nodes v.list.addr zs q resets.1 round.path)
          (reset-All (λ x. x.0 ≢ q) zs (λ p u ne. ne) round.apart.0);
    apart =
        (reset-All (λ x. x.0 ≢ q) zs (λ p u ne. ne) round.apart.0, reset-Apart zs round.apart.1);
    addresses =
        (round.addresses.0, reset-All (λ x. IsAddress x.0) zs (λ p u a. a) round.addresses.1);
    homes = (round.homes.0, reset-All (λ x. Home h i x.1) zs (λ p u a. a) round.homes.1);
    order = rw (tags-reset_items zs) round.order;
  }

  Same-nodes :
      (j : ℕ) (xs : List Item)
      → i ≢ j
      → Reads m.nodes xs
      → All (λ x. Home h j x.1) xs
      → Same m.nodes m'.nodes xs
  Same-nodes j [] ne e a = tt
  Same-nodes j ((p, u) ∷ xs) ne e a =
      let out =
        Outside-index m.nodes h i p u (items r) e.0 (λ z. ne (sym z ∙ a.0.1))
          (IsRing-Reads m h i r b) b.homes in
      (rw nodes (reset_all-Outside m.nodes p (items r) out), Same-nodes j xs ne e.1 a.1)

  others :
      (j : ℕ) (o : Option Ring)
      → j < h.size
      → rings j ≡ o
      → i ≢ j
      → IsBucket m h j o
      → IsBucket m' h j o
  others j none lj e away bj = bj
  others j (some s) lj e away bj =
      let mine : ptr_of (rings i) ≡ some r.ptr = rw full in
      let theirs : ptr_of (rings j) ≡ some s.ptr = rw e in
      IsRing-frame m m' h h.slots j s refl
        (heads s.ptr λ same. away (t.heads_apart i j s.ptr inside lj (rw same mine) theirs))
        (Same-nodes j (items s) away (IsRing-Reads m h j s bj) bj.homes) bj

  same_ptr : (j : ℕ) → ptr_of (put_ring rings i (some (turned r q v zs)) j) ≡ ptr_of (rings j)
  same_ptr j = elim (Bool-cases (j == i)) [
    | inl same ↦ rw same (rw ((==_iff j i).0 same, full) refl)
    | inr away ↦ rw away refl
  ]

  IsBucket-after :
      (j : ℕ) → j < h.size → IsBucket m' h j (put_ring rings i (some (turned r q v zs)) j)
  IsBucket-after j lj = elim (Bool-cases (j == i)) [
    | inl same ↦ rw same (rw ((==_iff j i).0 same) turned-IsRing)
    | inr away ↦ rw away (others j (rings j) lj refl (λ e. ground arith) (t.bucket j lj))
  ]

  -- The table stays well formed.
  pub turned-IsTable : IsTable m' hp h (put_ring rings i (some (turned r q v zs)))
  turned-IsTable = record {
    loaded = ap (λ c. read c hp) hashes ∙ t.loaded;
    narrow = t.narrow;
    split = t.split;
    int_shift = t.int_shift;
    sized = t.sized;
    spans = t.spans;
    bucket = IsBucket-after;
    heads_apart = λ i' j o li lj ei ej.
        t.heads_apart i' j o li lj (sym (same_ptr i') ∙ ei) (sym (same_ptr j) ∙ ej);
  }
