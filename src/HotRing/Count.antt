-- ===== src/HotRing/Count.antt =====
-- What counting an access does to a ring: nothing but the counters change.
use jeopardy.Prelude.{
  ℕ, ◌≡◌, ◌≢◌, refl, List, [], ◌∷◌, some, arith, true, inl, inr, Bool-cases, ◌==◌, if◌then◌else◌,
}
use jeopardy.Memory.{Ptr, Cells, read, write, read-write_self}
use jeopardy.HotRing.State.{Node, Hash, Mem}
use jeopardy.HotRing.Get.{counted, head_counted}
use jeopardy.HotRing.Ring.{Item, replace, Seg-replace}
use jeopardy.HotRing.Frame.{
  Reads, IsRing-Reads, at-replace, Apart-replace, Home-replace, tags-replace,
}
use jeopardy.HotRing.Lookup.{head_touched}
use jeopardy.HotRing.Amounts.{occurrences}
use jeopardy.HotRing.Valid.{Ring, items, first, Home, IsAddress, IsRing, find_value}

-- The ring with `w` as the node at `q`.
abbrev pub replaced : Ptr → Node → Ring → Ring
replaced q w r = record r { node = if first r == q then w else r.node; rest = replace q w r.rest }

abbrev pub head_replaced : Ring → Ring
head_replaced r = record r { head = head_counted r.head }

pub head_replaced-IsRing :
    (m : Mem) (h : Hash) (i : ℕ) (r : Ring)
    → IsRing m h i r
    → IsRing (head_touched m r) h i (head_replaced r)
head_replaced-IsRing m h i r b = record {
  slot = b.slot;
  ptr_ne = b.ptr_ne;
  loaded = read-write_self m.heads r.ptr (head_counted r.head);
  begins = b.begins;
  seg = b.seg;
  apart = b.apart;
  addresses = b.addresses;
  homes = b.homes;
  order = b.order;
}

find-replace :
    (c : Cells Node) (q : Ptr) (v w : Node) (k : ℕ) (xs : List Item)
    → read c q ≡ some v
    → w.key ≡ v.key
    → w.value ≡ v.value
    → Reads c xs
    → find_value k (replace q w xs) ≡ find_value k xs
unfolding replace
find-replace c q v w k [] e ek ev r = refl
find-replace c q v w k ((a, u) ∷ xs) e ek ev r =
    ground (arith, find-replace c q v w k xs e ek ev r.1)

-- Another node at `q`, of the same key.
module _ (c : Cells Node) (q : Ptr) (v w : Node) (e : read c q ≡ some v) (ek : w.key ≡ v.key) where
  occurrences-replace :
      (k : ℕ) (xs : List Item) → Reads c xs → occurrences k (replace q w xs) ≡ occurrences k xs
  unfolding replace occurrences
  occurrences-replace k [] r = refl
  occurrences-replace k ((a, u) ∷ xs) r = ground (arith, occurrences-replace k xs r.1)

  pub occurrences-replaced :
      (k : ℕ) (r : Ring)
      → Reads c (items r)
      → occurrences k (items (replaced q w r)) ≡ occurrences k (items r)
  unfolding replace
  occurrences-replaced k r reads = occurrences-replace k (items r) reads

module _ (m : Mem) (h : Hash) (i : ℕ) (r : Ring) (b : IsRing m h i r) (q : Ptr) (v : Node)
    (e : read m.nodes q ≡ some v) where
  same_node : (first r == q) ≡ true → r.node ≡ v
  same_node s = ground arith

  node-Home : Home h i v → Home h i (if first r == q then counted v else r.node)
  node-Home home = elim (Bool-cases (first r == q)) [
    | inl e' ↦ rw e' home
    | inr e' ↦ rw e' b.homes.0
  ]

  begins_after :
      read (write m.nodes q (counted v)) (first r)
      ≡ some (if first r == q then counted v else r.node)
  unfolding read
  begins_after = ground arith

  pub counted-IsRing :
      Home h i v
      → IsRing (record m { nodes = write m.nodes q (counted v) }) h i (replaced q (counted v) r)
  counted-IsRing home =
      let w = counted v in
      let tag : (replaced q w r).node.tag ≡ r.node.tag = ground (arith, same_node) in
      let addr : (replaced q w r).node.list.addr ≡ r.node.list.addr = ground (arith, same_node) in
      record {
        slot = b.slot;
        ptr_ne = b.ptr_ne;
        loaded = b.loaded;
        begins = begins_after;
        seg = rw addr (Seg-replace m.nodes (first r) q v w r.node.list.addr r.rest e refl b.seg);
        apart = (
          at-replace q w (λ a. a ≢ first r) r.rest b.apart.0,
          Apart-replace q w r.rest b.apart.1,
        );
        addresses = (b.addresses.0, at-replace q w IsAddress r.rest b.addresses.1);
        homes = (node-Home home, Home-replace q w h i r.rest home b.homes.1);
        order =
            rw (tag, tags-replace q w m.nodes v r.rest e refl (IsRing-Reads m h i r b).1) b.order;
      }

  pub find-replaced :
      (k : ℕ) → find_value k (items (replaced q (counted v) r)) ≡ find_value k (items r)
  find-replaced k = ground (
    arith,
    same_node,
    find-replace m.nodes q v (counted v) k r.rest e refl refl (IsRing-Reads m h i r b).1,
  )
