-- ===== src/HotRing/Shifted.antt =====
-- hotring.c: what `do_hotspot_shift` leaves of a well-formed table.
use jeopardy.Prelude.{
  append-nil, All, ℕ, zero, suc, ◌%◌, ◌/◌, ◌^◌, ◌<◌, ◌≡◌, ◌≢◌, refl, sym, ◌∙◌, ap, List, [], ◌∷◌,
  ◌++◌, Option, some, arith, length, true, false, inl, inr, Bool-cases,
}
use mathlib.Core.Path.{subst}
use jeopardy.Memory.{Ptr, Cells, read, write, read-write_self, read-write_ne, ok}
use jeopardy.HotRing.State.{Node, Head, Hash, Mem, head_of_pointer}
use jeopardy.HotRing.Hotspot.{
  Doubles, HotspotShift, shift_rehash, shift_success, reset, counters_loop, hottest_loop,
  coldest_from, stay_hot, do_hotspot_shift,
}
use jeopardy.HotRing.Ring.{Item, Seg-write}
use jeopardy.HotRing.Rotate.{Seg-Course, rotate-All}
use jeopardy.HotRing.Resets.{
  reset_all, counts, counters_loop_resets, reset_all-ReadsReset, ReadsReset, reset-Course, Numbered,
  hottest_loop_finds,
}
use jeopardy.HotRing.Coldest.{IsDoubles, income, coldest}
use jeopardy.HotRing.Turned.{
  IsRound, ring-IsRound, rotate-IsRound, cold_head, turned, turned-IsTable,
}
use jeopardy.HotRing.Valid.{Ring, items, first, IsRing, IsTable, put_ring}

-- What a shift at the ring `r` leaves: the ring is cut in two, `front` and `back`, and begins with `back`.
pub record Shifted (d : Doubles) (fuel : ℕ) (m : Mem) (hp : Ptr) (h : Hash)
    (rings : ℕ → Option Ring) (i : ℕ) (r : Ring) : Type 0 where
  pub ret : HotspotShift
  pub after : Mem
  pub at : Ptr
  pub node : Node
  pub rest : List Item
  pub front : List Item
  pub back : List Item
  pub returns : do_hotspot_shift d fuel r.ptr (first r) m ≡ ok ret after
  pub before : items r ≡ front ++ back
  pub turns : (at, node) ∷ rest ≡ back ++ front
  pub nodes : after.nodes ≡ reset_all m.nodes (items r)
  pub table : IsTable after hp h (put_ring rings i (some (turned r at node rest)))

length-counts : (xs : List Item) → length (counts xs) ≡ length xs
length-counts [] = refl
length-counts ((q, v) ∷ xs) = ap (λ l. suc l) (length-counts xs)

-- The sixteen high bits of a node's address are clear.
head_of_address : (q : Ptr) → q < 2 ^ 48 → head_of_pointer q ≡ cold_head q
unfolding head_of_pointer
head_of_address q small =
    let a : q % 2 ^ 48 ≡ q = omega arith in
    let c : q / 2 ^ 48 % 2 ^ 15 ≡ 0 = omega arith in
    let f : q / 2 ^ 63 % 2 ≡ 0 = omega arith in rw (a, c, f) refl

module _ (d : Doubles) (n : IsDoubles d) (fuel : ℕ) (m : Mem) (hp : Ptr) (h : Hash)
    (rings : ℕ → Option Ring) (i : ℕ) (r : Ring) (t : IsTable m hp h rings) (inside : i < h.size)
    (full : rings i ≡ some r) (b : IsRing m h i r) where
  abbrev total : d.Double
  total = d.of_nat r.head.counter

  abbrev counters : List ℕ
  counters = r.node.list.counter ∷ counts r.rest

  abbrev marked : Mem
  marked = record m {
    nodes = write m.nodes (first r) (reset r.node);
    heads = write m.heads r.ptr (record r.head { active = 1 });
  }

  abbrev cleared : Mem
  cleared = record marked { nodes = reset_all m.nodes (items r) }

  abbrev settled : Mem → Ptr → Mem
  settled m' q = record m' { heads = write m'.heads r.ptr (cold_head q) }

  counted :
      length r.rest < fuel
      → length r.rest < 100000
      → counters_loop fuel (first r) 1 r.node.list.addr marked ≡ ok (counts r.rest) cleared
  counted enough few =
      counters_loop_resets fuel (first r) 1 r.node.list.addr marked r.rest
        (Seg-write m.nodes (first r) (first r) (reset r.node) r.node.list.addr r.rest b.apart.0
          b.seg)
        b.apart.1 enough (omega arith)

  resets : ReadsReset cleared.nodes (items r)
  resets = reset_all-ReadsReset m.nodes (items r) b.apart

  abbrev Found : ℕ → Type 0
  Found w =
      (f : Numbered r.rest w 1) × (hottest_loop fuel (first r) w 1 r.node.list.addr cleared
        ≡ ok f.at cleared)

  found : (w : ℕ) → length r.rest < fuel → 0 < w → w < suc (length (counts r.rest)) → Found w
  found w enough pos lt =
      let path = (Seg-Course m.nodes (first r) r.node.list.addr r.rest b.seg).0 in
      let same = length-counts r.rest in
      hottest_loop_finds fuel (first r) w 1 r.node.list.addr cleared r.rest
        (reset-Course m.nodes cleared.nodes r.node.list.addr r.rest (first r) resets.1 path)
        b.apart.0 pos (omega arith) enough

  -- The table around a memory whose head begins at a node of the ring.
  around :
      (heads : Cells Head) (q : Ptr) (v : Node) (zs : List Item)
      → IsRound m.nodes h i q v zs
      → ReadsReset cleared.nodes ((q, v) ∷ zs)
      → ((a : Ptr) → a ≢ r.ptr → read heads a ≡ read m.heads a)
      → IsTable
          (record cleared { heads = write heads r.ptr (cold_head q) })
          hp
          h
          (put_ring rings i (some (turned r q v zs)))
  around heads q v zs round rs same =
      turned-IsTable m (record cleared { heads = write heads r.ptr (cold_head q) }) hp h rings i r t
        inside full b q v zs round rs refl (read-write_self heads r.ptr (cold_head q))
        (λ a ne. read-write_ne heads r.ptr a (cold_head q) ne ∙ same a ne) refl

  only_here :
      (u v : Head) (a : Ptr)
      → a ≢ r.ptr
      → read (write (write m.heads r.ptr u) r.ptr v) a ≡ read m.heads a
  only_here u v a ne =
      read-write_ne (write m.heads r.ptr u) r.ptr a v ne ∙ read-write_ne m.heads r.ptr a u ne

  abbrev choice : d.Double × ℕ × d.Double
  choice = coldest_from d total counters (length counters) 0 (d.of_nat 1000000000) 0 (d.of_nat 0)

  -- Where the head is as cold as the coldest node, it stays.
  stays :
      (s : d.Double) (w : ℕ) (c : d.Double)
      → length r.rest < fuel
      → length r.rest < 100000
      → choice ≡ (s, w, c)
      → d.equal s c ≡ true
      → Shifted d fuel m hp h rings i r
  unfolding do_hotspot_shift stay_hot
  stays s w c enough few chosen hot = record {
    ret = shift_success;
    after = settled cleared (first r);
    at = first r;
    node = r.node;
    rest = r.rest;
    front = [];
    back = items r;
    returns = rw (b.loaded, b.begins, counted enough few, chosen, hot, read-write_self) refl;
    before = refl;
    turns = sym (append-nil (items r));
    nodes = refl;
    table =
        around (write m.heads r.ptr (record r.head { active = 1 })) (first r) r.node r.rest
          (ring-IsRound m h i r b) resets (λ a ne. read-write_ne m.heads r.ptr a _ ne);
  }

  module _ (s : d.Double) (w : ℕ) (c : d.Double) (enough : length r.rest < fuel)
      (few : length r.rest < 100000) (chosen : choice ≡ (s, w, c)) (cold : d.equal s c ≡ false)
      (f : Numbered r.rest w 1)
      (finds : hottest_loop fuel (first r) w 1 r.node.list.addr cleared ≡ ok f.at cleared) where
    abbrev turn : List Item
    turn = f.behind ++ (first r, r.node) ∷ f.before

    turn-IsRound : IsRound m.nodes h i f.at f.node turn
    turn-IsRound =
        rotate-IsRound m.nodes h i (first r) r.node f.before f.at f.node f.behind b.begins
          (rw f.split at (ring-IsRound m h i r b))

    turn-resets : ReadsReset cleared.nodes ((f.at, f.node) ∷ turn)
    turn-resets =
        rotate-All (λ x. read cleared.nodes x.0 ≡ some (reset x.1)) ((first r, r.node) ∷ f.before)
          ((f.at, f.node) ∷ f.behind)
          (resets.0, subst (All λ x. read cleared.nodes x.0 ≡ some (reset x.1)) f.split resets.1)

    pointed : head_of_pointer f.at ≡ cold_head f.at
    pointed = head_of_address f.at turn-IsRound.addresses.0.1

    begun :
        (ret : HotspotShift) (heads : Cells Head)
        → do_hotspot_shift d fuel r.ptr (first r) m
          ≡ ok ret (record cleared { heads = write heads r.ptr (cold_head f.at) })
        → ((a : Ptr) → a ≢ r.ptr → read heads a ≡ read m.heads a)
        → Shifted d fuel m hp h rings i r
    begun ret heads run same = record {
      ret = ret;
      after = record cleared { heads = write heads r.ptr (cold_head f.at) };
      at = f.at;
      node = f.node;
      rest = turn;
      front = (first r, r.node) ∷ f.before;
      back = (f.at, f.node) ∷ f.behind;
      returns = run;
      before = ap (λ xs. (first r, r.node) ∷ xs) f.split;
      turns = refl;
      nodes = refl;
      table = around heads f.at f.node turn turn-IsRound turn-resets same;
    }

    moves : Shifted d fuel m hp h rings i r
    unfolding do_hotspot_shift stay_hot
    moves = elim (Bool-cases (d.less (d.of_nat 5) s)) [
      | inl often ↦
          begun shift_rehash (write m.heads r.ptr (record r.head { active = 1 }))
            (rw
              (
                b.loaded,
                b.begins,
                counted enough few,
                chosen,
                cold,
                resets.0,
                finds,
                read-write_self,
                often,
                pointed,
              )
              refl)
            (λ a ne. read-write_ne m.heads r.ptr a _ ne)
      | inr seldom ↦
          begun shift_success
            (write (write m.heads r.ptr (record r.head { active = 1 })) r.ptr (cold_head f.at))
            (rw
              (
                b.loaded,
                b.begins,
                counted enough few,
                chosen,
                cold,
                resets.0,
                finds,
                read-write_self,
                seldom,
                pointed,
                read-write_self,
              )
              refl)
            (only_here _ _)
    ]

-- A node colder than the head is not the head.
later :
    (d : Doubles) (s c : d.Double) (w : ℕ)
    → d.equal c c ≡ true
    → (w ≡ 0 → s ≡ c)
    → d.equal s c ≡ false
    → 0 < w
later d s c zero self is apart = let e = is refl in absurd (cc)
later d s c (suc w) self is apart = omega arith

-- On a well-formed table, for the ring of a bucket, with fuel for the ring, fewer than 100000 nodes behind
-- its head and an income at the head below the bound 1000000000 that the search starts from,
-- `do_hotspot_shift` returns. The table stays well formed: the bucket's ring has the same nodes in the same
-- order round the ring, with their counters at 0, begins at one of them, and its head is not active.
pub do_hotspot_shift-turns :
    (d : Doubles) (n : IsDoubles d) (fuel : ℕ) (m : Mem) (hp : Ptr) (h : Hash)
    (rings : ℕ → Option Ring) (i : ℕ) (r : Ring)
    → IsTable m hp h rings
    → i < h.size
    → rings i ≡ some r
    → length r.rest < fuel
    → length r.rest < 100000
    → d.less
        (income d n (d.of_nat r.head.counter) (r.node.list.counter ∷ counts r.rest) 0)
        (d.of_nat 1000000000)
      ≡ true
    → Shifted d fuel m hp h rings i r
do_hotspot_shift-turns d n fuel m hp h rings i r t inside full enough few cool =
    let b : IsRing m h i r = rw full at (t.bucket i inside) in
    let total = d.of_nat r.head.counter in
    let numbers = r.node.list.counter ∷ counts r.rest in
    let bound = d.of_nat 1000000000 in
    let k = coldest d n total numbers (length (counts r.rest)) bound cool in
    let c = income d n total numbers 0 in
    elim (Bool-cases (d.equal k.0 c)) [
      | inl same ↦ stays d n fuel m hp h rings i r t inside full b k.0 k.1 c enough few k.2 same
      | inr apart ↦
          let pos = later d k.0 c k.1 (n.equal_self c bound cool) k.3 apart in
          let f = found d n fuel m hp h rings i r t inside full b k.1 enough pos k.4 in
          moves d n fuel m hp h rings i r t inside full b k.0 k.1 c enough few k.2 apart f.0 f.1
    ]
