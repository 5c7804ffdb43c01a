-- ===== src/HotRing/Settled.antt =====
-- `hash_get` when a hotspot shift is due: a node behind a head was found, and four requests were counted.
use jeopardy.Prelude.{
  ℕ, ◌+◌, ◌^◌, ◌≤◌, ◌<◌, ◌≡◌, refl, sym, ◌∙◌, ap, ◌∷◌, Bool, true, false, Option, some, arith, ◌==◌,
  leb, length, inr,
}
use jeopardy.Memory.{pure, null, read, Ptr, M, Run, run_next, ok}
use jeopardy.HotRing.State.{Node, Mem, Hash, Calloc}
use jeopardy.HotRing.Table.{hash_index, get_head_node}
use jeopardy.HotRing.Get.{Got, cold, counted}
use jeopardy.HotRing.Rehash.{hotring_rehash}
use jeopardy.HotRing.Hotspot.{
  Doubles, HotspotShift, shift_rehash, shift_success, hotspot_shift, hash_get,
}
use jeopardy.HotRing.Ring.{locate, length-replace}
use jeopardy.HotRing.Lookup.{search_ring, search_bucket}
use jeopardy.HotRing.Count.{replaced, head_replaced, occurrences-replaced}
use jeopardy.HotRing.Frame.{IsRing-Reads}
use jeopardy.HotRing.Amounts.{occurrences}
use jeopardy.HotRing.Access.{found, locate-some, Accessed, value_of, value_at, inside, same_view}
use jeopardy.HotRing.Request.{with_requests, with_requests-IsTable, requested}
use jeopardy.HotRing.Resets.{counts, find-reset_items}
use jeopardy.HotRing.Coldest.{IsDoubles, income}
use jeopardy.HotRing.Turned.{turned}
use jeopardy.HotRing.Shifted.{Shifted, do_hotspot_shift-turns}
use jeopardy.HotRing.Once.{find-rotate, value-reset_all}
use jeopardy.HotRing.Valid.{
  index-lt_size, Ring, items, first, IsRing, IsTable, find_value, view, put_ring,
}

-- The income at the head is below the bound that the search for a node starts from.
abbrev pub IsCool : (d : Doubles) → IsDoubles d → Ring → Type 0
IsCool d n r =
    d.less (income d n (d.of_nat r.head.counter) (r.node.list.counter ∷ counts r.rest) 0)
      (d.of_nat 1000000000)
    ≡ true

module _ (d : Doubles) (calloc : Calloc) (fuel : ℕ) where
  -- What `hash_get` does after the shift: it rehashes if it must, and counts anew.
  abbrev pub afterwards : Ptr → Got → HotspotShift → Mem → Run Mem (Bool × Got × Ptr)
  afterwards hp got shift_success m = ok (true, got, hp) (with_requests 0 m)
  afterwards hp got shift_rehash m =
      run_next (hotring_rehash calloc fuel hp m) λ new m'. ok (true, got, new) (with_requests 0 m')

  abbrev after_shift : Ptr → HotspotShift → M Mem Ptr
  after_shift hp ret = elim ret [
    | shift_success ↦ pure hp
    | shift_rehash ↦ hotring_rehash calloc fuel hp
  ]

  counts_anew :
      (hp : Ptr) (got : Got) (ret : HotspotShift) (m : Mem)
      → run_next (after_shift hp ret m) (λ new m'. ok (true, got, new) (with_requests 0 m'))
        ≡ afterwards hp got ret m
  counts_anew hp got shift_success m = refl
  counts_anew hp got shift_rehash m = refl

  -- `hash_get` found the key, shifted the ring `r` that the search left in `rings_found`, and kept what
  -- the table stands for.
  pub record Settled (m : Mem) (hp : Ptr) (h : Hash) (rings : ℕ → Option Ring) (key : ℕ) (got : Got)
      (r : Ring) (rings_found : ℕ → Option Ring) : Type 0 where
    pub found_in : Mem
    pub finds : search_bucket (requested m) key (rings (hash_index h key)) ≡ ok got found_in
    pub was : IsTable found_in hp h rings_found
    pub shift : Shifted d fuel found_in hp h rings_found (hash_index h key) r
    pub rings_after : ℕ → Option Ring
    pub ring_is : rings_after (hash_index h key) ≡ some (turned r shift.at shift.node shift.rest)
    pub returns : hash_get d calloc fuel hp key m ≡ afterwards hp got shift.ret shift.after
    pub table : IsTable shift.after hp h rings_after
    pub anew : IsTable (with_requests 0 shift.after) hp h rings_after
    pub same : (k : ℕ) → view h rings_after k ≡ view h rings k
    pub answers : value_at shift.after got.node ≡ view h rings key

  module _ (m : Mem) (hp : Ptr) (h : Hash) (rings : ℕ → Option Ring) (key : ℕ)
      (a : Accessed fuel (requested m) hp h rings key) (q p : Ptr) (g : a.got ≡ cold q p) (r : Ring)
      (b : IsRing a.after h (hash_index h key) r)
      (s : Shifted d fuel a.after hp h a.rings_after (hash_index h key) r) where
    shifts :
        hotspot_shift d calloc fuel hp (hash_index h key) a.after ≡ after_shift hp s.ret s.after
    unfolding hotspot_shift get_head_node
    shifts =
        let nonnull : (r.ptr == null) ≡ false = let e = b.ptr_ne in ground arith in
        rw (a.table.loaded, b.slot, nonnull, b.loaded, s.returns) refl

    runs :
        4 ≤ m.nr_request
        → m.nr_request < 2147483647
        → hash_get d calloc fuel hp key m ≡ afterwards hp a.got s.ret s.after
    unfolding hash_get
    runs due fits =
        let small : leb 2147483647 m.nr_request ≡ false = ground arith in
        let late : leb 5 (m.nr_request + 1) ≡ true = ground arith in
        rw (small, rw g at a.returns, a.table.loaded, late, shifts, g)
          (counts_anew hp (cold q p) s.ret s.after)

    same :
        ((k : ℕ) → occurrences k (items r) ≤ 1)
        → (k : ℕ) → find_value k (items (turned r s.at s.node s.rest)) ≡ find_value k (items r)
    same once k =
        find-reset_items k ((s.at, s.node) ∷ s.rest)
        ∙ ap (find_value k) s.turns
        ∙ find-rotate k s.front s.back (rw s.before at (once k))
        ∙ sym (ap (find_value k) s.before)

    answers : value_at s.after a.got.node ≡ view h rings key
    answers = rw g (
        ap (λ c. value_of (read c q)) s.nodes
        ∙ value-reset_all a.after.nodes (items r) q (IsRing-Reads a.after h (hash_index h key) r b)
            b.apart
        ∙ rw g at a.answers)

  -- The request that made the access `a`.
  settled :
      (n : IsDoubles d) (m : Mem) (hp : Ptr) (h : Hash) (rings : ℕ → Option Ring) (key : ℕ)
      (t : IsTable (requested m) hp h rings) (narrow : key < 2 ^ h.n)
      (a : Accessed fuel (requested m) hp h rings key) (q p : Ptr) (r : Ring)
      → a.got ≡ cold q p
      → a.rings_after (hash_index h key) ≡ some r
      → ((k : ℕ) → occurrences k (items r) ≤ 1)
      → length r.rest < fuel
      → length r.rest < 100000
      → IsCool d n r
      → 4 ≤ m.nr_request
      → m.nr_request < 2147483647
      → search_bucket (requested m) key (rings (hash_index h key)) ≡ ok a.got a.after
      → Settled m hp h rings key a.got r a.rings_after
  settled n m hp h rings key t narrow a q p r g full once enough few cool due fits search =
      let i = hash_index h key in
      let lt = inside fuel a.after hp h a.rings_after key a.table narrow in
      let b : IsRing a.after h i r = rw full at (a.table.bucket i lt) in
      let s =
        do_hotspot_shift-turns d n fuel a.after hp h a.rings_after i r a.table lt full enough few
          cool in
      record {
        found_in = a.after;
        finds = search;
        was = a.table;
        shift = s;
        ring_is = (let self : (i == i) ≡ true = ground arith in rw self refl);
        rings_after = put_ring a.rings_after i (some (turned r s.at s.node s.rest));
        returns = runs m hp h rings key a q p g r b s due fits;
        table = s.table;
        anew = with_requests-IsTable 0 s.after h hp _ s.table;
        same = λ k.
            same_view fuel a.after hp h a.rings_after key a.table narrow r
              (turned r s.at s.node s.rest) full (same m hp h rings key a q p g r b s once) k
            ∙ a.same k;
        answers = answers m hp h rings key a q p g r b s;
      }

  -- On a well-formed table, for a key of `n` bits at a node `q` behind the head of its bucket's ring `r`, in
  -- which keys occur once, with fuel for the ring, fewer than 100000 nodes behind its head, an income at the
  -- head, once the access is counted, below the search's bound, and at least four requests counted:
  -- `hash_get` leaves what a search of the bucket leaves that finds `q`, and then `do_hotspot_shift` on the
  -- ring: it begins at some node of the ring and goes on in the same order, with all counters at 0. If the
  -- shift asks for it, `hash_get` goes on to `hotring_rehash`; the request counter is 0 at the end. Where
  -- the rehash begins or the call ends, the table is well formed and stands for the same, and the node
  -- returned holds the key's value.
  pub hash_get-shifts :
      (n : IsDoubles d) (m : Mem) (hp : Ptr) (h : Hash) (rings : ℕ → Option Ring) (key : ℕ)
      (r : Ring) (q : Ptr) (v : Node) (p : Ptr)
      → IsTable m hp h rings
      → key < 2 ^ h.n
      → rings (hash_index h key) ≡ some r
      → (r.node.key == key) ≡ false
      → locate key (first r) r.rest ≡ some (q, v, p)
      → ((k : ℕ) → occurrences k (items r) ≤ 1)
      → length r.rest < fuel
      → length r.rest < 100000
      → IsCool d n (replaced q (counted v) (head_replaced r))
      → 4 ≤ m.nr_request
      → m.nr_request < 2147483647
      → (let r' = replaced q (counted v) (head_replaced r) in
          Settled m hp h rings key (cold q p) r' (put_ring rings (hash_index h key) (some r')))
  unfolding found
  hash_get-shifts n m hp h rings key r q v p t narrow full behind at once enough few cool due fits =
      let m' = requested m in
      let t' = with_requests-IsTable (m.nr_request + 1) m h hp rings t in
      let i = hash_index h key in
      let b : IsRing m' h i r =
        rw full at (t'.bucket i (index-lt_size h key t.narrow t.split t.sized narrow)) in
      let reads = IsRing-Reads m' h i r b in
      let w = locate-some m.nodes h i key (first r) r.rest q v p reads.1 b.homes.1 at in
      let run = search_ring fuel m' hp h key i r t.loaded refl narrow b enough in
      let a =
        found fuel m' hp h rings key t' narrow r q v (cold q p) full b w.0 w.1 (rw behind w.2) refl
          (q, inr (p, refl)) (run ∙ rw (behind, at) refl) in
      let r' = replaced q (counted v) (head_replaced r) in
      let keys = λ (k : ℕ). occurrences-replaced m.nodes q v (counted v) w.0 refl k r reads in
      let self : (i == i) ≡ true = ground arith in
      let long = length-replace q (counted v) r.rest in
      settled n m hp h rings key t' narrow a q p r' refl (rw self refl) (λ k. rw (keys k) (once k))
        (omega arith) (omega arith) cool due fits (rw full (rw (behind, at) refl))
