-- ===== src/HotRing/Reach/Stands.antt =====
-- hotring/hotring.c: a table that holds what a caller knows, and what insertions and searches leave of it.
use jeopardy.Prelude.{
  ℕ, suc, ◌+◌, ◌^◌, ◌≡◌, ◌≢◌, ◌≤◌, ◌<◌, refl, ◌∙◌, inl, inr, Bool, true, false, Option, none, some,
  arith, ◌==◌, ==_iff, Bool-cases, pos,
}
use mathlib.Core.Path.{subst}
use jeopardy.Memory.{Ptr, null, Run, ok}
use jeopardy.HotRing.State.{Hash, Mem, Calloc}
use jeopardy.HotRing.Table.{hash_index, hash_alloc}
use jeopardy.HotRing.Create.{hash_insert}
use jeopardy.HotRing.Get.{Got, raw_hash_get}
use jeopardy.HotRing.Hotspot.{Doubles, hash_get}
use jeopardy.HotRing.Delete.{hotring_delete}
use jeopardy.HotRing.Access.{raw_hash_get-view}
use jeopardy.HotRing.Request.{hash_get-view}
use jeopardy.HotRing.Dropped.{hotring_delete-absent}
use jeopardy.HotRing.Fresh.{empty_hash, hash_alloc-empty}
use jeopardy.HotRing.Adding.{IsCalloc, HasRoom, hash_insert-adds}
use jeopardy.HotRing.Valid.{Ring, IsTable, ring_size, view}
use jeopardy.HotRing.Amounts.{NoMore, IsOnce}
use jeopardy.HotRing.Reach.{Known, known_with, Room}

-- Two ends of one run.
pub ends_of :
    {A : Type 0} (run : Run Mem A) (a b : A) (m m' : Mem)
    → run ≡ ok a m
    → run ≡ ok b m'
    → (a ≡ b) × (m ≡ m')
ends_of run a b m m' x y = (cc, cc)

module _ (calloc : Calloc) (doubles : Doubles) (nbits kbits : ℕ) where
  -- The table in memory holds what the caller knows.
  pub record Stands (hp : Ptr) (inserted : ℕ) (known : Known) (m : Mem) : Type 0 where
    pub hash : Hash
    pub rings : ℕ → Option Ring
    pub table : IsTable m hp hash rings
    pub bits : (hash.n ≡ nbits) × (hash.k ≡ kbits)
    pub sizes : (j : ℕ) → ring_size (rings j) ≤ inserted
    pub once : IsOnce rings
    pub same : (k : ℕ) → view hash rings k ≡ known k

  pub started :
      kbits ≤ nbits
      → nbits < 2 ^ 64
      → nbits ≤ kbits + 30
      → kbits ≤ 30
      → (m m' : Mem) (hp : Ptr) → calloc.hash m ≢ null
      → calloc.slots_fit m (2 ^ kbits) ≡ true
      → hash_alloc calloc nbits kbits m ≡ ok hp m'
      → Stands hp 0 (λ _. none) m'
  started split narrow int_shift small m m' hp ne fits run =
      let e = hash_alloc-empty calloc nbits kbits m narrow split int_shift small ne fits in
      let ends = ends_of (hash_alloc calloc nbits kbits m) _ hp _ m' e.0 run in
      record {
        hash = empty_hash nbits kbits;
        rings = λ _. none;
        table =
            subst (λ a. IsTable m' a (empty_hash nbits kbits) (λ _. none)) ends.0
              (subst (λ b. IsTable b (calloc.hash m) (empty_hash nbits kbits) (λ _. none)) ends.1
                e.1);
        bits = (refl, refl);
        sizes = λ j. omega arith;
        once = λ j k. omega arith;
        same = e.2;
      }

  module _ (c : IsCalloc calloc) (hp : Ptr) (inserted : ℕ) (known : Known) (m : Mem)
      (s : Stands hp inserted known m) (fuel key : ℕ) (enough : inserted ≤ fuel)
      (narrow : key < 2 ^ nbits) where
    pub in_hash : key < 2 ^ s.hash.n
    in_hash = rw s.bits.0 narrow

    pub for_ring : ring_size (s.rings (hash_index s.hash key)) ≤ fuel
    for_ring = omega (arith, s.sizes (hash_index s.hash key))

    kept :
        (after : Mem) (rings : ℕ → Option Ring)
        → IsTable after hp s.hash rings
        → ((k : ℕ) → view s.hash rings k ≡ view s.hash s.rings k)
        → NoMore s.rings rings
        → Stands hp inserted known after
    kept after rings t same no_more = record {
      hash = s.hash;
      rings = rings;
      table = t;
      bits = s.bits;
      sizes = λ j. omega (arith, (no_more j).0, s.sizes j);
      once = λ j k. omega (arith, (no_more j).1 k, s.once j k);
      same = λ k. same k ∙ s.same k;
    }

    same_end :
        {A : Type 0} (run : Run Mem A) (a b : A) (after m' : Mem)
        → run ≡ ok a after
        → run ≡ ok b m'
        → Stands hp inserted known after
        → Stands hp inserted known m'
    same_end run a b after m' x y w =
        subst (Stands hp inserted known) (ends_of run a b after m' x y).1 w

    pub searched :
        (got : Got) (m' : Mem)
        → raw_hash_get fuel hp key m ≡ ok got m'
        → Stands hp inserted known m'
    searched got m' run =
        let a = raw_hash_get-view fuel m hp s.hash s.rings key s.table in_hash for_ring in
        same_end _ a.got got a.after m' a.returns run
          (kept a.after a.rings_after a.table a.same a.no_more)

    pub got_one :
        (res : Bool × Got × Ptr) (m' : Mem)
        → m.nr_request < 4
        → hash_get doubles calloc fuel hp key m ≡ ok res m'
        → Stands hp inserted known m'
    got_one res m' few run =
        let a =
          hash_get-view doubles calloc fuel m hp s.hash s.rings key s.table in_hash for_ring few in
        same_end _ _ res a.after m' a.returns run
          (kept a.after a.rings_after a.table a.same a.no_more)

    pub deleted_none :
        (deleted : Bool) (m' : Mem)
        → known key ≡ none
        → hotring_delete fuel hp key m ≡ ok deleted m'
        → Stands hp inserted known m'
    deleted_none deleted m' absent run =
        let a =
          hotring_delete-absent fuel m hp s.hash s.rings key s.table in_hash for_ring
            (s.same key ∙ absent) in
        same_end _ false deleted a.after m' a.returns run
          (kept a.after a.rings_after a.table a.same a.no_more)

    has_room :
        (value : Ptr)
        → Room calloc m hp key value
        → (o : Option Ring) → HasRoom calloc m hp s.hash key value o
    has_room value room none = (room.1, room.2 s.hash s.table.loaded)
    has_room value room (some r) = room.0

    pub inserted_one :
        (value : Ptr)
        → known key ≡ none
        → Room calloc m hp key value
        → (m' : Mem) → hash_insert calloc fuel hp key value m ≡ ok (pos 0) m'
        → Stands hp (suc inserted) (known_with known key value) m'
    inserted_one value absent room m' run =
        let a =
          hash_insert-adds calloc c fuel m hp s.hash s.rings key value s.table in_hash
            (has_room value room _) for_ring in
        let w : Stands hp (suc inserted) (known_with known key value) a.after = record {
          hash = a.hash;
          rings = a.rings_after;
          table = a.adds.table;
          bits = (a.adds.bits.0 ∙ s.bits.0, a.adds.bits.1 ∙ s.bits.1);
          sizes = λ j. omega (arith, a.adds.grows j, s.sizes j);
          once = a.adds.once (s.same key ∙ absent) s.once;
          same = λ k. elim (Bool-cases (k == key)) [
            | inl is ↦ rw is (rw ((==_iff k key).0 is) (a.adds.self (s.same key ∙ absent)))
            | inr away ↦ rw away (a.adds.others k (λ e. ground arith) ∙ s.same k)
          ];
        } in
        subst (Stands hp (suc inserted) (known_with known key value))
          (ends_of _ (pos 0) (pos 0) a.after m' a.returns run).1 w
