-- ===== src/HotRing/Removal.antt =====
-- `hotring_delete` of a node behind the head: the run.
use jeopardy.Prelude.{
  All, ℕ, ◌^◌, ◌<◌, ◌≡◌, ◌≢◌, refl, sym, ◌∙◌, List, [], ◌∷◌, Option, some, arith, true, false, inl,
  inr, Bool-cases, ◌==◌,
}
use native.Mathlib.Nat.{mod-eq_of_lt}
use jeopardy.Memory.{Ptr, null, Cells, read, write, erase, read-write_self, read-write_ne, ok}
use jeopardy.HotRing.State.{Node, Hash, Mem, link_of_pointer, list_poison1, list_del}
use jeopardy.HotRing.Get.{cold, counted, raw_hash_get}
use jeopardy.HotRing.Delete.{hotring_delete}
use jeopardy.HotRing.Ring.{Item, Seg, Outside, Apart, locate}
use jeopardy.HotRing.Place.{relink}
use jeopardy.HotRing.Cut.{Unlinked}
use jeopardy.HotRing.Valid.{Home, IsAddress}

-- The node before the one that is found.
pub record Before (c : Cells Node) (h : Hash) (i : ℕ) (q : Ptr) (v : Node) (prev : Ptr)
    : Type 0 where
  pub node : Node
  pub holds : read c prev ≡ some node
  pub home : Home h i node
  pub ne : prev ≢ q
  pub not_null : prev ≢ null
  pub narrow : v.list.addr < 2 ^ 48

module _ (c : Cells Node) (h : Hash) (i key : ℕ) where
  next-lt :
      (stop p : Ptr) (xs : List Item)
      → stop < 2 ^ 48
      → Seg c stop p xs
      → All (λ x. IsAddress x.0) xs
      → p < 2 ^ 48
  next-lt stop p [] lt s a = rw s lt
  next-lt stop p ((b, w) ∷ xs) lt s a = rw s.0 a.0.1

  pub locate-Before :
      (stop p : Ptr) (u : Node) (xs : List Item) (q : Ptr) (v : Node) (prev : Ptr)
      → read c p ≡ some u
      → Home h i u
      → p ≢ null
      → stop < 2 ^ 48
      → Seg c stop u.list.addr xs
      → Outside p xs
      → Apart xs
      → All (λ x. Home h i x.1) xs
      → All (λ x. IsAddress x.0) xs
      → locate key p xs ≡ some (q, v, prev)
      → Before c h i q v prev
  unfolding locate
  locate-Before stop p u [] q v prev e home ne lt s o ap homes addrs found = cc
  locate-Before stop p u ((a, w) ∷ xs) q v prev e home ne lt s o ap homes addrs found =
      elim (Bool-cases (w.key == key)) [
        | inl hit ↦
            let e' : ◌≡◌ {A = Option (Ptr × Node × Ptr)} (some (a, w, p)) (some (q, v, prev)) =
              rw hit at found in
            let at : a ≡ q = ground arith in
            let same : w ≡ v = ground arith in
            let before : p ≡ prev = ground arith in
            record {
              node = u;
              holds = rw (← before) e;
              home = home;
              ne = rw (← before, ← at) (λ x. o.0 (sym x));
              not_null = rw (← before) ne;
              narrow = rw (← same) (next-lt stop w.list.addr xs lt s.3 addrs.1);
            }
        | inr miss ↦
            locate-Before stop a w xs q v prev s.1 homes.0 addrs.0.0 lt s.3 ap.0 ap.1 homes.1
              addrs.1 (rw miss at found)
      ]

-- The nodes after `hotring_delete` of the node `v` at `q` behind `prev`.
abbrev pub unlinked : Cells Node → Ptr → Node → Ptr → Node → Cells Node
unlinked c q v prev u =
    let w = counted v in
    let d = write (write c q w) prev (relink u v.list.addr) in
    erase (write d q (record w { list = link_of_pointer list_poison1 })) q

pub unlinked-Unlinked :
    (c : Cells Node) (q : Ptr) (v : Node) (prev : Ptr) (u : Node)
    → read c prev ≡ some u
    → prev ≢ q
    → Unlinked c (unlinked c q v prev u) q v prev
unfolding read
unlinked-Unlinked c q v prev u e ne = record { link = λ w f. ground arith; rest = ground arith }

pub delete_cold :
    (fuel : ℕ) (hp : Ptr) (key : ℕ) (m m' : Mem) (q : Ptr) (v : Node) (prev : Ptr) (u : Node)
    → raw_hash_get fuel hp key m
      ≡ ok (cold q prev) (record m' { nodes = write m.nodes q (counted v) })
    → read m.nodes prev ≡ some u
    → prev ≢ q
    → prev ≢ null
    → v.list.addr < 2 ^ 48
    → hotring_delete fuel hp key m ≡ ok true (record m' { nodes = unlinked m.nodes q v prev u })
unfolding hotring_delete list_del
delete_cold fuel hp key m m' q v prev u run e ne nn lt =
    let nonnull : (prev == null) ≡ false = ground arith in
    let c = write m.nodes q (counted v) in
    let read_prev : read c prev ≡ some u = read-write_ne m.nodes q prev (counted v) ne ∙ e in
    let d = write c prev (relink u v.list.addr) in
    let read_q : read d q ≡ some (counted v) =
      read-write_ne c prev q (relink u v.list.addr) (λ x. ne (sym x))
      ∙ read-write_self m.nodes q (counted v) in
    rw (run, nonnull, read-write_self, read_prev, mod-eq_of_lt lt, read_q, read-write_self) refl
