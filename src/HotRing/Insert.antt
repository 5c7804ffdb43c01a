-- ===== src/HotRing/Insert.antt =====
-- `hash_insert` into a bucket that has a ring, step by step.
use jeopardy.Prelude.{
  ℕ, zero, suc, ◌^◌, ◌<◌, ◌≡◌, ◌≢◌, refl, ◌∙◌, List, [], ◌∷◌, none, some, arith, false, pos, inl,
  inr, Bool-cases, ◌==◌, if◌then◌else◌, length,
}
use native.Mathlib.Nat.{mod-eq_of_lt}
use jeopardy.Memory.{Ptr, null, Cells, read, write, read-write_self, read-write_ne, ok}
use jeopardy.HotRing.State.{Node, Mem, Calloc, zero_node, list_add, hash_node_alloc}
use jeopardy.HotRing.Create.{hash_insert, fits_between, create_loop, create_in_ring}
use jeopardy.HotRing.Ring.{Item, Seg, Outside}
use jeopardy.HotRing.Ring.{Seg-write}
use jeopardy.HotRing.Place.{spot, in_walk, spot-Reads, spot-ne, relink, Linked}
use jeopardy.HotRing.Table.{hash_index, hash_tag, get_head_node}
use jeopardy.HotRing.State.{Hash}
use jeopardy.HotRing.Frame.{Seg-Reads, Outside-none, IsRing-Reads}
use jeopardy.HotRing.Valid.{Ring, IsRing, items, first}

-- The nodes after `list_add(p, at)`, where `z` was at `p`.
abbrev pub added : Cells Node → Ptr → Node → Item → Cells Node
added c p z at = write (write c p (record z { list = at.1.list })) at.0 (relink at.1 p)

list_add_lem :
    (m : Mem) (p q : Ptr) (z u : Node)
    → read m.nodes p ≡ some z
    → read m.nodes q ≡ some u
    → q ≢ p
    → p < 2 ^ 48
    → list_add p q m ≡ ok tt (record m { nodes = added m.nodes p z (q, u) })
unfolding list_add
list_add_lem m p q z u ep eq ne small =
    rw (eq, ep, read-write_ne m.nodes p q (record z { list = u.list }) ne, eq, mod-eq_of_lt small)
      refl

module _ (m : Mem) (head p : Ptr) (t : ℕ) (z : Node) (new : read m.nodes p ≡ some z)
    (small : p < 2 ^ 48) where
  -- The walk adds the node at its spot, or says that the spot is at the end.
  create_loop_lem :
      (fuel : ℕ) (q cur : Ptr) (u : Node) (xs : List Item)
      → read m.nodes q ≡ some u
      → Seg m.nodes head cur xs
      → Outside p ((q, u) ∷ xs)
      → length xs < fuel
      → create_loop fuel head t p q cur m
        ≡ ok
            (in_walk t u xs, (spot t q u xs).0)
            (if in_walk t u xs then record m { nodes = added m.nodes p z (spot t q u xs) } else m)
  unfolding create_loop in_walk spot
  create_loop_lem zero q cur u xs e s o enough = absurd (omega arith)
  create_loop_lem (suc fuel) q cur u [] e s o enough = ground arith
  create_loop_lem (suc fuel) q cur u ((a, v) ∷ xs) e s o enough =
      let moved : (cur == head) ≡ false = ground arith in
      let here : read m.nodes cur ≡ some v = ground arith in
      rw (moved, here, e, s.0)
        (elim (Bool-cases (fits_between t u.tag v.tag)) [
          | inl f ↦ rw (f, list_add_lem m p q z u new e o.0 small) refl
          | inr f ↦ rw f (create_loop_lem fuel a v.list.addr v xs s.1 s.3 o.1 (omega arith))
        ])

-- The nodes after `hash_insert`.
abbrev pub inserted : Cells Node → Ptr → ℕ → ℕ → Ptr → Item → Cells Node
inserted c p t key value at =
    let d = added (write c p zero_node) p zero_node at in
    let l = at.1.list in
    let one = record zero_node { list = record l { counter = 1 } } in
    write (write d p one) p (record one { key = key; tag = t; value = value })

read-added :
    (c : Cells Node) (p : Ptr) (at : Item)
    → at.0 ≢ p
    → read (added (write c p zero_node) p zero_node at) p
      ≡ some (record zero_node { list = at.1.list })
unfolding read
read-added c p at ne = ground arith

pub inserted-Linked :
    (c : Cells Node) (p : Ptr) (t key : ℕ) (value : Ptr) (at : Item)
    → at.0 ≢ p
    → Linked p t key value c (inserted c p t key value at) at
unfolding read
inserted-Linked c p t key value at ne = record {
  new = ground arith;
  link = ground arith;
  rest = ground arith;
}

module _ (calloc : Calloc) (fuel : ℕ) (m : Mem) (h : Hash) (i : ℕ) (r : Ring) (b : IsRing m h i r)
    (ne : calloc.node m ≢ null) (small : calloc.node m < 2 ^ 48)
    (fresh : read m.nodes (calloc.node m) ≡ none) (enough : length r.rest < fuel) where
  out_of_ring : Outside (calloc.node m) (items r)
  out_of_ring = Outside-none m.nodes (calloc.node m) (items r) fresh (IsRing-Reads m h i r b)

  spot_ne_new : (t : ℕ) → (spot t (first r) r.node r.rest).0 ≢ calloc.node m
  spot_ne_new t = spot-ne t (calloc.node m) (first r) r.node r.rest out_of_ring.0 out_of_ring.1

  create_in_ring_lem :
      (t : ℕ)
      → create_in_ring calloc fuel r.ptr t m
        ≡ ok (calloc.node m) (record m {
          nodes =
              added
                (write m.nodes (calloc.node m) zero_node)
                (calloc.node m)
                zero_node
                (spot t (first r) r.node r.rest);
        })
  unfolding create_in_ring hash_node_alloc get_head_node
  create_in_ring_lem t =
      let p = calloc.node m in
      let c = write m.nodes p zero_node in
      let out = out_of_ring in
      let nonnull : (p == null) ≡ false = ground arith in
      let head_nonnull : (r.ptr == null) ≡ false = ground arith in
      let begins : read c (first r) ≡ some r.node =
        read-write_ne m.nodes p (first r) zero_node out.0 ∙ b.begins in
      let seg = Seg-write m.nodes (first r) p zero_node r.node.list.addr r.rest out.1 b.seg in
      let loop =
        create_loop_lem (record m { nodes = c }) (first r) p t zero_node
          (read-write_self m.nodes p zero_node) small fuel (first r) r.node.list.addr r.node r.rest
          begins seg out enough in
      rw (head_nonnull, b.loaded, nonnull, begins, loop)
        (elim (Bool-cases (in_walk t r.node r.rest)) [
          | inl w ↦ rw w refl
          | inr w ↦
              let at = spot t (first r) r.node r.rest in
              rw
                (
                  w,
                  list_add_lem (record m { nodes = c }) p at.0 zero_node at.1
                      (read-write_self m.nodes p zero_node)
                      (spot-Reads t c (first r) r.node r.rest begins
                        (Seg-Reads c (first r) _ r.rest seg))
                      (spot_ne_new t) small,
                )
                refl
        ])

  -- Any key is inserted: the result is 0, and the new node is linked at its spot.
  pub insert_in_ring :
      (hp : Ptr) (key : ℕ) (value : Ptr)
      → read m.hashes hp ≡ some h
      → hash_index h key ≡ i
      → hash_insert calloc fuel hp key value m
        ≡ ok (pos 0) (record m {
          nodes =
              inserted m.nodes
                (calloc.node m)
                (hash_tag h key)
                key
                value
                (spot (hash_tag h key) (first r) r.node r.rest);
        })
  unfolding hash_insert
  insert_in_ring hp key value loaded at =
      let head_nonnull : (r.ptr == null) ≡ false = ground arith in
      rw
        (
          loaded,
          at,
          loaded,
          b.slot,
          head_nonnull,
          create_in_ring_lem (hash_tag h key),
          read-added m.nodes (calloc.node m) (spot (hash_tag h key) (first r) r.node r.rest)
              (spot_ne_new _),
          read-write_self,
        )
        refl
