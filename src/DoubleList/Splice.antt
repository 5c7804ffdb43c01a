-- ===== src/DoubleList/Splice.antt =====
-- `list_splice`, `list_splice_init`, `list_empty` and `list_for_each`.
use jeopardy.Prelude.{
  ℕ, zero, suc, ◌<◌, ◌≡◌, ◌≢◌, refl, sym, List, [], ◌∷◌, ◌++◌, some, arith, Absent, All-append,
  append-All, Apart, append-Distinct, Apart-sym, Bool, true, false, length, ◌==◌, ==_iff,
  if◌then◌else◌,
}
use jeopardy.Memory.{Ptr, Cells, read, write, read-write_ne, ok}
use jeopardy.DoubleList.Links.{
  Links, next_of, prev_of, set_next, set_prev, list_empty, splice, list_splice, list_splice_init,
  init_list_head, for_each, list_for_each,
}
use jeopardy.DoubleList.Path.{
  Linked, Chain, Open, Circle, Allocated, Becomes, last_of, first_of, link, cut, mend, last_of-All,
  first_of-All, Linked-link, link-Open, link-Open_away, link-Tail, link-Tail_away, link-Circle,
}

abbrev pub is_nil {ℓ} : {A : Type ℓ} → List A → Bool
is_nil [] = true
is_nil (x ∷ xs) = false

ne→== : (a b : ℕ) → a ≢ b → (a == b) ≡ false
ne→== a b h = ground arith

list_empty-runs :
    (c : Links) (head : Ptr) (xs : List Ptr)
    → Circle c head xs
    → list_empty head c ≡ ok (is_nil xs) c
unfolding list_empty next_of
list_empty-runs c head [] k = rw (k.0.0, (==_iff head head).1 refl) refl
list_empty-runs c head (x ∷ xs) k = rw (k.0.0.0, ne→== x head k.1.0.0) refl

for_each-visits :
    (c : Links) (head a : Ptr) (xs : List Ptr) (fuel : ℕ)
    → Chain c a xs head
    → Absent head xs
    → length xs < fuel
    → for_each fuel head (first_of xs head) c ≡ ok xs c
unfolding for_each next_of
for_each-visits c head a [] zero k far lt = elim lt [ ]
for_each-visits c head a (x ∷ xs) zero k far lt = elim lt [ ]
for_each-visits c head a [] (suc fuel) k far lt = rw ((==_iff head head).1 refl) refl
for_each-visits c head a (x ∷ xs) (suc fuel) k far lt =
    let step : read c.next x ≡ some (first_of xs head) = (cut c x [] xs head k.1).1.0 in
    rw (ne→== x head far.0, step, for_each-visits c head x xs fuel k.1 far.1 (omega arith)) refl

-- `list_for_each` on a ring, with more fuel than it has links, visits every link once, in order.
pub list_for_each-visits :
    (c : Links) (head : Ptr) (xs : List Ptr) (fuel : ℕ)
    → Circle c head xs
    → length xs < fuel
    → list_for_each fuel head c ≡ ok xs c
unfolding list_for_each next_of
list_for_each-visits c head xs fuel k lt =
    let step : read c.next head ≡ some (first_of xs head) = (cut c head [] xs head k.0).1.0 in
    rw step (for_each-visits c head head xs fuel k.0 k.1.0 lt)

Chain-last :
    (c : Links) (a : Ptr) (xs : List Ptr) (z : Ptr) → Chain c a xs z → Linked c (last_of a xs) z
Chain-last c a [] z h = h
Chain-last c a (x ∷ xs) z h = Chain-last c x xs z h.1

-- An allocated link stays allocated, and may be made a ring of its own.
read-write-some :
    (c : Cells Ptr) (u v p q : Ptr)
    → read c p ≡ some q
    → read (write c u v) p ≡ some (if p == u then v else q)
unfolding read
read-write-some c u v p q h = ground arith

link-Allocated : (c : Links) (u v p : Ptr) → Allocated c p → Allocated (link u v c) p
link-Allocated c u v p a = record {
  next = _;
  prev = _;
  has_next = read-write-some c.next u v p a.next a.has_next;
  has_prev = read-write-some c.prev v u p a.prev a.has_prev;
}

init_list_head-runs :
    (c : Links) (p : Ptr) → Allocated c p → init_list_head p c ≡ ok tt (link p p c)
unfolding init_list_head set_next set_prev next_of prev_of
init_list_head-runs c p a = rw (a.has_next, a.has_prev) refl

Chain-Open : (c : Links) (a : Ptr) (xs : List Ptr) (z : Ptr) → Chain c a xs z → Open c a xs
Chain-Open c a [] z h = tt
Chain-Open c a (x ∷ xs) z h = (h.0, Chain-Open c x xs z h.1)

module _ (c : Links) (list head x : Ptr) (xs ys : List Ptr) (k : Circle c list (x ∷ xs))
    (l : Circle c head ys) (far : Apart (list ∷ x ∷ xs) (head ∷ ys)) where
  abbrev last : Ptr
  last = last_of x xs

  abbrev at : Ptr
  at = first_of ys head

  abbrev inner : Links
  inner = link head x c

  abbrev spliced : Links
  spliced = link last at inner

  -- What the ring at `head` shares with the other: nothing.
  back : Apart (head ∷ ys) (list ∷ x ∷ xs)
  back = Apart-sym (list ∷ x ∷ xs) (head ∷ ys) far

  at_far : Absent at (list ∷ x ∷ xs)
  at_far = first_of-All (λ z. Absent z (list ∷ x ∷ xs)) ys head back.1 back.0

  last_far : Absent last (head ∷ ys)
  last_far = last_of-All (λ z. Absent z (head ∷ ys)) x xs far.1.0 far.1.1

  splice-runs : splice list head c ≡ ok tt spliced
  unfolding splice set_next set_prev next_of prev_of
  splice-runs =
      let first : Linked c list x = k.0.0 in
      let ending : Linked c last list = Chain-last c x xs list k.0.1 in
      let follows : Linked c head at = (cut c head [] ys head l.0).1 in
      rw
        (
          first.0,
          ending.1,
          follows.0,
          first.1,
          follows.0,
          read-write_ne c.next head last x (λ e. last_far.0 (sym e)),
          ending.0,
          read-write_ne c.prev x at head (λ e. at_far.1.0 (sym e)),
          follows.1,
        )
        refl

  spliced-Circle : Circle spliced head (x ∷ xs ++ ys)
  spliced-Circle = (
    mend spliced head (x ∷ xs) ys head
        (link-Open inner last at head (x ∷ xs) (back.0.1, k.1.1) refl at_far.1
          (
            Linked-link c head x,
            link-Open_away c head x x xs back.0.1.0 back.0.1.1 k.1.1.0
                (Chain-Open c x xs list k.0.1),
          ))
        (Linked-link inner last at)
        (link-Tail inner last at ys head l.1.1 l.1.0 last_far.1 refl (
          link-Tail_away c head x ys head l.1.0 far.1.0.1 far.1.0.0 (cut c head [] ys head l.0).2)),
    (
      append-All (λ k. k ≢ head) (x ∷ xs) ys back.0.1 l.1.0,
      append-Distinct (x ∷ xs) ys k.1.1 l.1.1
          (Apart-sym ys (x ∷ xs) (Apart-sym (x ∷ xs) (head ∷ ys) far.1).1),
    ),
  )

  spliced-elsewhere :
      (o : Ptr) (ws : List Ptr)
      → Circle c o ws
      → Apart (head ∷ x ∷ xs ++ ys) (o ∷ ws)
      → Circle spliced o ws
  spliced-elsewhere o ws ring away =
      let parts = All-append (λ z. Absent z (o ∷ ws)) xs ys away.1.1 in
      link-Circle inner last at o ws (last_of-All (λ z. Absent z (o ∷ ws)) x xs away.1.0 parts.0)
        (first_of-All (λ z. Absent z (o ∷ ws)) ys head parts.1 away.0)
        (link-Circle c head x o ws away.0 away.1.0 ring)

module _ (c : Links) (list head : Ptr) where
  -- `list_splice` puts the links of the first of two rings that share none at the front of the
  -- second, in their order; a ring that shares no link with the second or the links moved stays.
  list_splice-joins :
      (xs ys : List Ptr)
      → Circle c list xs
      → Circle c head ys
      → Apart (list ∷ xs) (head ∷ ys)
      → Becomes (list_splice list head) c head (xs ++ ys) (head ∷ xs ++ ys)
  unfolding list_splice
  list_splice-joins [] ys k l far = record {
    after = c;
    returns = rw (list_empty-runs c list [] k) refl;
    circle = l;
    elsewhere = λ o ws ring away. ring;
  }
  list_splice-joins (x ∷ xs) ys k l far = record {
    after = spliced c list head x xs ys k l far;
    returns = rw (list_empty-runs c list (x ∷ xs) k, splice-runs c list head x xs ys k l far) refl;
    circle = spliced-Circle c list head x xs ys k l far;
    elsewhere = spliced-elsewhere c list head x xs ys k l far;
  }

  -- `list_splice_init` of a ring to another that shares no link with it puts its links, in order, in front
  -- of the other's and leaves the first ring empty; a ring apart from both stays.
  pub list_splice_init-joins :
      (xs ys : List Ptr)
      → Circle c list xs
      → Circle c head ys
      → Apart (list ∷ xs) (head ∷ ys)
      → (b : Becomes (list_splice_init list head) c head (xs ++ ys) (list ∷ head ∷ xs ++ ys))
        × Circle b.after list []
  unfolding list_splice_init
  list_splice_init-joins [] ys k l far = (
    record {
      after = c;
      returns = rw (list_empty-runs c list [] k) refl;
      circle = l;
      elsewhere = λ o ws ring away. ring;
    },
    k,
  )
  list_splice_init-joins (x ∷ xs) ys k l far =
      let s = spliced c list head x xs ys k l far in
      let mine : Allocated c list = record {
        next = x;
        prev = last_of x xs;
        has_next = k.0.0.0;
        has_prev = (Chain-last c x xs list k.0.1).1;
      } in
      let still =
        link-Allocated (link head x c) (last_of x xs) (first_of ys head) list
          (link-Allocated c head x list mine) in
      let kept : Absent list (head ∷ x ∷ xs ++ ys) =
        (far.0.0, append-All (λ z. z ≢ list) (x ∷ xs) ys k.1.0 far.0.1) in
      (
        record {
          after = link list list s;
          returns =
              rw (list_empty-runs c list (x ∷ xs) k, splice-runs c list head x xs ys k l far)
                (init_list_head-runs s list still);
          circle =
              link-Circle s list list head (x ∷ xs ++ ys) kept kept
                (spliced-Circle c list head x xs ys k l far);
          elsewhere = λ o ws ring away.
              link-Circle s list list o ws away.0 away.0
                (spliced-elsewhere c list head x xs ys k l far o ws ring away.1);
        },
        (Linked-link s list list, (tt, tt)),
      )
