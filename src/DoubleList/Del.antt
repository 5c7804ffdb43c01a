-- ===== src/DoubleList/Del.antt =====
-- `list_del`, `list_del_init` and the moves take a link out of its ring.
use jeopardy.Prelude.{
  ◌≡◌, ◌≢◌, refl, sym, List, [], ◌∷◌, ◌++◌, some, All, Absent, Distinct, All-append, Apart,
  Distinct-append, Distinct-remove, Absent-middle,
}
use jeopardy.Memory.{Ptr, read, read-write_ne, ok}
use jeopardy.DoubleList.Links.{
  Links, next_of, prev_of, set_next, set_prev, join, unlink, list_del, list_del_init,
  init_list_head, list_poison1, list_poison2,
}
use jeopardy.DoubleList.Path.{
  Linked, Tail, Circle, Allocated, Becomes, last_of, first_of, link, cut, mend, last_of-ne,
  redirect, first_of-ne, last_of-All, first_of-All, Linked-link, link-Open, link-Tail, link-Circle,
  redirect-Circle,
}

module _ (c : Links) (head entry : Ptr) (xs ys : List Ptr)
    (k : Circle c head (xs ++ entry ∷ ys)) where
  abbrev p : Ptr
  p = last_of head xs

  abbrev n : Ptr
  n = first_of ys head

  abbrev pub unlinked : Links
  unlinked = link p n c

  apart :
      Distinct (head ∷ xs)
      × Distinct ys
      × All (λ y. Absent y (head ∷ xs)) ys
      × All (λ x. Absent x ys) (head ∷ xs)
  apart = Distinct-append (head ∷ xs) ys (Distinct-remove entry (head ∷ xs) ys k.1)

  pub middle : Absent entry (head ∷ xs ++ ys)
  middle = Absent-middle entry (head ∷ xs) ys k.1

  sides : Absent entry xs × Absent entry ys
  sides = All-append (λ k. k ≢ entry) xs ys middle.1

  before : Linked c p entry
  before = (cut c head xs (entry ∷ ys) head k.0).1

  behind : Linked c entry n × Tail c ys head
  behind =
      let t : Tail c (entry ∷ ys) head = (cut c head xs (entry ∷ ys) head k.0).2 in
      let parts = cut c entry [] ys head t in (parts.1, parts.2)

  p_ne : entry ≢ p
  p_ne = λ e. last_of-ne entry head xs middle.0 sides.0 (sym e)

  n_ne : entry ≢ n
  n_ne = λ e. first_of-ne entry ys head sides.1 middle.0 (sym e)

  pub unlink-runs : unlink entry c ≡ ok tt unlinked
  unfolding unlink join set_next set_prev next_of prev_of
  unlink-runs = rw (before.1, behind.0.0, behind.0.1, before.0) refl

  heads-Absent : Absent head xs × Absent head ys
  heads-Absent = All-append (λ k. k ≢ head) xs ys (Distinct-remove entry (head ∷ xs) ys k.1).0

  pub unlinked-Circle : Circle unlinked head (xs ++ ys)
  unlinked-Circle =
      let d = apart in
      let inner = Distinct-append xs ys (Distinct-remove entry (head ∷ xs) ys k.1).1 in
      (
        mend unlinked head xs ys head
            (link-Open c p n head xs d.0 refl
              (first_of-All (λ z. Absent z xs) ys head inner.2 heads-Absent.0)
              (cut c head xs (entry ∷ ys) head k.0).0)
            (Linked-link c p n)
            (link-Tail c p n ys head d.1 heads-Absent.1
              (last_of-All (λ z. Absent z ys) head xs d.3.0 d.3.1) refl behind.1),
        Distinct-remove entry (head ∷ xs) ys k.1,
      )

  pub unlinked-elsewhere :
      (o : Ptr) (ws : List Ptr)
      → Circle c o ws
      → Apart (head ∷ xs ++ ys) (o ∷ ws)
      → Circle unlinked o ws
  unlinked-elsewhere o ws ring far =
      let parts = All-append (λ z. Absent z (o ∷ ws)) xs ys far.1 in
      link-Circle c p n o ws (last_of-All (λ z. Absent z (o ∷ ws)) head xs far.0 parts.0)
        (first_of-All (λ z. Absent z (o ∷ ws)) ys head parts.1 far.0) ring

  entry_next : read unlinked.next entry ≡ some n
  entry_next = rw (read-write_ne c.next p entry n p_ne) behind.0.0

  entry_prev : read unlinked.prev entry ≡ some p
  entry_prev = rw (read-write_ne c.prev n entry p n_ne) before.1

  -- The link taken out keeps its own pointers.
  pub unlinked-Allocated : Allocated unlinked entry
  unlinked-Allocated = record { next = n; prev = p; has_next = entry_next; has_prev = entry_prev }

  -- `list_del` of a link of a ring takes it out of the ring; a ring that shares no link with it stays.
  list_del-removes : Becomes (list_del entry) c head (xs ++ ys) (entry ∷ head ∷ xs ++ ys)
  unfolding list_del set_next set_prev next_of prev_of
  list_del-removes = record {
    after = redirect entry list_poison1 entry list_poison2 unlinked;
    returns = rw (unlink-runs, entry_next, entry_prev) refl;
    circle =
        redirect-Circle unlinked entry list_poison1 entry list_poison2 head (xs ++ ys) middle middle
          unlinked-Circle;
    elsewhere = λ o ws ring far.
        redirect-Circle unlinked entry list_poison1 entry list_poison2 o ws far.0 far.0
          (unlinked-elsewhere o ws ring far.1);
  }

  -- `list_del_init` of a link of a ring takes it out of the ring and leaves it as a ring of its own; a ring
  -- that shares no link with it stays.
  pub list_del_init-removes :
      (b : Becomes (list_del_init entry) c head (xs ++ ys) (entry ∷ head ∷ xs ++ ys)) × Circle
        b.after entry []
  unfolding list_del_init init_list_head set_next set_prev next_of prev_of
  list_del_init-removes = (
    record {
      after = link entry entry unlinked;
      returns = rw (unlink-runs, entry_next, entry_prev) refl;
      circle = link-Circle unlinked entry entry head (xs ++ ys) middle middle unlinked-Circle;
      elsewhere = λ o ws ring far.
          link-Circle unlinked entry entry o ws far.0 far.0 (unlinked-elsewhere o ws ring far.1);
    },
    (Linked-link unlinked entry entry, (tt, tt)),
  )
