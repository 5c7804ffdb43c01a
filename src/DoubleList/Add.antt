-- ===== src/DoubleList/Add.antt =====
-- `list_add` and `list_add_tail` put a link at the two ends of a ring.
use jeopardy.Prelude.{
  append-nil, Distinct-append, Distinct-insert, ◌≡◌, ◌≢◌, refl, sym, List, [], ◌∷◌, ◌++◌, some,
  Absent, All-append,
}
use jeopardy.Memory.{Ptr, read, read-write_ne}
use jeopardy.DoubleList.Links.{
  Links, next_of, prev_of, set_next, set_prev, add_between, list_add, list_add_tail,
}
use jeopardy.DoubleList.Path.{
  Circle, Allocated, Becomes, last_of, first_of, link, cut, mend, last_of-ne, first_of-ne,
  last_of-All, first_of-All, Linked-link, link-Linked, link-Open, link-Open_away, link-Tail,
  link-Tail_away, link-Circle,
}

-- The insertion at the joint of `xs` and `ys`.
add_between-inserts :
    (c : Links) (head new : Ptr) (xs ys : List Ptr)
    → Circle c head (xs ++ ys)
    → Absent new (head ∷ xs ++ ys)
    → Allocated c new
    → Becomes
        (add_between new (last_of head xs) (first_of ys head))
        c
        head
        (xs ++ new ∷ ys)
        (new ∷ head ∷ xs ++ ys)
unfolding add_between set_next set_prev next_of prev_of
add_between-inserts c head new xs ys k away room =
    let parts = cut c head xs ys head k.0 in
    let p = last_of head xs in
    let n = first_of ys head in
    let d = Distinct-append (head ∷ xs) ys k.1 in
    let far = All-append (λ k. k ≢ new) xs ys away.1 in
    let p_ne : p ≢ new = last_of-ne new head xs away.0 far.0 in
    let n_ne : n ≢ new = first_of-ne new ys head far.1 away.0 in
    let heads = All-append (λ k. k ≢ head) xs ys k.1.0 in
    let inner = link new n c in
    let first_apart : Absent n xs =
      first_of-All (λ z. Absent z xs) ys head (Distinct-append xs ys k.1.1).2 heads.0 in
    let last_apart : Absent p ys = last_of-All (λ z. Absent z ys) head xs d.3.0 d.3.1 in
    record {
      after = link p new inner;
      returns =
          rw
            (
              parts.1.1,
              room.has_next,
              read-write_ne c.prev n new new (λ e. n_ne (sym e)),
              room.has_prev,
              read-write_ne c.next new p n p_ne,
              parts.1.0,
            )
            refl;
      circle = (
        mend (link p new inner) head xs (new ∷ ys) head
            (link-Open inner p new head xs d.0 refl far.0
              (link-Open_away c new n head xs away.0 far.0 first_apart parts.0))
            (Linked-link inner p new)
            (mend (link p new inner) new [] ys head tt
              (link-Linked inner p new new n (λ e. p_ne (sym e)) n_ne (Linked-link c new n))
              (link-Tail_away inner p new ys head last_apart far.1 away.0
                (link-Tail c new n ys head d.1 heads.1 far.1 refl parts.2))),
        Distinct-insert new (head ∷ xs) ys k.1 away,
      );
      elsewhere = λ o ws ring apart.
          let at_p : Absent p (o ∷ ws) =
            last_of-All (λ z. Absent z (o ∷ ws)) head xs apart.1.0
              (All-append (λ z. Absent z (o ∷ ws)) xs ys apart.1.1).0 in
          let at_n : Absent n (o ∷ ws) =
            first_of-All (λ z. Absent z (o ∷ ws)) ys head
              (All-append (λ z. Absent z (o ∷ ws)) xs ys apart.1.1).1 apart.1.0 in
          link-Circle inner p new o ws at_p apart.0 (link-Circle c new n o ws apart.0 at_n ring);
    }

module _ (c : Links) (head new : Ptr) (xs : List Ptr) (k : Circle c head xs)
    (away : Absent new (head ∷ xs)) (room : Allocated c new) where
  -- `list_add` of an allocated link that is not in the ring puts it first; a ring that shares no link
  -- with this one and does not hold the new one stays.
  pub list_add-first : Becomes (list_add new head) c head (new ∷ xs) (new ∷ head ∷ xs)
  unfolding list_add next_of
  list_add-first =
      let b = add_between-inserts c head new [] xs k away room in
      let second : read c.next head ≡ some (first_of xs head) = (cut c head [] xs head k.0).1.0 in
      record {
        after = b.after;
        returns = rw second b.returns;
        circle = b.circle;
        elsewhere = b.elsewhere;
      }

  -- `list_add_tail` of an allocated link that is not in the ring puts it last; a ring that shares no
  -- link with this one and does not hold the new one stays.
  pub list_add_tail-last :
      Becomes (list_add_tail new head) c head (xs ++ new ∷ []) (new ∷ head ∷ xs)
  unfolding list_add_tail prev_of
  list_add_tail-last =
      let whole = append-nil xs in
      let b : Becomes (add_between new (last_of head xs) head) c head (xs ++ new ∷ [])
          (new ∷ head ∷ xs) =
        rw whole at (add_between-inserts c head new xs [] (rw whole k) (rw whole away) room) in
      let last : read c.prev head ≡ some (last_of head xs) =
        (cut c head xs [] head (rw whole k.0)).1.1 in
      record {
        after = b.after;
        returns = rw last b.returns;
        circle = b.circle;
        elsewhere = b.elsewhere;
      }
