-- ===== src/DoubleList/Move.antt =====
-- `list_move` and `list_move_tail`, within a ring and from one ring to another.
use jeopardy.Prelude.{List, [], ◌∷◌, ◌++◌, Absent, All-append, Apart, Apart-sym}
use jeopardy.Memory.{Ptr}
use jeopardy.DoubleList.Links.{Links, list_move, list_move_tail}
use jeopardy.DoubleList.Path.{Circle, Becomes}
use jeopardy.DoubleList.Add.{list_add-first, list_add_tail-last}
use jeopardy.DoubleList.Del.{
  unlinked, middle, unlink-runs, unlinked-Circle, unlinked-Allocated, unlinked-elsewhere,
}

module _ (c : Links) (head entry : Ptr) (xs ys : List Ptr)
    (k : Circle c head (xs ++ entry ∷ ys)) where
  -- `list_move` of a link to the head of its own ring puts it first, and keeps the order of the rest;
  -- a ring that shares no link with this one stays.
  list_move-first :
      Becomes (list_move entry head) c head (entry ∷ xs ++ ys) (entry ∷ head ∷ xs ++ ys)
  unfolding list_move
  list_move-first =
      let b =
        list_add-first (unlinked c head entry xs ys k) head entry (xs ++ ys)
          (unlinked-Circle c head entry xs ys k) (middle c head entry xs ys k)
          (unlinked-Allocated c head entry xs ys k) in
      record {
        after = b.after;
        returns = rw (unlink-runs c head entry xs ys k) b.returns;
        circle = b.circle;
        elsewhere = λ o ws ring away.
            b.elsewhere o ws (unlinked-elsewhere c head entry xs ys k o ws ring away.1) away;
      }

  -- `list_move_tail` of a link to the tail of its own ring puts it last, and keeps the order of the
  -- rest; a ring that shares no link with this one stays.
  list_move_tail-last :
      Becomes
        (list_move_tail entry head)
        c
        head
        ((xs ++ ys) ++ entry ∷ [])
        (entry ∷ head ∷ xs ++ ys)
  unfolding list_move_tail
  list_move_tail-last =
      let b =
        list_add_tail-last (unlinked c head entry xs ys k) head entry (xs ++ ys)
          (unlinked-Circle c head entry xs ys k) (middle c head entry xs ys k)
          (unlinked-Allocated c head entry xs ys k) in
      record {
        after = b.after;
        returns = rw (unlink-runs c head entry xs ys k) b.returns;
        circle = b.circle;
        elsewhere = λ o ws ring away.
            b.elsewhere o ws (unlinked-elsewhere c head entry xs ys k o ws ring away.1) away;
      }

  module _ (other : Ptr) (zs : List Ptr) (l : Circle c other zs)
      (far : Apart (entry ∷ head ∷ xs ++ ys) (other ∷ zs)) where
    -- `list_move` of a link to another ring that shares no link with its own puts it first there, and
    -- its own ring keeps the rest in order.
    pub list_move-between :
        (b : Becomes
          (list_move entry other)
          c
          other
          (entry ∷ zs)
          ((entry ∷ head ∷ xs ++ ys) ++ other ∷ zs))
        × Circle b.after head (xs ++ ys)
    unfolding list_move
    list_move-between =
        let b =
          list_add-first (unlinked c head entry xs ys k) other entry zs
            (unlinked-elsewhere c head entry xs ys k other zs l far.1) far.0
            (unlinked-Allocated c head entry xs ys k) in
        (
          record {
            after = b.after;
            returns = rw (unlink-runs c head entry xs ys k) b.returns;
            circle = b.circle;
            elsewhere = λ o ws ring away.
                let parts =
                  All-append (λ z. Absent z (o ∷ ws)) (entry ∷ head ∷ xs ++ ys) (other ∷ zs) away in
                b.elsewhere o ws (unlinked-elsewhere c head entry xs ys k o ws ring parts.0.1)
                  (parts.0.0, parts.1);
          },
          b.elsewhere head (xs ++ ys) (unlinked-Circle c head entry xs ys k)
              (middle c head entry xs ys k, Apart-sym (head ∷ xs ++ ys) (other ∷ zs) far.1),
        )
