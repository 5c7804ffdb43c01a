-- ===== src/RadixTree/Visit/Chunk.antt =====
-- radix_tree/radix-tree.c: one node on the walk of `radix_tree_next_chunk`, and what comes behind it.
use jeopardy.Prelude.{
  ℕ, suc, ◌+◌, ◌-◌, ◌*◌, ◌%◌, ◌/◌, ◌≡◌, ◌≢◌, ◌≤◌, ◌<◌, sym, ◌∙◌, ap, inl, inr, false, none, some,
  arith, ◌==◌, ==_iff, Bool-cases,
}
use jeopardy.Memory.{Ptr, null}
use jeopardy.RadixTree.Entry.{node_to_entry}
use jeopardy.RadixTree.State.{Node, Mem}
use jeopardy.RadixTree.Iterate.{Iter, is_contiguous}
use jeopardy.RadixTree.Shape.Digits.{up, up-suc}
use jeopardy.RadixTree.Shape.Place.{Places, Held, below, IsTree}
use jeopardy.RadixTree.Visit.Blocks.{block, lt-start, up_start}
use jeopardy.RadixTree.Visit.Hole.{skip_hole-finds, Hole-IsClear}
use jeopardy.RadixTree.Visit.Ahead.{later-IsNext, up-agree, v, level, round_here, round_skips}
use jeopardy.RadixTree.Visit.Round.{Walks, Resumes, on_goes, on_restarts, moved}

module _ (m : Mem) (root : Ptr) (place : Places) (items : ℕ → Ptr) (h : ℕ)
    (t : IsTree m root place items h) (low : h ≤ 9) (flags : ℕ)
    (plain : is_contiguous flags ≡ false) (iter : Iter) where
  -- One node: the walk goes on below it, or starts again behind it.
  module _ (n index : ℕ) (p : Ptr) (at : place n (up (suc n) index) ≡ some p)
      (inner : up (suc h) index ≡ 0)
      (going : (i : ℕ) (u : Node)
        → u.shift ≡ 6 * n
        → place n (up (suc n) i) ≡ some p
        → up (suc h) i ≡ 0
        → index ≤ i
        → below place items n (up n i) ≢ null
        → Resumes m root place items h t low flags plain iter n i p u)
      (again : (i : ℕ) → index < i → Walks m root place items h t low flags plain iter none i) where
    abbrev u : Node
    u = v m root place items h t low flags plain iter n index p at inner

    abbrev held : Held m place items n (up (suc n) index) p
    held = t.held n (up (suc n) index) p at

    at_slot :
        below place items n (up n index) ≢ null
        → Walks m root place items h t low flags plain iter (some (node_to_entry p)) index
    at_slot full =
        let r = going index u held.at.shifted at inner (omega arith) full in
        record {
          slot = r.slot;
          at = r.at;
          next = r.next;
          rounds = suc (64 + r.rounds);
          returns =
              on_goes m root place items h t low flags plain iter (node_to_entry p) index u p
                (up n index % 64) index (below place items n (up n index)) (r.slot, r.at) r.rounds
                (λ f _.
                  round_here m root place items h t low flags plain iter n index p at inner f full)
                r.returns;
        }

    at_hole :
        below place items n (up n index) ≡ null
        → Walks m root place items h t low flags plain iter (some (node_to_entry p)) index
    at_hole empty =
        let s =
          skip_hole-finds m place items n (up (suc n) index) u held.at 64 (up n index % 64)
            (omega arith) (omega arith) in
        let g = s.hole in
        let le = level m root place items h t low flags plain iter n index p at inner in
        let q = up (suc n) index in
        let i = (q * 64 + g.to) * block n in
        let round = λ (f : ℕ) (l : 64 ≤ f).
          round_skips m root place items h t low flags plain iter n index p at inner f g empty
            (s.returns f l) in
        let clear = Hole-IsClear m root place items h t n index le empty g in
        let ahead : index < i =
          lt-start n (q * 64 + g.to) index
            (let s = up-suc n index in let f = g.past in omega arith) in
        elim g.stops [
          | inl last ↦
              let w = again i ahead in
              record {
                slot = w.slot;
                at = w.at;
                next = later-IsNext place items index i w.slot w.at (omega arith) clear w.next;
                rounds = suc (64 + w.rounds);
                returns =
                    on_restarts m root place items h t low flags plain iter (node_to_entry p) index
                      i (w.slot, w.at) w.rounds (λ f l. (round f l).1 last) w.returns;
              }
          | inr (more, full) ↦
              let digit : up n i ≡ q * 64 + g.to = up_start n (q * 64 + g.to) in
              let same : up (suc n) i ≡ q = up-suc n i ∙ ap (λ x. x / 64) digit ∙ omega arith in
              let off : up n i % 64 ≡ g.to = ap (λ x. x % 64) digit ∙ omega arith in
              let top : up (suc h) i ≡ 0 =
                let e : suc n + (h - n) ≡ suc h = omega arith in
                let x : up (suc n + (h - n)) i ≡ up (suc n + (h - n)) index =
                  up-agree (h - n) (suc n) i index same in
                (rw e at x) ∙ inner in
              let r =
                going i u held.at.shifted (ap (λ x. place n x) same ∙ at) top (omega arith)
                  (λ z. full (ap (below place items n) (sym digit) ∙ z)) in
              record {
                slot = r.slot;
                at = r.at;
                next = later-IsNext place items index i r.slot r.at (omega arith) clear r.next;
                rounds = suc (64 + r.rounds);
                returns =
                    on_goes m root place items h t low flags plain iter (node_to_entry p) index u p
                      g.to i (below place items n (q * 64 + g.to)) (r.slot, r.at) r.rounds
                      (λ f l. (round f l).0 more)
                      (λ f l.
                        moved m root place items h t low flags plain iter f u p i (r.slot, r.at) off
                          (ap (below place items n) digit) (r.returns f l));
              }
        ]

    pub at_node : Walks m root place items h t low flags plain iter (some (node_to_entry p)) index
    at_node = elim (Bool-cases (below place items n (up n index) == null)) [
      | inl e ↦ at_hole ((==_iff (below place items n (up n index)) null).0 e)
      | inr ne ↦ at_slot (λ e. ground arith)
    ]
