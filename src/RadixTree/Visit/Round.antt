-- ===== src/RadixTree/Visit/Round.antt =====
-- radix_tree/radix-tree.c: what is left of the walk of `radix_tree_next_chunk` behind a round.
use jeopardy.Prelude.{
  ℕ, suc, ◌+◌, ◌*◌, ◌%◌, ◌/◌, ◌^◌, ◌≡◌, ◌≢◌, ◌≤◌, ◌<◌, refl, sym, ◌∙◌, ap, not, ◌&&◌, true, false,
  Option, none, some, arith, ◌==◌, if◌then◌else◌,
}
use jeopardy.Memory.{Ptr, null, M, pure, ok}
use jeopardy.RadixTree.Entry.{is_internal_node, node_to_entry, shift_maxindex, chunk_start}
use jeopardy.RadixTree.State.{Node, Mem, Slot, node_slot, node_maxindex}
use jeopardy.RadixTree.Iterate.{Iter, restarts, goes_on, is_contiguous, walk_round, walk}
use jeopardy.RadixTree.Shape.Digits.{up, up-suc, up_zero}
use jeopardy.RadixTree.Shape.Place.{Places, below, IsTree}
use jeopardy.RadixTree.Shape.Search.{internal}
use jeopardy.RadixTree.Visit.Hole.{one_round}
use jeopardy.RadixTree.Visit.Ahead.{IsNext, v}

module _ (m : Mem) (root : Ptr) (place : Places) (items : ℕ → Ptr) (h : ℕ)
    (t : IsTree m root place items h) (low : h ≤ 9) (flags : ℕ)
    (plain : is_contiguous flags ≡ false) (iter : Iter) where
  -- The walk from `index`, at the root (`none`) or at an entry, with enough fuel.
  pub record Walks (child : Option Ptr) (index : ℕ) : Type 0 where
    pub slot : Option Slot
    pub at : Iter
    pub next : IsNext place items index slot at
    pub rounds : ℕ
    pub returns :
        (fuel : ℕ) → rounds ≤ fuel → walk fuel root flags iter child index m ≡ ok (slot, at) m

  -- What the walk does behind a round that goes on to slot `offset` of the node `v`, at the index `i`.
  abbrev pub resumed : ℕ → Node → Ptr → ℕ → ℕ → Ptr → M Mem (Option Slot × Iter)
  resumed fuel v p offset i entry =
      if not (v.shift == 0) && is_internal_node entry
      then walk fuel root flags iter (some entry) i
      else (let start = chunk_start i (node_maxindex v) in
          let at = record iter {
            index = start + offset;
            next_index = (start + node_maxindex v + 1) % 2 ^ 64;
            node = p;
          } in
          pure (some (node_slot p offset), at))

  pub record Resumes (n i : ℕ) (p : Ptr) (v : Node) : Type 0 where
    pub slot : Option Slot
    pub at : Iter
    pub next : IsNext place items i slot at
    pub rounds : ℕ
    pub returns :
        (fuel : ℕ)
        → rounds ≤ fuel
        → resumed fuel v p (up n i % 64) i (below place items n (up n i)) m ≡ ok (slot, at) m

  -- At a node of the items.
  pub at_item-Resumes :
      (i : ℕ) (p : Ptr) (u : Node)
      → place 0 (up 1 i) ≡ some p
      → u.shift ≡ 6 * 0
      → i < 2 ^ 60
      → items (up 0 i) ≢ null
      → Resumes 0 i p u
  unfolding node_maxindex shift_maxindex
  at_item-Resumes i p u at level_is small ne =
      let base : (u.shift == 0) ≡ true = ground arith in
      let shifted : u.shift ≡ 0 = omega arith in
      let whole : shift_maxindex u.shift ≡ 63 = rw shifted refl in
      let here : chunk_start i (shift_maxindex u.shift) + up 0 i % 64 ≡ i =
        rw whole (omega arith) in
      let past : (chunk_start i (shift_maxindex u.shift) + shift_maxindex u.shift + 1) % 2 ^ 64
          ≡ (i / 64 + 1) * 64 =
        rw whole (omega arith) in
      let q : up 1 i ≡ i / 64 = up-suc 0 i ∙ ap (λ x. x / 64) (up_zero i) in
      record {
        slot = some (node_slot p (up 0 i % 64));
        at = record iter { index = i; next_index = (i / 64 + 1) * 64; node = p };
        next = (
          p,
          ap (λ x. place 0 x) (sym q) ∙ at,
          ap (λ x. node_slot p (x % 64)) (up_zero i),
          refl,
          refl,
          (λ e. ne (ap items (up_zero i) ∙ e)),
          omega arith,
          (λ k a b. absurd (omega arith)),
        );
        rounds = 0;
        returns = λ fuel _. rw (base, here, past) refl;
      }

  -- At a node above.
  pub below-Resumes :
      (n i : ℕ) (p : Ptr) (u : Node) (p' : Ptr)
      → u.shift ≡ 6 * suc n
      → place n (up (suc n) i) ≡ some p'
      → Walks (some (node_to_entry p')) i
      → Resumes (suc n) i p u
  below-Resumes n i p u p' level_is at w =
      let high : (u.shift == 0) ≡ false = ground arith in
      record {
        slot = w.slot;
        at = w.at;
        next = w.next;
        rounds = w.rounds;
        returns = λ fuel enough.
            rw (high, at, internal m root place items h t n (up (suc n) i) p' at)
              (w.returns fuel enough);
      }

  pub on_goes :
      (child : Ptr) (index : ℕ) (u : Node) (p : Ptr) (o i : ℕ) (entry : Ptr)
      (res : Option Slot × Iter) (need : ℕ)
      → ((f : ℕ) → 64 ≤ f → walk_round f flags child index m ≡ ok (goes_on u p o i entry) m)
      → ((f : ℕ) → need ≤ f → resumed f u p o i entry m ≡ ok res m)
      → (fuel : ℕ) → suc (64 + need) ≤ fuel
      → walk fuel root flags iter (some child) index m ≡ ok res m
  unfolding walk
  on_goes child index u p o i entry res need round rest fuel enough =
      let f = one_round (64 + need) fuel enough in
      let l = f.2 in rw (f.1, round f.0 (omega arith)) (rest f.0 (omega arith))

  pub moved :
      (fuel : ℕ) (u : Node) (p : Ptr) (i : ℕ) (res : Option Slot × Iter)
      → {o o' : ℕ} {entry entry' : Ptr} → o ≡ o'
      → entry ≡ entry'
      → resumed fuel u p o i entry m ≡ ok res m
      → resumed fuel u p o' i entry' m ≡ ok res m
  moved fuel u p i res a b r = rw (sym a, sym b) r

  pub on_restarts :
      (child : Ptr) (index i : ℕ) (res : Option Slot × Iter) (need : ℕ)
      → ((f : ℕ) → 64 ≤ f → walk_round f flags child index m ≡ ok (restarts i) m)
      → ((f : ℕ) → need ≤ f → walk f root flags iter none i m ≡ ok res m)
      → (fuel : ℕ) → suc (64 + need) ≤ fuel
      → walk fuel root flags iter (some child) index m ≡ ok res m
  unfolding walk
  on_restarts child index i res need round rest fuel enough =
      let f = one_round (64 + need) fuel enough in
      let l = f.2 in rw (f.1, round f.0 (omega arith)) (rest f.0 (omega arith))
