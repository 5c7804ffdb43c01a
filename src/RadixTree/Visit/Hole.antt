-- ===== src/RadixTree/Visit/Hole.antt =====
-- radix_tree/radix-tree.c: the empty slots that `radix_tree_next_chunk` skips in a node, and the indices
-- below them.
use jeopardy.Prelude.{
  ℕ, zero, suc, ◌+◌, ◌-◌, ◌*◌, ◌%◌, ◌/◌, ◌≡◌, ◌≢◌, ◌≤◌, ◌<◌, refl, ◌⊎◌, inl, inr, arith, ltb, ◌==◌,
  ==_iff, Bool-cases,
}
use jeopardy.Memory.{Ptr, null, ok}
use jeopardy.RadixTree.State.{Node, Mem}
use jeopardy.RadixTree.Iterate.{skip_hole}
use jeopardy.RadixTree.Shape.Digits.{up, up-suc}
use jeopardy.RadixTree.Shape.Place.{Places, below, IsAt, IsTree, below-full}
use jeopardy.RadixTree.Visit.Blocks.{block, up-lt, up-le}

-- The first slot of a node, behind `offset`, that is not empty, or 64.
pub record Hole (place : Places) (items : ℕ → Ptr) (n q offset : ℕ) : Type 0 where
  pub to : ℕ
  pub past : offset < to
  pub within : to ≤ 64
  pub empty : (k : ℕ) → offset < k → k < to → below place items n (q * 64 + k) ≡ null
  pub stops : (to ≡ 64) ⊎ ((to < 64) × (below place items n (q * 64 + to) ≢ null))

-- A round of fuel is there.
pub one_round : (left fuel : ℕ) → suc left ≤ fuel → (f : ℕ) × (fuel ≡ suc f) × (left ≤ f)
one_round left zero enough = absurd (omega arith)
one_round left (suc f) enough = (f, refl, omega arith)

module _ (m : Mem) (place : Places) (items : ℕ → Ptr) (n q : ℕ) (v : Node)
    (at : IsAt place items n q v) where
  -- With `left` slots left, and fuel for them.
  pub record Skips (left offset : ℕ) : Type 0 where
    pub hole : Hole place items n q offset
    pub returns : (fuel : ℕ) → left ≤ fuel → skip_hole fuel v offset m ≡ ok hole.to m

  pub skip_hole-finds : (left offset : ℕ) → offset < 64 → 64 ≤ left + offset → Skips left offset
  unfolding skip_hole
  skip_hole-finds zero offset lt enough = absurd (omega arith)
  skip_hole-finds (suc left) offset lt enough = elim (Bool-cases (ltb (offset + 1) 64)) [
    | inl more ↦
        let next : offset + 1 < 64 = ground arith in
        let slot = at.slot (offset + 1) next in
        elim (Bool-cases (below place items n (q * 64 + (offset + 1)) == null)) [
          | inl e ↦
              let r = skip_hole-finds left (offset + 1) next (omega arith) in
              let g = r.hole in
              record {
                hole = record {
                  to = g.to;
                  past = (let p = g.past in omega arith);
                  within = g.within;
                  empty = λ k lo hi. elim (Bool-cases (k == offset + 1)) [
                    | inl same ↦
                        rw ((==_iff k (offset + 1)).0 same)
                          ((==_iff (below place items n (q * 64 + (offset + 1))) null).0 e)
                    | inr away ↦ g.empty k (ground arith) hi
                  ];
                  stops = g.stops;
                };
                returns = λ fuel enough.
                    let f = one_round left fuel enough in
                    rw (f.1, more, slot, e) (r.returns f.0 f.2);
              }
          | inr ne ↦ record {
            hole = record {
              to = offset + 1;
              past = omega arith;
              within = omega arith;
              empty = λ k lo hi. absurd (omega arith);
              stops = inr (next, λ z. ground arith);
            };
            returns =
                λ fuel enough. let f = one_round left fuel enough in rw (f.1, more, slot, ne) refl;
          }
        ]
    | inr last ↦ record {
      hole = record {
        to = offset + 1;
        past = omega arith;
        within = omega arith;
        empty = λ k lo hi. absurd (omega arith);
        stops = inl (ground arith);
      };
      returns = λ fuel enough. let f = one_round left fuel enough in rw (f.1, last) refl;
    }
  ]

-- No item stands from `i` up to `j`.
abbrev pub IsClear : (ℕ → Ptr) → ℕ → ℕ → Type 0
IsClear items i j = (k : ℕ) → i ≤ k → k < j → items k ≡ null

-- Nothing stands below the slots that are skipped.
pub Hole-IsClear :
    (m : Mem) (root : Ptr) (place : Places) (items : ℕ → Ptr) (h : ℕ)
    (t : IsTree m root place items h) (n index : ℕ)
    → n ≤ h
    → below place items n (up n index) ≡ null
    → (g : Hole place items n (up (suc n) index) (up n index % 64))
    → IsClear items index ((up (suc n) index * 64 + g.to) * block n)
Hole-IsClear m root place items h t n index le here g k from below_end =
    let q = up (suc n) index in
    let s = up n k in
    let low : up n index ≤ s = up-le n index k from in
    let high : s < q * 64 + g.to = up-lt n (q * 64 + g.to) k below_end in
    let split : q ≡ up n index / 64 = up-suc n index in
    let fits = g.within in
    let empty : below place items n s ≡ null = elim (Bool-cases (s == up n index)) [
      | inl same ↦ rw ((==_iff s (up n index)).0 same) here
      | inr away ↦
          let d = s - q * 64 in
          let e : q * 64 + d ≡ s = ground arith in
          let f : below place items n (q * 64 + d) ≡ null =
            g.empty d (ground arith) (ground arith) in
          rw e at f
    ] in
    elim (Bool-cases (items k == null)) [
      | inl none' ↦ (==_iff (items k) null).0 none'
      | inr held ↦ absurd (below-full m root place items h t n k (λ z. ground arith) le empty)
    ]
