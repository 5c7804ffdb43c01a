-- ===== src/RadixTree/Shift.antt =====
-- The tags of entries, and the height that `radix_tree_extend` picks.
use jeopardy.Prelude.{
  ℕ, zero, suc, ◌+◌, ◌-◌, ◌*◌, ◌%◌, ◌^◌, ◌≡◌, ◌≢◌, ◌≤◌, ◌<◌, refl, ◌⊎◌, inl, inr, true, some, arith,
  ltb, Bool-cases,
}
use jeopardy.Memory.{Ptr}
use jeopardy.RadixTree.Entry.{is_internal_node, entry_to_node, node_to_entry, shift_maxindex}
use jeopardy.RadixTree.Create.{grow_shift}

-- The entry of an aligned node is tagged as internal, and leads back to the node.
pub entry_to_node-node_to_entry :
    (p : Ptr)
    → p % 4 ≡ 0
    → (is_internal_node (node_to_entry p) ≡ true) × (entry_to_node (node_to_entry p) ≡ p)
unfolding is_internal_node entry_to_node node_to_entry
entry_to_node-node_to_entry p h = (ground arith, omega arith)

-- The shift that the loop reaches: the first one, in steps of 6, that covers the index.
pub record Grown (fuel index shift : ℕ) : Type 0 where
  pub top : ℕ
  pub result : grow_shift fuel index shift ≡ some top
  pub covers : index ≤ shift_maxindex top
  pub least : (top ≡ shift) ⊎ (shift_maxindex (top - 6) < index)
  pub above : shift ≤ top
  pub bound : top ≤ 60
  pub step : top % 6 ≡ 0

highest : shift_maxindex 60 ≡ 2 ^ 64 - 1
unfolding shift_maxindex
highest = refl

pub not_highest : (index shift : ℕ) → index < 2 ^ 64 → shift_maxindex shift < index → shift ≢ 60
not_highest index shift lt small e =
    let top : shift_maxindex shift ≡ 2 ^ 64 - 1 = rw e highest in omega arith

-- With fuel for every step of 6 up to 60, the loop of `radix_tree_extend` ends for every 64-bit index
-- from a shift that is a multiple of 6 and at most 60; it ends at the first such shift that covers the
-- index, a multiple of 6 that is at most 60.
pub grow_shift-ends :
    (fuel index shift : ℕ)
    → index < 2 ^ 64
    → shift % 6 ≡ 0
    → shift ≤ 60
    → 60 < shift + 6 * fuel
    → Grown fuel index shift
unfolding grow_shift
grow_shift-ends zero index shift lt step low enough = absurd (omega arith)
grow_shift-ends (suc fuel) index shift lt step low enough =
    elim (Bool-cases (ltb (shift_maxindex shift) index)) [
      | inl small ↦
          let less : shift_maxindex shift < index = ground arith in
          let same : shift + 6 - 6 ≡ shift = omega arith in
          let ne = not_highest index shift lt less in
          let g =
            grow_shift-ends fuel index (shift + 6) lt (omega arith) (omega arith) (omega arith) in
          record {
            top = g.top;
            result = rw small g.result;
            covers = g.covers;
            least = elim g.least [ inl e ↦ inr (rw (e, same) less) | inr l ↦ inr l ];
            above = let a = g.above in omega arith;
            bound = g.bound;
            step = g.step;
          }
      | inr large ↦ record {
        top = shift;
        result = rw large refl;
        covers = ground arith;
        least = inl refl;
        above = omega arith;
        bound = low;
        step = step;
      }
    ]
