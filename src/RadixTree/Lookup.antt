-- ===== src/RadixTree/Lookup.antt =====
-- radix_tree/radix-tree.c: `__radix_tree_lookup` and its two callers.
use jeopardy.Prelude.{ℕ, zero, suc, Option, none, some, ltb, ◌==◌, if◌then◌else◌}
use jeopardy.Memory.{Ptr, null, M, out_of_fuel, pure, ◌>>=◌}
use jeopardy.RadixTree.Entry.{is_internal_node, entry_to_node}
use jeopardy.RadixTree.State.{Mem, Slot, root_slot, node_slot, load_node, descend, root_state}

-- The entry found, and what is written through `nodep` and `slotp`, if anything is.
pub record Found : Type 0 where
  pub entry : Ptr
  pub place : Option (Ptr × Slot)

unfoldable pub lookup_loop : ℕ → ℕ → Ptr → Ptr → Slot → M Mem Found
unfolding descend
lookup_loop zero index node parent slot = λ _. out_of_fuel
lookup_loop (suc fuel) index node parent slot =
    if is_internal_node node
    then (do
      let p = entry_to_node node
      (offset, entry) ← descend p index
      v ← load_node p
      if v.shift == 0
          then pure (record { entry = entry; place = some (p, node_slot p offset) })
          else lookup_loop fuel index entry p (node_slot p offset))
    else pure (record { entry = node; place = some (parent, slot) })

-- `__radix_tree_lookup`
unfoldable pub tree_find : ℕ → Ptr → ℕ → M Mem Found
unfolding lookup_loop root_state
tree_find fuel root index = do
  (node, maxindex, shift) ← root_state root
  if ltb maxindex index
      then pure (record { entry = null; place = none })
      else lookup_loop fuel index node null (root_slot root)

-- `radix_tree_lookup_slot`
unfoldable pub lookup_slot : ℕ → Ptr → ℕ → M Mem (Option Slot)
unfolding tree_find
lookup_slot fuel root index = do
  f ← tree_find fuel root index
  pure (if f.entry == null then none else elim f.place [ none ↦ none | some (p, s) ↦ some s ])

-- `radix_tree_lookup`
unfoldable pub tree_lookup : ℕ → Ptr → ℕ → M Mem Ptr
unfolding tree_find
tree_lookup fuel root index = do f ← tree_find fuel root index; pure f.entry
