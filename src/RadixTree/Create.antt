-- ===== src/RadixTree/Create.antt =====
-- radix_tree/radix-tree.c: `radix_tree_extend`, `__radix_tree_create`, `radix_tree_insert`.
use jeopardy.Prelude.{
  ℕ, zero, suc, ◌+◌, ◌-◌, ◌^◌, ◌%◌, Bool, true, false, Option, none, some, ltb, leb, ◌==◌,
  if◌then◌else◌, ℤ, pos, negsuc, set,
}
use jeopardy.Memory.{Ptr, null, M, out_of_fuel, pure, ◌>>=◌, ◌>>◌}
use jeopardy.RadixTree.Entry.{map_shift, shift_maxindex, entry_to_node, node_to_entry, is_value}
use jeopardy.RadixTree.State.{
  Mem, Slot, root_slot, node_slot, Calloc, load_node, put_node, load_root, put_root, load_slot,
  put_slot, slot_at, descend, root_state, node_alloc,
}

-- `while (index > shift_maxindex(maxshift)) maxshift += 6`, and nothing when the fuel is used up.
unfoldable pub grow_shift : ℕ → ℕ → ℕ → Option ℕ
grow_shift zero index shift = none
grow_shift (suc fuel) index shift =
    let rest = grow_shift fuel index (shift + map_shift) in
    if ltb (shift_maxindex shift) index then rest else some shift

-- `-ENOMEM` and `-EEXIST`
abbrev pub enomem : ℤ
enomem = negsuc 11

abbrev pub eexist : ℤ
eexist = negsuc 16

abbrev pub with_fuel : {A : Type 0} → Option A → M Mem A
with_fuel none = λ _. out_of_fuel
with_fuel (some a) = pure a

module _ (calloc : Calloc) where
  -- The `do` loop that puts nodes on top of the root's entry: false when there is no room.
  unfoldable pub extend_loop : ℕ → Ptr → Ptr → ℕ → ℕ → M Mem Bool
  unfolding node_alloc
  extend_loop zero root entry shift maxshift = λ _. out_of_fuel
  extend_loop (suc fuel) root entry shift maxshift = do
    node ← node_alloc calloc null shift 0 1 0
    if node == null then pure false else do
      below ← load_node (entry_to_node entry)
      put_node (entry_to_node entry) (record below { parent = node })
      v ← load_node node
      slot_at v 0
      put_node node (record v { slots = set v.slots 0 entry })
      r ← load_root root
      put_root root (record r { rnode = node_to_entry node })
      if leb (shift + map_shift) maxshift
          then extend_loop fuel root (node_to_entry node) (shift + map_shift) maxshift
          else pure true

  -- The shift above the new root, or `-ENOMEM`.
  unfoldable pub extend : ℕ → Ptr → ℕ → ℕ → M Mem ℤ
  unfolding extend_loop grow_shift
  extend fuel root index shift = do
    maxshift ← with_fuel (grow_shift fuel index shift)
    r ← load_root root
    grown ← if r.rnode == null then pure true else extend_loop fuel root r.rnode shift maxshift
    pure (if grown then pos (maxshift + map_shift) else enomem)

  -- The walk down, which adds the nodes that are missing: the node and the slot, or nothing when
  -- there is no room.
  unfoldable pub create_loop : ℕ → ℕ → ℕ → Ptr → Ptr → ℕ → Slot → M Mem (Option (Ptr × Slot))
  unfolding node_alloc put_slot descend
  create_loop zero index shift node child offset slot = λ _. out_of_fuel
  create_loop (suc fuel) index shift node child offset slot =
      if shift == 0 then pure (some (node, slot)) else do
        let below = (shift + 2 ^ 32 - map_shift) % 2 ^ 32
        next ←
            if child == null
            then (do
              p ← node_alloc calloc node below offset 0 0
              if p == null then pure null else (do
                put_slot slot (node_to_entry p)
                if node == null then pure tt else (do
                  v ← load_node node
                  put_node node (record v { count = (v.count + 1) % 2 ^ 32 }))
                pure p))
            else pure child
        if next == null then pure none else do
          (o, entry) ← descend (entry_to_node next) index
          create_loop fuel index below (entry_to_node next) entry o
              (node_slot (entry_to_node next) o)

  -- `__radix_tree_create` after the extension.
  unfoldable pub create_from : ℕ → Ptr → ℕ → ℕ → M Mem (Option (Ptr × Slot))
  unfolding create_loop
  create_from fuel root index shift = do
    r ← load_root root
    create_loop fuel index shift null r.rnode 0 (root_slot root)

  -- `__radix_tree_create`, which returns `-ENOMEM` where the result is nothing.
  unfoldable pub tree_create : ℕ → Ptr → ℕ → M Mem (Option (Ptr × Slot))
  unfolding extend create_from root_state
  tree_create fuel root index = do
    (child, maxindex, shift) ← root_state root
    if ltb maxindex index
        then (do
          error ← extend fuel root index shift
          elim error [ pos s ↦ create_from fuel root index s | negsuc e ↦ pure none ])
        else create_from fuel root index shift

unfoldable pub insert_entries : Ptr → Slot → Ptr → M Mem ℤ
unfolding load_slot put_slot
insert_entries node slot item = do
  old ← load_slot slot
  if old == null
      then (do
        put_slot slot item
        if node == null then pure tt else (do
          v ← load_node node
          put_node node (record v { count = (v.count + 1) % 2 ^ 32 })
          w ← load_node node
          put_node node (record w {
            nr_values = if is_value item then (w.nr_values + 1) % 2 ^ 32 else w.nr_values;
          }))
        pure (pos 1))
      else pure eexist

-- `radix_tree_insert`
unfoldable pub tree_insert : Calloc → ℕ → Ptr → ℕ → Ptr → M Mem ℤ
unfolding tree_create insert_entries
tree_insert calloc fuel root index item = do
  place ← tree_create calloc fuel root index
  elim place [
    | none ↦ pure enomem
    | some (node, slot) ↦ do
      error ← insert_entries node slot item
      elim error [ pos n ↦ pure (pos 0) | negsuc n ↦ pure (negsuc n) ]
  ]
