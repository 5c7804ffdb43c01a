-- ===== src/RadixTree/Shape/Place.antt =====
-- radix_tree/: the shape of a tree of any height. A node of level `n` (0 holds the items) stands at the
-- prefix `q` that the indices below it share: an index is at prefix `up (suc n) index` of level `n`.
use jeopardy.Prelude.{
  ℕ, zero, suc, ◌+◌, ◌*◌, ◌%◌, ◌/◌, ◌≡◌, ◌≢◌, ◌≤◌, ◌<◌, refl, ◌⊎◌, inl, inr, Option, none, some,
  List, [], ◌∷◌, arith, ◌==◌, ◌&&◌, length, get_elem?, if◌then◌else◌, Option-cases, Bool-cases,
  false, sym, ap, ◌∙◌,
}
use jeopardy.Memory.{Ptr, null, read}
use jeopardy.RadixTree.Entry.{node_to_entry}
use jeopardy.RadixTree.State.{Node, Root, Mem, Calloc}
use jeopardy.RadixTree.Shape.Digits.{up, up_zero, up-suc}

-- The nodes of a tree, by level and prefix.
abbrev pub Places : Type 0
Places = ℕ → ℕ → Option Ptr

abbrev pub entry_of : Option Ptr → Ptr
entry_of none = null
entry_of (some p) = node_to_entry p

abbrev pub pointer_of : Option Ptr → Ptr
pointer_of none = null
pointer_of (some p) = p

-- What the slot of a node of level `n` holds for the prefix `q`.
abbrev pub below : Places → (ℕ → Ptr) → ℕ → ℕ → Ptr
below place items zero q = items q
below place items (suc n) q = entry_of (place n q)

abbrev pub filled : List Ptr → ℕ
filled [] = 0
filled (e ∷ es) = let rest = filled es in if e == null then rest else suc rest

abbrev pub place_at : Places → ℕ → ℕ → Ptr → Places
place_at place n q p i j = if (i == n) && (j == q) then some p else place i j

abbrev pub item_at : (ℕ → Ptr) → ℕ → Ptr → ℕ → Ptr
item_at items index e j = if j == index then e else items j

-- The fields of the node of level `n` and prefix `q`.
pub record IsAt (place : Places) (items : ℕ → Ptr) (n q : ℕ) (v : Node) : Type 0 where
  pub shifted : v.shift ≡ 6 * n
  pub full : length v.slots ≡ 64
  pub offset_is : v.offset ≡ q % 64
  pub parent_is : v.parent ≡ pointer_of (place (suc n) (q / 64))
  pub counted : v.count ≡ filled v.slots
  pub slot : (k : ℕ) → k < 64 → get_elem? v.slots k ≡ some (below place items n (q * 64 + k))

pub record Held (m : Mem) (place : Places) (items : ℕ → Ptr) (n q : ℕ) (p : Ptr) : Type 0 where
  pub node : Node
  pub loaded : read m.nodes p ≡ some node
  pub aligned : p % 4 ≡ 0
  pub ptr_ne : p ≢ null
  pub at : IsAt place items n q node

-- A tree whose root node has `h` levels below it, and which holds `items`.
pub record IsTree (m : Mem) (root : Ptr) (place : Places) (items : ℕ → Ptr) (h : ℕ) : Type 0 where
  pub low : h ≤ 10
  pub top : Ptr
  pub top_is : place h 0 ≡ some top
  pub node : Root
  pub has_root : read m.roots root ≡ some node
  pub root_is : node.rnode ≡ node_to_entry top
  pub held : (n q : ℕ) (p : Ptr) → place n q ≡ some p → Held m place items n q p
  pub apart : (n q i j : ℕ) (p : Ptr) → place n q ≡ some p → place i j ≡ some p → (n ≡ i) × (q ≡ j)
  pub above :
      (n q : ℕ) (p : Ptr)
      → place n q ≡ some p
      → n < h
      → (a : Ptr) × (place (suc n) (q / 64) ≡ some a)
  pub inside : (n q : ℕ) (p : Ptr) → place n q ≡ some p → (n ≤ h) × (n ≡ h → q ≡ 0)
  pub holds : (i : ℕ) → items i ≢ null → (a : Ptr) × (place 0 (i / 64) ≡ some a)

-- The entry of a node is not null.
pub node_to_entry-ne : (p : Ptr) → p % 4 ≡ 0 → (node_to_entry p == null) ≡ false
unfolding node_to_entry
node_to_entry-ne p h = ground arith

-- A tree of some height that holds `items`.
pub record Holds (m : Mem) (root : Ptr) (items : ℕ → Ptr) : Type 0 where
  pub place : Places
  pub height : ℕ
  pub tree : IsTree m root place items height

-- A tree whose last node is gone.
pub record IsEmpty (m : Mem) (root : Ptr) (items : ℕ → Ptr) : Type 0 where
  pub node : Root
  pub has_root : read m.roots root ≡ some node
  pub no_node : node.rnode ≡ null
  pub nothing : (i : ℕ) → items i ≡ null

-- What the code relies on of `calloc`: null, or an aligned address that no node has.
pub record IsCalloc (calloc : Calloc) : Type 0 where
  pub fresh :
      (m : Mem)
      → (calloc.node m ≡ null) ⊎ ((calloc.node m % 4 ≡ 0) × (read m.nodes (calloc.node m) ≡ none))

module _ (m : Mem) (root : Ptr) (place : Places) (items : ℕ → Ptr) (h : ℕ)
    (t : IsTree m root place items h) where
  -- The nodes on the path of an index that holds an item.
  pub on_path :
      (n index : ℕ) → items index ≢ null → n ≤ h → (a : Ptr) × (place n (up (suc n) index) ≡ some a)
  on_path zero index ne le =
      let e : up 1 index ≡ index / 64 = rw (up-suc 0 index, up_zero index) refl in
      let a = t.holds index ne in (a.0, rw e a.1)
  on_path (suc n) index ne le =
      let a = on_path n index ne (omega arith) in
      let b = t.above n (up (suc n) index) a.0 a.1 (omega arith) in
      (b.0, rw (up-suc (suc n) index) b.1)

  -- No node is above the root node.
  pub beyond : (i j : ℕ) → h < i → place i j ≡ none
  beyond i j lt = elim (Option-cases (place i j)) [
    | inl e ↦ e
    | inr a ↦ let b = (t.inside i j a.0 a.1).0 in absurd (omega arith)
  ]

  -- The slots on the path of an index that holds an item are filled.
  pub below-full :
      (n index : ℕ) → items index ≢ null → n ≤ h → below place items n (up n index) ≢ null
  below-full zero index ne le e = ne (ap items (sym (up_zero index)) ∙ e)
  below-full (suc n) index ne le e =
      let a = on_path n index ne (omega arith) in
      let f : node_to_entry a.0 ≡ null = rw a.1 at e in
      let g = node_to_entry-ne a.0 (t.held n (up (suc n) index) a.0 a.1).aligned in
      absurd (ground arith)

  -- Below a prefix that has no node there is nothing.
  pub below-empty :
      (n q k : ℕ) → place n q ≡ none → n ≤ h → k < 64 → below place items n (q * 64 + k) ≡ null
  below-empty zero q k e le lt = elim (Bool-cases (items (q * 64 + k) == null)) [
    | inl y ↦ ground arith
    | inr y ↦
        let a = t.holds (q * 64 + k) (ground arith) in
        let s : (q * 64 + k) / 64 ≡ q = omega arith in
        let b : place 0 q ≡ some a.0 = rw (← s) a.1 in absurd (cc)
  ]
  below-empty (suc n) q k e le lt = elim (Option-cases (place n (q * 64 + k))) [
    | inl y ↦ rw y refl
    | inr y ↦
        let a = t.above n (q * 64 + k) y.0 y.1 (omega arith) in
        let s : (q * 64 + k) / 64 ≡ q = omega arith in
        let b : place (suc n) q ≡ some a.0 = rw (← s) a.1 in absurd (cc)
  ]
