-- ===== src/HotRing/Valid.antt =====
-- What a well-formed table is: each slot is null or heads a ring, and a ring holds the keys of its
-- own bucket in cyclic order of their tags.
use jeopardy.Prelude.{
  All, ℕ, pow-add, pow_pos, ap, ◌∙◌, ◌+◌, ◌-◌, ◌*◌, ◌^◌, ◌≡◌, ◌≢◌, ◌<◌, ◌≤◌, List, [], ◌∷◌, Option,
  none, some, arith, length, get_elem?, sym, refl, inl, inr, Bool-cases, ◌==◌, if◌then◌else◌,
}
use jeopardy.Memory.{Ptr, null, read}
use jeopardy.HotRing.State.{Node, Head, Hash, Mem}
use jeopardy.HotRing.Table.{hash_index, hash_tag, tag_bits}
use jeopardy.HotRing.Order.{IsCyclic}
use jeopardy.HotRing.Ring.{Item, tags, Seg, Apart, Based}
use native.Mathlib.Nat.{mod-eq_of_lt, div-add-mod', div-lt_iff_lt-mul, le-div_iff_mul-le}

-- A bucket's ring: its head cell, the node whose address the head holds, and the nodes that follow.
pub record Ring : Type 0 where
  pub ptr : Ptr
  pub head : Head
  pub node : Node
  pub rest : List Item

abbrev pub first : Ring → Ptr
first r = r.head.addr

abbrev pub items : Ring → List Item
items r = (first r, r.node) ∷ r.rest

-- What an `addr` field can hold of a node's address.
abbrev pub IsAddress : Ptr → Type 0
IsAddress p = (p ≢ null) × (p < 2 ^ 48)

-- The node's key belongs to bucket `i`, and its tag is the key's.
abbrev pub Home : Hash → ℕ → Node → Type 0
Home h i v = (v.key < 2 ^ h.n) × (hash_index h v.key ≡ i) × (hash_tag h v.key ≡ v.tag)

pub record IsRing (m : Mem) (h : Hash) (i : ℕ) (r : Ring) : Type 0 where
  pub slot : get_elem? h.slots i ≡ some r.ptr
  pub ptr_ne : r.ptr ≢ null
  pub loaded : read m.heads r.ptr ≡ some r.head
  pub begins : read m.nodes (first r) ≡ some r.node
  pub seg : Seg m.nodes (first r) r.node.list.addr r.rest
  pub apart : Apart (items r)
  pub addresses : All (λ x. IsAddress x.0) (items r)
  pub homes : All (λ x. Home h i x.1) (items r)
  pub order : IsCyclic r.node.tag (tags r.rest)

abbrev pub IsBucket : Mem → Hash → ℕ → Option Ring → Type 0
IsBucket m h i none = get_elem? h.slots i ≡ some null
IsBucket m h i (some r) = IsRing m h i r

abbrev pub ptr_of : Option Ring → Option Ptr
ptr_of none = none
ptr_of (some r) = some r.ptr

-- The bound `int_shift` is where `1 << (h->n - h->k)` is an `int`.
pub record IsTable (m : Mem) (hp : Ptr) (h : Hash) (rings : ℕ → Option Ring) : Type 0 where
  pub loaded : read m.hashes hp ≡ some h
  pub narrow : h.n < 2 ^ 64
  pub split : h.k ≤ h.n
  pub int_shift : h.n ≤ h.k + 30
  pub sized : h.size ≡ 2 ^ h.k
  pub spans : length h.slots ≡ h.size
  pub bucket : (i : ℕ) → i < h.size → IsBucket m h i (rings i)
  pub heads_apart :
      (i j : ℕ) (p : Ptr)
      → i < h.size
      → j < h.size
      → ptr_of (rings i) ≡ some p
      → ptr_of (rings j) ≡ some p
      → i ≡ j

-- Where `n` and `k` are the number of bits and the table's part of them, the tag has `n - k` bits.
tag_bits_lem : (h : Hash) → h.n < 2 ^ 64 → h.k ≤ h.n → tag_bits h ≡ h.n - h.k
tag_bits_lem h lt le = omega arith

-- The index of an `n`-bit key is inside the table.
pub index-lt_size :
    (h : Hash) (key : ℕ)
    → h.n < 2 ^ 64
    → h.k ≤ h.n
    → h.size ≡ 2 ^ h.k
    → key < 2 ^ h.n
    → hash_index h key < h.size
unfolding hash_index
index-lt_size h key narrow split sized small =
    let whole : h.n ≡ h.k + (h.n - h.k) = omega arith in
    let product : 2 ^ h.n ≡ 2 ^ h.k * 2 ^ (h.n - h.k) =
      ap (λ e. 2 ^ e) whole ∙ pow-add h.k (h.n - h.k) in
    rw (tag_bits_lem h narrow split, sized)
      ((div-lt_iff_lt-mul (pow_pos (h.n - h.k))).1 (rw (← product) small))

-- Without the bound the index lies outside.
pub index-ge_size :
    (h : Hash) (key : ℕ)
    → h.n < 2 ^ 64
    → h.k ≤ h.n
    → h.size ≡ 2 ^ h.k
    → 2 ^ h.n ≤ key
    → h.size ≤ hash_index h key
unfolding hash_index
index-ge_size h key narrow split sized big =
    let whole : h.n ≡ h.k + (h.n - h.k) = omega arith in
    let product : 2 ^ h.n ≡ 2 ^ h.k * 2 ^ (h.n - h.k) =
      ap (λ e. 2 ^ e) whole ∙ pow-add h.k (h.n - h.k) in
    rw (tag_bits_lem h narrow split, sized)
      ((le-div_iff_mul-le (pow_pos (h.n - h.k))).1 (rw (← product) big))

-- The index and the tag of `hashCode` determine a key of `n` bits.
pub key-index_tag :
    (h : Hash) (key : ℕ) → key < 2 ^ h.n → key ≡ hash_index h key * 2 ^ tag_bits h + hash_tag h key
unfolding hash_index hash_tag
key-index_tag h key small = rw (mod-eq_of_lt small) (sym (div-add-mod' key (2 ^ tag_bits h)))

pub Based-homes :
    (h : Hash) (i : ℕ) (xs : List Item) → All (λ x. Home h i x.1) xs → Based (i * 2 ^ tag_bits h) xs
Based-homes h i [] a = tt
Based-homes h i ((q, v) ∷ xs) a =
    (rw (← a.0.1, ← a.0.2) (key-index_tag h v.key a.0.0), Based-homes h i xs a.1)

-- What the table stands for: the value of the first node that holds a key.
abbrev pub find_value : ℕ → List Item → Option Ptr
find_value key [] = none
find_value key ((q, v) ∷ xs) = if v.key == key then some v.value else find_value key xs

abbrev pub find_ring : ℕ → Option Ring → Option Ptr
find_ring key none = none
find_ring key (some r) = find_value key (items r)

abbrev pub view : Hash → (ℕ → Option Ring) → ℕ → Option Ptr
view h rings key = find_ring key (rings (hash_index h key))

-- The nodes of a bucket's ring, counted.
abbrev pub ring_size : Option Ring → ℕ
ring_size none = 0
ring_size (some r) = length (items r)

-- The rings with another one in bucket `i`.
abbrev pub put_ring : (ℕ → Option Ring) → ℕ → Option Ring → ℕ → Option Ring
put_ring rings i o j = if j == i then o else rings j

pub view-put_ring :
    (h : Hash) (rings : ℕ → Option Ring) (i : ℕ) (o : Option Ring) (k : ℕ)
    → view h (put_ring rings i o) k
      ≡ (if hash_index h k == i then find_ring k o else view h rings k)
view-put_ring h rings i o k = elim (Bool-cases (hash_index h k == i)) [
  | inl same ↦ rw same refl
  | inr away ↦ rw away refl
]
