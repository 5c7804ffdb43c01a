-- ===== src/ChainHash/Valid.antt =====
-- What a well-formed table of chains is, and where a key belongs.
use jeopardy.Prelude.{
  ℕ, ◌%◌, ◌^◌, ◌≡◌, ◌≢◌, ◌≤◌, ◌<◌, refl, ap, sym, ◌∙◌, List, [], ◌∷◌, ◌++◌, map, Option, none, some,
  arith, All, Absent, Apart, length, get_elem?, false, ◌==◌, if◌then◌else◌, ==_iff,
}
use jeopardy.Memory.{Ptr, null, Cells, read, write, read-write_ne, ok}
use jeopardy.DoubleList.Links.{Links}
use jeopardy.DoubleList.Path.{Chain, Circle}
use jeopardy.ChainHash.State.{Hash, Mem, link_of, int_word, hash_code}
use native.Mathlib.Nat.{mod-lt}

-- A bucket's chain: its head, and its nodes in order.
pub record Bucket : Type 0 where
  pub ptr : Ptr
  pub first : Ptr
  pub rest : List Ptr

abbrev pub nodes : Bucket → List Ptr
nodes b = b.first ∷ b.rest

abbrev pub links : Bucket → List Ptr
links b = link_of b.first ∷ map link_of b.rest

-- Which bucket a link or a head belongs to.
pub record Owners : Type 0 where
  pub link : Ptr → ℕ
  pub head : Ptr → ℕ

pub record IsChain (m : Mem) (h : Hash) (o : Owners) (i : ℕ) (b : Bucket) : Type 0 where
  pub slot : get_elem? h.slots i ≡ some b.ptr
  pub ptr_ne : b.ptr ≢ null
  pub loaded : read m.heads b.ptr ≡ some b.first
  pub circle : Circle m.links (link_of b.first) (map link_of b.rest)
  pub owned : All (λ p. o.link p ≡ i) (links b)
  pub head_owned : o.head b.ptr ≡ i

abbrev pub IsBucket : Mem → Hash → Owners → ℕ → Option Bucket → Type 0
IsBucket m h o i none = get_elem? h.slots i ≡ some null
IsBucket m h o i (some b) = IsChain m h o i b

pub record IsTable (m : Mem) (hp : Ptr) (h : Hash) (buckets : ℕ → Option Bucket) : Type 0 where
  pub owners : Owners
  pub loaded : read m.hashes hp ≡ some h
  pub inhabited : h.size ≢ 0
  pub narrow : h.size ≤ 2 ^ 31
  pub spans : length h.slots ≡ h.size
  pub bucket : (i : ℕ) → i < h.size → IsBucket m h owners i (buckets i)

-- The items of a bucket, in the order of its chain.
abbrev pub held : Mem → Option Bucket → List (Option Ptr)
held m none = []
held m (some b) = map (read m.items) (nodes b)

-- Where a key belongs.
abbrev pub place_of : Hash → ℕ → ℕ
place_of h key = int_word key % h.size

-- In a table of at most 2 ^ 31 slots, and not of 0, `hashCode` of every key is a slot's index: the
-- remainder by the size, which the conversions to `int` leave as it is.
pub hash_code-lt_size :
    (m : Mem) (h : Hash) (key : ℕ)
    → h.size ≢ 0
    → h.size ≤ 2 ^ 31
    → (hash_code h key m ≡ ok (place_of h key) m) × (place_of h key < h.size)
unfolding hash_code
hash_code-lt_size m h key ne le =
    let lt : place_of h key < h.size = mod-lt (int_word key) (omega arith) in
    let small : int_word (place_of h key) ≡ place_of h key = ground arith in
    let off : (h.size == 0) ≡ false = ground arith in (rw (off, small) refl, lt)

Chain-Absent :
    (c : Links) (a : Ptr) (xs : List Ptr) (z l : Ptr)
    → Chain c a xs z
    → read c.next l ≡ none
    → Absent l (a ∷ xs)
Chain-Absent c a [] z l k h = (λ e. cc (k.0, h, e), tt)
Chain-Absent c a (x ∷ xs) z l k h = (λ e. cc (k.0.0, h, e), Chain-Absent c x xs z l k.1 h)

-- An address whose link is not allocated is in no ring.
pub Circle-Absent :
    (c : Links) (k : Ptr) (ws : List Ptr) (l : Ptr)
    → Circle c k ws
    → read c.next l ≡ none
    → Absent l (k ∷ ws)
Circle-Absent c k ws l r h = Chain-Absent c k ws k l r.0 h

pub Absent-link_of : (p : Ptr) (xs : List Ptr) → Absent (link_of p) (map link_of xs) → Absent p xs
Absent-link_of p [] h = tt
Absent-link_of p (x ∷ xs) h = (λ e. h.0 (ap link_of e), Absent-link_of p xs h.1)

-- Links that two buckets own are apart.
pub owned-Apart :
    (o : Ptr → ℕ) (i j : ℕ) (xs ys : List Ptr)
    → i ≢ j
    → All (λ p. o p ≡ i) xs
    → All (λ p. o p ≡ j) ys
    → Apart xs ys
owned-Apart o i j [] ys ne a b = tt
owned-Apart o i j (x ∷ xs) ys ne a b = (each ys b, owned-Apart o i j xs ys ne a.1 b)
  where
    each : (ys : List Ptr) → All (λ p. o p ≡ j) ys → Absent x ys
    each [] b = tt
    each (y ∷ ys) b = (λ e. ne (sym a.0 ∙ sym (ap o e) ∙ b.0), each ys b.1)

-- The owners with one more link, or one more head.
abbrev pub owner_added : (Ptr → ℕ) → Ptr → ℕ → Ptr → ℕ
owner_added o q i p = if p == q then i else o p

pub owner_added_ne : (o : Ptr → ℕ) (q i p : ℕ) → p ≢ q → owner_added o q i p ≡ o p
owner_added_ne o q i p ne = let off : (p == q) ≡ false = ground arith in rw off refl

pub owner_added_self : (o : Ptr → ℕ) (q i : ℕ) → owner_added o q i q ≡ i
owner_added_self o q i = rw ((==_iff q q).1 refl) refl

pub owned-added :
    (o : Ptr → ℕ) (q i j : ℕ) (xs : List Ptr)
    → Absent q xs
    → All (λ p. o p ≡ j) xs
    → All (λ p. owner_added o q i p ≡ j) xs
owned-added o q i j [] h a = tt
owned-added o q i j (x ∷ xs) h a =
    (owner_added_ne o q i x h.0 ∙ a.0, owned-added o q i j xs h.1 a.1)

-- A write to an item away from the nodes.
pub map-read-write :
    {A : Type 0} (c : Cells A) (p : Ptr) (v : A) (xs : List Ptr)
    → Absent p xs
    → map (read (write c p v)) xs ≡ map (read c) xs
map-read-write c p v [] h = refl
map-read-write c p v (x ∷ xs) h = rw (read-write_ne c p x v h.0, map-read-write c p v xs h.1) refl

pub map-append_one :
    {A B : Type 0} (f : A → B) (xs : List A) (y : A) → map f (xs ++ y ∷ []) ≡ map f xs ++ f y ∷ []
map-append_one f [] y = refl
map-append_one f (x ∷ xs) y = rw (map-append_one f xs y) refl
