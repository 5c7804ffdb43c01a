-- ===== src/DoubleList/Path.antt =====
-- Paths through doubly linked lists, and what redirecting one pair of pointers does to them.
use jeopardy.Prelude.{Apart, ◌≡◌, ◌≢◌, List, [], ◌∷◌, ◌++◌, some, All, Absent, Distinct}
use jeopardy.Memory.{M, ok, Ptr, read, write, read-write_self, read-write_ne}
use jeopardy.DoubleList.Links.{Links}

-- `b` follows `a`, in both directions.
abbrev pub Linked : Links → Ptr → Ptr → Type 0
Linked c a b = (read c.next a ≡ some b) × (read c.prev b ≡ some a)

-- From `a` through `xs` to `z`, which ends the path.
abbrev pub Chain : Links → Ptr → List Ptr → Ptr → Type 0
Chain c a [] z = Linked c a z
Chain c a (x ∷ xs) z = Linked c a x × Chain c x xs z

-- The same without the last step: it stops at the last of `xs`.
abbrev pub Open : Links → Ptr → List Ptr → Type 0
Open c a [] = Unit
Open c a (x ∷ xs) = Linked c a x × Open c x xs

-- The same without the first step.
abbrev pub Tail : Links → List Ptr → Ptr → Type 0
Tail c [] z = Unit
Tail c (y ∷ ys) z = Chain c y ys z

abbrev pub last_of : Ptr → List Ptr → Ptr
last_of a [] = a
last_of a (x ∷ xs) = last_of x xs

abbrev pub first_of : List Ptr → Ptr → Ptr
first_of [] z = z
first_of (y ∷ ys) z = y

-- A ring of links without a repetition: `head`, then `xs`, and back.
abbrev pub Circle : Links → Ptr → List Ptr → Type 0
Circle c head xs = Chain c head xs head × Distinct (head ∷ xs)

-- The pointers between `u` and `v` set in both directions.
abbrev pub link : Ptr → Ptr → Links → Links
link u v c = record { next = write c.next u v; prev = write c.prev v u }

-- A path is cut at a joint, and mended there.
pub cut :
    (c : Links) (a : Ptr) (xs ys : List Ptr) (z : Ptr)
    → Chain c a (xs ++ ys) z
    → Open c a xs × Linked c (last_of a xs) (first_of ys z) × Tail c ys z
cut c a [] [] z h = (tt, h, tt)
cut c a [] (y ∷ ys) z h = (tt, h.0, h.1)
cut c a (x ∷ xs) ys z h = let rest = cut c x xs ys z h.1 in ((h.0, rest.0), rest.1, rest.2)

pub mend :
    (c : Links) (a : Ptr) (xs ys : List Ptr) (z : Ptr)
    → Open c a xs
    → Linked c (last_of a xs) (first_of ys z)
    → Tail c ys z
    → Chain c a (xs ++ ys) z
mend c a [] [] z o l t = l
mend c a [] (y ∷ ys) z o l t = (l, t)
mend c a (x ∷ xs) ys z o l t = (o.0, mend c x xs ys z o.1 l t)

pub last_of-ne : (p a : Ptr) (xs : List Ptr) → a ≢ p → Absent p xs → last_of a xs ≢ p
last_of-ne p a [] ne h = ne
last_of-ne p a (x ∷ xs) ne h = last_of-ne p x xs h.0 h.1

pub first_of-ne : (p : Ptr) (ys : List Ptr) (z : Ptr) → Absent p ys → z ≢ p → first_of ys z ≢ p
first_of-ne p [] z h ne = ne
first_of-ne p (y ∷ ys) z h ne = h.0

-- The fields `next` of `u` and `prev` of `v` overwritten.
abbrev pub redirect : Ptr → Ptr → Ptr → Ptr → Links → Links
redirect u a v b c = record { next = write c.next u a; prev = write c.prev v b }

module _ (c : Links) (u a v b : Ptr) where
  redirect-Linked : (x y : Ptr) → x ≢ u → y ≢ v → Linked c x y → Linked (redirect u a v b c) x y
  redirect-Linked x y nx ny h =
      (rw (read-write_ne c.next u x a nx) h.0, rw (read-write_ne c.prev v y b ny) h.1)

  redirect-Chain :
      (x : Ptr) (xs : List Ptr) (z : Ptr)
      → x ≢ u
      → Absent u xs
      → Absent v xs
      → z ≢ v
      → Chain c x xs z
      → Chain (redirect u a v b c) x xs z
  redirect-Chain x [] z nx hu hv nz h = redirect-Linked x z nx nz h
  redirect-Chain x (y ∷ xs) z nx hu hv nz h =
      (redirect-Linked x y nx hv.0 h.0, redirect-Chain y xs z hu.0 hu.1 hv.1 nz h.1)

  pub redirect-Circle :
      (k : Ptr) (ws : List Ptr)
      → Absent u (k ∷ ws)
      → Absent v (k ∷ ws)
      → Circle c k ws
      → Circle (redirect u a v b c) k ws
  redirect-Circle k ws hu hv h = (redirect-Chain k ws k hu.0 hu.1 hv.1 hv.0 h.0, h.1)

module _ (c : Links) (u v : Ptr) where
  -- A pair of pointers that are neither of the two stays.
  pub link-Linked : (x y : Ptr) → x ≢ u → y ≢ v → Linked c x y → Linked (link u v c) x y
  link-Linked = redirect-Linked c u v v u

  link-Chain :
      (x : Ptr) (xs : List Ptr) (z : Ptr)
      → x ≢ u
      → Absent u xs
      → Absent v xs
      → z ≢ v
      → Chain c x xs z
      → Chain (link u v c) x xs z
  link-Chain = redirect-Chain c u v v u

  pub Linked-link : Linked (link u v c) u v
  Linked-link = (read-write_self c.next u v, read-write_self c.prev v u)

  -- The last node of an open path may be redirected.
  pub link-Open :
      (a : Ptr) (xs : List Ptr)
      → Distinct (a ∷ xs)
      → last_of a xs ≡ u
      → Absent v xs
      → Open c a xs
      → Open (link u v c) a xs
  link-Open a [] d e hv h = tt
  link-Open a (x ∷ xs) d e hv h =
      let na : a ≢ u = λ q. last_of-ne a x xs d.0.0 d.0.1 (cc (q, e)) in
      (link-Linked a x na hv.0 h.0, link-Open x xs d.1 e hv.1 h.1)

  pub link-Open_away :
      (a : Ptr) (xs : List Ptr)
      → a ≢ u
      → Absent u xs
      → Absent v xs
      → Open c a xs
      → Open (link u v c) a xs
  link-Open_away a [] na hu hv h = tt
  link-Open_away a (x ∷ xs) na hu hv h =
      (link-Linked a x na hv.0 h.0, link-Open_away x xs hu.0 hu.1 hv.1 h.1)

  -- The first node of the rest may be redirected.
  pub link-Tail :
      (ys : List Ptr) (z : Ptr)
      → Distinct ys
      → Absent z ys
      → Absent u ys
      → first_of ys z ≡ v
      → Tail c ys z
      → Tail (link u v c) ys z
  link-Tail [] z d hz hu e h = tt
  link-Tail (y ∷ ys) z d hz hu e h =
      link-Chain y ys z hu.0 hu.1 (rw (← e) d.0) (λ q. hz.0 (cc (q, e))) h

  pub link-Tail_away :
      (ys : List Ptr) (z : Ptr)
      → Absent u ys
      → Absent v ys
      → z ≢ v
      → Tail c ys z
      → Tail (link u v c) ys z
  link-Tail_away [] z hu hv nz h = tt
  link-Tail_away (y ∷ ys) z hu hv nz h = link-Chain y ys z hu.0 hu.1 hv.1 nz h

-- A link whose fields are allocated, with any values.
pub record Allocated (c : Links) (p : Ptr) : Type 0 where
  pub next : Ptr
  pub prev : Ptr
  pub has_next : read c.next p ≡ some next
  pub has_prev : read c.prev p ≡ some prev

pub last_of-All : (P : Ptr → Type 0) (a : Ptr) (xs : List Ptr) → P a → All P xs → P (last_of a xs)
last_of-All P a [] pa h = pa
last_of-All P a (x ∷ xs) pa h = last_of-All P x xs h.0 h.1

pub first_of-All : (P : Ptr → Type 0) (ys : List Ptr) (z : Ptr) → All P ys → P z → P (first_of ys z)
first_of-All P [] z h pz = pz
first_of-All P (y ∷ ys) z h pz = h.0

pub link-Circle :
    (c : Links) (u v k : Ptr) (ws : List Ptr)
    → Absent u (k ∷ ws)
    → Absent v (k ∷ ws)
    → Circle c k ws
    → Circle (link u v c) k ws
link-Circle c u v = redirect-Circle c u v v u

-- A run ends, with the ring `zs` after `head`; a ring apart from `touched` stays.
pub record Becomes (run : M Links (Unit {0})) (c : Links) (head : Ptr) (zs touched : List Ptr)
    : Type 0 where
  pub after : Links
  pub returns : run c ≡ ok tt after
  pub circle : Circle after head zs
  pub elsewhere :
      (k : Ptr) (ws : List Ptr) → Circle c k ws → Apart touched (k ∷ ws) → Circle after k ws
