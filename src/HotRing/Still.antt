-- ===== src/HotRing/Still.antt =====
-- hotring/hotring.c: two memories that differ in the counters of nodes and heads at most.
use jeopardy.Prelude.{◌≡◌, refl, Option, none, some, arith, inl, inr, Bool-cases, ◌==◌, ==_iff}
use jeopardy.Memory.{Ptr, Cells, read, write, read-write_self, read-write_ne}
use jeopardy.HotRing.State.{Node, Head, Mem}
use jeopardy.HotRing.Get.{counted, head_counted}

-- A node, or a head, but for its counter.
abbrev pub uncounted : Option Node → Option Node
uncounted none = none
uncounted (some v) = let l = v.list in some (record v { list = record l { counter = 0 } })

abbrev pub head_uncounted : Option Head → Option Head
head_uncounted none = none
head_uncounted (some h) = some (record h { counter = 0 })

-- The links, keys and values of the nodes, where the heads lead and whether they are active, the tables
-- and the number of requests are as they were.
pub record Still (m m' : Mem) : Type 0 where
  pub nodes : (p : Ptr) → uncounted (read m'.nodes p) ≡ uncounted (read m.nodes p)
  pub heads : (p : Ptr) → head_uncounted (read m'.heads p) ≡ head_uncounted (read m.heads p)
  pub hashes : m'.hashes ≡ m.hashes
  pub requests : m'.nr_request ≡ m.nr_request
  pub current : m'.cur_hash ≡ m.cur_hash

pub read-counted :
    (c : Cells Node) (q : Ptr) (v : Node)
    → read c q ≡ some v
    → (p : Ptr) → uncounted (read (write c q (counted v)) p) ≡ uncounted (read c p)
read-counted c q v e p = elim (Bool-cases (p == q)) [
  | inl same ↦ let here = (==_iff p q).0 same in rw (here, e, read-write_self) refl
  | inr away ↦ rw (read-write_ne c q p (counted v) (λ x. ground arith)) refl
]

pub read-head_counted :
    (c : Cells Head) (q : Ptr) (h : Head)
    → read c q ≡ some h
    → (p : Ptr) → head_uncounted (read (write c q (head_counted h)) p) ≡ head_uncounted (read c p)
read-head_counted c q h e p = elim (Bool-cases (p == q)) [
  | inl same ↦ let here = (==_iff p q).0 same in rw (here, e, read-write_self) refl
  | inr away ↦ rw (read-write_ne c q p (head_counted h) (λ x. ground arith)) refl
]
