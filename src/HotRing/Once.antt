-- ===== src/HotRing/Once.antt =====
-- A ring of keys that occur once reads the same from any of its nodes on, and with its counters at 0.
use jeopardy.Prelude.{
  ℕ, ◌+◌, ◌≤◌, ◌≡◌, refl, sym, ◌∙◌, List, [], ◌∷◌, ◌++◌, some, arith, inl, inr, Bool-cases, ◌==◌,
  ==_iff,
}
use jeopardy.Memory.{Ptr, Cells, read, write, read-write_self, read-write_ne}
use jeopardy.HotRing.State.{Node}
use jeopardy.HotRing.Hotspot.{reset}
use jeopardy.HotRing.Ring.{Item, Outside, Apart}
use jeopardy.HotRing.Frame.{Reads}
use jeopardy.HotRing.Amounts.{occurrences}
use jeopardy.HotRing.Resets.{reset_all}
use jeopardy.HotRing.Access.{value_of}
use jeopardy.HotRing.Valid.{find_value}

module _ (k : ℕ) where
  occurrences-append :
      (xs ys : List Item) → occurrences k (xs ++ ys) ≡ occurrences k xs + occurrences k ys
  unfolding occurrences
  occurrences-append [] ys = omega arith
  occurrences-append ((q, v) ∷ xs) ys = let r = occurrences-append xs ys in ground arith

  find-behind :
      (xs ys : List Item) → occurrences k xs ≡ 0 → find_value k (xs ++ ys) ≡ find_value k ys
  unfolding occurrences
  find-behind [] ys none' = refl
  find-behind ((q, v) ∷ xs) ys none' = ground (arith, find-behind xs ys)

  find-front :
      (xs ys : List Item) → occurrences k ys ≡ 0 → find_value k (xs ++ ys) ≡ find_value k xs
  unfolding occurrences
  find-front [] [] none' = refl
  find-front [] ((q, v) ∷ ys) none' = ground (arith, find-front [] ys)
  find-front ((q, v) ∷ xs) ys none' = let r = find-front xs ys none' in ground arith

  pub find-rotate :
      (xs ys : List Item)
      → occurrences k (xs ++ ys) ≤ 1
      → find_value k (ys ++ xs) ≡ find_value k (xs ++ ys)
  find-rotate xs ys once =
      let all = occurrences-append xs ys in
      elim (Bool-cases (occurrences k xs == 0)) [
        | inl out ↦
            let e = (==_iff (occurrences k xs) 0).0 out in
            find-front ys xs e ∙ sym (find-behind xs ys e)
        | inr some' ↦
            let e : occurrences k ys ≡ 0 = ground arith in
            find-behind ys xs e ∙ sym (find-front xs ys e)
      ]

value-reset :
    (c : Cells Node) (q : Ptr) (v : Node) (p : Ptr)
    → read c q ≡ some v
    → value_of (read (write c q (reset v)) p) ≡ value_of (read c p)
value-reset c q v p e = elim (Bool-cases (p == q)) [
  | inl same ↦ let here = (==_iff p q).0 same in rw (here, e, read-write_self) refl
  | inr away ↦ rw (read-write_ne c q p (reset v) (λ x. ground arith)) refl
]

Reads-after :
    (c : Cells Node) (q : Ptr) (v : Node) (xs : List Item)
    → Outside q xs
    → Reads c xs
    → Reads (write c q v) xs
Reads-after c q v [] o r = tt
Reads-after c q v ((p, u) ∷ xs) o r =
    (read-write_ne c q p v o.0 ∙ r.0, Reads-after c q v xs o.1 r.1)

pub value-reset_all :
    (c : Cells Node) (xs : List Item) (p : Ptr)
    → Reads c xs
    → Apart xs
    → value_of (read (reset_all c xs) p) ≡ value_of (read c p)
value-reset_all c [] p r a = refl
value-reset_all c ((q, v) ∷ xs) p r a =
    value-reset_all (write c q (reset v)) xs p (Reads-after c q (reset v) xs a.0 r.1) a.1
    ∙ value-reset c q v p r.0
