-- ===== src/Prelude/Disjoint.antt =====
-- Lists of distinct numbers, and their parts.
use Prim.Native.Nat.{ℕ}
use mathlib.Core.Path.{◌≡◌, sym, refl}
use mathlib.Core.Logic.{◌≢◌}
use mathlib.Core.List.{List, [], ◌∷◌, ◌++◌}
use jeopardy.Prelude.Every.{All, All-append, append-All}

abbrev pub Absent : ℕ → List ℕ → Type 0
Absent key ks = All (λ k. k ≢ key) ks

abbrev pub Distinct : List ℕ → Type 0
Distinct [] = Unit
Distinct (x ∷ xs) = Absent x xs × Distinct xs

-- Two lists that share no number.
abbrev pub Apart : List ℕ → List ℕ → Type 0
Apart zs ws = All (λ z. Absent z ws) zs

-- The parts of a list of distinct numbers.
pub Distinct-append :
    (xs ys : List ℕ)
    → Distinct (xs ++ ys)
    → Distinct xs × Distinct ys × All (λ y. Absent y xs) ys × All (λ x. Absent x ys) xs
Distinct-append [] ys d = (tt, d, everywhere ys, tt)
  where
    everywhere : (ys : List ℕ) → All (λ y. Unit {0}) ys
    everywhere [] = tt
    everywhere (y ∷ ys) = (tt, everywhere ys)
Distinct-append (x ∷ xs) ys d =
    let rest = Distinct-append xs ys d.1 in
    let here = All-append (λ k. k ≢ x) xs ys d.0 in
    ((here.0, rest.0), rest.1, both ys here.1 rest.2, (here.1, rest.3))
  where
    both : (ys : List ℕ) → Absent x ys → All (λ y. Absent y xs) ys → All (λ y. Absent y (x ∷ xs)) ys
    both [] a b = tt
    both (y ∷ ys) a b = ((λ e. a.0 (sym e), b.0), both ys a.1 b.1)

All-insert :
    (P : ℕ → Type 0) (new : ℕ) (xs ys : List ℕ) → P new → All P (xs ++ ys) → All P (xs ++ new ∷ ys)
All-insert P new [] ys p h = (p, h)
All-insert P new (x ∷ xs) ys p h = (h.0, All-insert P new xs ys p h.1)

pub Distinct-insert :
    (new : ℕ) (xs ys : List ℕ)
    → Distinct (xs ++ ys)
    → Absent new (xs ++ ys)
    → Distinct (xs ++ new ∷ ys)
Distinct-insert new [] ys d h = (h, d)
Distinct-insert new (x ∷ xs) ys d h =
    (All-insert (λ k. k ≢ x) new xs ys (λ e. h.0 (sym e)) d.0, Distinct-insert new xs ys d.1 h.1)

All-remove : (P : ℕ → Type 0) (e : ℕ) (xs ys : List ℕ) → All P (xs ++ e ∷ ys) → All P (xs ++ ys)
All-remove P e [] ys h = h.1
All-remove P e (x ∷ xs) ys h = (h.0, All-remove P e xs ys h.1)

pub Distinct-remove : (e : ℕ) (xs ys : List ℕ) → Distinct (xs ++ e ∷ ys) → Distinct (xs ++ ys)
Distinct-remove e [] ys d = d.1
Distinct-remove e (x ∷ xs) ys d = (All-remove (λ k. k ≢ x) e xs ys d.0, Distinct-remove e xs ys d.1)

pub Absent-middle : (e : ℕ) (xs ys : List ℕ) → Distinct (xs ++ e ∷ ys) → Absent e (xs ++ ys)
Absent-middle e [] ys d = d.0
Absent-middle e (x ∷ xs) ys d =
    (λ q. (All-append (λ k. k ≢ x) xs (e ∷ ys) d.0).1.0 (sym q), Absent-middle e xs ys d.1)

pub append-Distinct :
    (xs ys : List ℕ) → Distinct xs → Distinct ys → Apart xs ys → Distinct (xs ++ ys)
append-Distinct [] ys d e a = e
append-Distinct (x ∷ xs) ys d e a =
    (append-All (λ k. k ≢ x) xs ys d.0 a.0, append-Distinct xs ys d.1 e a.1)

absent_all : (zs : List ℕ) → Apart zs []
absent_all [] = tt
absent_all (z ∷ zs) = (tt, absent_all zs)

absent_each : (w : ℕ) (ws zs : List ℕ) → Absent w zs → Apart zs ws → Apart zs (w ∷ ws)
absent_each w ws [] h a = tt
absent_each w ws (z ∷ zs) h a = ((λ e. h.0 (sym e), a.0), absent_each w ws zs h.1 a.1)

pub Apart-sym : (zs ws : List ℕ) → Apart zs ws → Apart ws zs
Apart-sym [] ws a = absent_all ws
Apart-sym (z ∷ zs) ws a = absent_each z zs ws a.0 (Apart-sym zs ws a.1)

pub append-nil {ℓ} : {A : Type ℓ} → (xs : List A) → xs ++ [] ≡ xs
append-nil [] = refl
append-nil (x ∷ xs) = rw (append-nil xs) refl
