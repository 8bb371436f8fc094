-- ===== src/Prelude/Places.antt =====
-- Reads of a list by index: after a write, and against its prefixes.
use jevmalloc.Prelude.Lists.{length, take, set, get_elem?}
use Prim.Native.Nat.{ℕ, zero, suc, ◌≤◌, ◌<◌}
use mathlib.Core.Path.{◌≡◌, refl, ap}
use mathlib.Core.Logic.{◌≢◌}
use mathlib.Core.List.{List, [], ◌∷◌, ◌++◌}
use mathlib.Core.Option.{none, some}
use native.Mathlib.Omega.{arith}

pub get_elem?-set_same : (xs : List ℕ) (i v : ℕ) → i < length xs → get_elem? (set xs i v) i ≡ some v
get_elem?-set_same [] i v h = absurd (omega arith)
get_elem?-set_same (x ∷ xs) zero v h = refl
get_elem?-set_same (x ∷ xs) (suc i) v h = get_elem?-set_same xs i v (omega arith)

pub get_elem?-set_other :
    (xs : List ℕ) (i j v : ℕ) → j ≢ i → get_elem? (set xs i v) j ≡ get_elem? xs j
get_elem?-set_other [] i j v h = refl
get_elem?-set_other (x ∷ xs) zero zero v h = absurd (h refl)
get_elem?-set_other (x ∷ xs) zero (suc j) v h = refl
get_elem?-set_other (x ∷ xs) (suc i) zero v h = refl
get_elem?-set_other (x ∷ xs) (suc i) (suc j) v h = get_elem?-set_other xs i j v (λ e. h (ap suc e))

pub get_elem?-some_lt : (xs : List ℕ) (i : ℕ) {x : ℕ} → get_elem? xs i ≡ some x → i < length xs
get_elem?-some_lt [] i h = ground arith
get_elem?-some_lt (y ∷ xs) zero h = omega arith
get_elem?-some_lt (y ∷ xs) (suc i) h = omega (arith, get_elem?-some_lt xs i h)

pub get_elem?-none_le : (xs : List ℕ) (i : ℕ) → get_elem? xs i ≡ none → length xs ≤ i
get_elem?-none_le [] i h = omega arith
get_elem?-none_le (y ∷ xs) zero h = ground arith
get_elem?-none_le (y ∷ xs) (suc i) h = omega (arith, get_elem?-none_le xs i h)

pub take-suc :
    (xs : List ℕ) (i : ℕ) {x : ℕ} → get_elem? xs i ≡ some x → take (suc i) xs ≡ take i xs ++ x ∷ []
take-suc [] i h = ground arith
take-suc (y ∷ xs) zero h = ground arith
take-suc (y ∷ xs) (suc i) h = ap (λ r. y ∷ r) (take-suc xs i h)

pub take_all : (xs : List ℕ) → take (length xs) xs ≡ xs
take_all [] = refl
take_all (x ∷ xs) = ap (λ r. x ∷ r) (take_all xs)

-- A list that agrees with another at each of its places begins with it.
pub take_agree :
    (xs ys : List ℕ)
    → length ys ≤ length xs
    → ((j : ℕ) → j < length ys → get_elem? xs j ≡ get_elem? ys j)
    → take (length ys) xs ≡ ys
take_agree xs [] room h = refl
take_agree [] (y ∷ ys) room h = absurd (omega arith)
take_agree (x ∷ xs) (y ∷ ys) room h =
    let head : x ≡ y = ground (arith, h 0 (omega arith)) in
    rw head (ap (λ r. y ∷ r) (take_agree xs ys (omega arith) (λ j below. h (suc j) (omega arith))))
