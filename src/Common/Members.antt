-- ===== src/Common/Members.antt =====
-- Membership in lists of numbers, how often a number occurs, and how many are not yet in a list.
use Prim.Native.Nat.{ℕ, ◌+◌, ◌≤◌, ◌<◌}
use mathlib.Core.Path.{◌≡◌, refl}
use mathlib.Core.Bool.{Bool, true, false, ◌||◌}
use mathlib.Core.List.{List, [], ◌∷◌, ◌++◌}
use native.Mathlib.Omega.{arith}
use neemata.Common.Tests.{◌==◌, if◌then◌else◌}

abbrev pub mem : ℕ → List ℕ → Bool
mem i [] = false
mem i (x ∷ xs) = x == i || mem i xs

abbrev pub occurrences : ℕ → List ℕ → ℕ
occurrences i [] = 0
occurrences i (x ∷ xs) = (if x == i then 1 else 0) + occurrences i xs

-- How many entries of the second list are not in the first.
abbrev pub unseen : List ℕ → List ℕ → ℕ
unseen seen [] = 0
unseen seen (x ∷ xs) = (if mem x seen then 0 else 1) + unseen seen xs

pub occurrences-append :
    (i : ℕ) (xs ys : List ℕ) → occurrences i (xs ++ ys) ≡ occurrences i xs + occurrences i ys
occurrences-append i [] ys = omega arith
occurrences-append i (x ∷ xs) ys = omega (arith, occurrences-append i xs ys)

pub mem-occurrences : (i : ℕ) (xs : List ℕ) → mem i xs ≡ true → 0 < occurrences i xs
mem-occurrences i [] h = ground arith
mem-occurrences i (x ∷ xs) h = ground (arith, mem-occurrences i xs)

pub occurrences-mem : (i : ℕ) (xs : List ℕ) → 0 < occurrences i xs → mem i xs ≡ true
occurrences-mem i [] h = ground arith
occurrences-mem i (x ∷ xs) h = ground (arith, occurrences-mem i xs)

pub mem-append : (i : ℕ) (xs ys : List ℕ) → mem i (xs ++ ys) ≡ (mem i xs || mem i ys)
mem-append i [] ys = refl
mem-append i (x ∷ xs) ys = ground (arith, mem-append i xs ys)

-- The more are seen, the fewer are not.
pub unseen-le :
    (seen seen' xs : List ℕ)
    → ((i : ℕ) → mem i seen ≡ true → mem i seen' ≡ true)
    → unseen seen' xs ≤ unseen seen xs
unseen-le seen seen' [] h = omega arith
unseen-le seen seen' (x ∷ xs) h = ground (arith, h x, unseen-le seen seen' xs h)

pub unseen-lt :
    (seen xs : List ℕ) (i : ℕ)
    → mem i xs ≡ true
    → mem i seen ≡ false
    → unseen (i ∷ seen) xs < unseen seen xs
unseen-lt seen [] i h new = ground arith
unseen-lt seen (x ∷ xs) i h new =
    ground (arith, unseen-lt seen xs i, unseen-le seen (i ∷ seen) xs (λ j k. ground (arith, k)))
