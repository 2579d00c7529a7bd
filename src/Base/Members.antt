-- ===== src/Base/Members.antt =====
-- Lists of numbers as sets: whether a number is there, and the list without it.
use Prim.Native.Nat.{ℕ, ◌+◌, ◌≤◌, ◌<◌}
use mathlib.Core.Path.{◌≡◌, refl, ◌∙◌}
use mathlib.Core.Logic.{inl, inr}
use mathlib.Core.Bool.{Bool, true, false, not, ◌&&◌, ◌||◌}
use mathlib.Core.List.{List, [], ◌∷◌, ◌++◌}
use native.Mathlib.Omega.{arith}
use network_lib.Base.Tests.{◌==◌, if◌then◌else◌, Bool-cases}
use network_lib.Base.Lists.{length, count}

abbrev pub has : ℕ → List ℕ → Bool
has x [] = false
has x (y ∷ ys) = y == x || has x ys

abbrev pub remove : ℕ → List ℕ → List ℕ
remove x [] = []
remove x (y ∷ ys) = if y == x then remove x ys else y ∷ remove x ys

-- No number is there twice.
abbrev pub Once : List ℕ → Type 0
Once [] = Unit {0}
Once (x ∷ xs) = (has x xs ≡ false) × Once xs

abbrev pub backwards : List ℕ → List ℕ
backwards [] = []
backwards (x ∷ xs) = backwards xs ++ x ∷ []

pub has-append : (x : ℕ) (xs ys : List ℕ) → has x (xs ++ ys) ≡ (has x xs || has x ys)
has-append x [] ys = refl
has-append x (y ∷ xs) ys = ground (arith, has-append x xs ys)

pub has-backwards : (x : ℕ) (xs : List ℕ) → has x (backwards xs) ≡ has x xs
has-backwards x [] = refl
has-backwards x (y ∷ xs) = ground (arith, has-append x (backwards xs) (y ∷ []), has-backwards x xs)

pub has-remove : (x y : ℕ) (xs : List ℕ) → has x (remove y xs) ≡ (not (x == y) && has x xs)
has-remove x y [] = ground arith
has-remove x y (z ∷ xs) = ground (arith, has-remove x y xs)

pub Once-remove : (x : ℕ) (xs : List ℕ) → Once xs → Once (remove x xs)
Once-remove x [] o = tt
Once-remove x (y ∷ xs) (n, o) = elim (Bool-cases (y == x)) [
  | inl same ↦ rw same (Once-remove x xs o)
  | inr other ↦ rw other (ground (arith, has-remove y x xs), Once-remove x xs o)
]

pub Once-append : (xs : List ℕ) (y : ℕ) → Once xs → has y xs ≡ false → Once (xs ++ y ∷ [])
Once-append [] y o h = (refl, tt)
Once-append (x ∷ xs) y (n, o) h =
    (ground (arith, has-append x xs (y ∷ [])), Once-append xs y o (ground arith))

pub Once-backwards : (xs : List ℕ) → Once xs → Once (backwards xs)
Once-backwards [] o = tt
Once-backwards (x ∷ xs) (n, o) =
    Once-append (backwards xs) x (Once-backwards xs o) (has-backwards x xs ∙ n)

pub length-remove : (x : ℕ) (xs : List ℕ) → length (remove x xs) ≤ length xs
length-remove x [] = omega arith
length-remove x (y ∷ xs) = ground (arith, length-remove x xs)

pub length-remove_lt : (x : ℕ) (xs : List ℕ) → has x xs ≡ true → length (remove x xs) < length xs
length-remove_lt x [] h = absurd (cc)
length-remove_lt x (y ∷ xs) h = ground (arith, length-remove_lt x xs, length-remove x xs)

count-missing : (x : ℕ) (xs : List ℕ) → has x xs ≡ false → count x xs ≡ 0
count-missing x [] h = refl
count-missing x (y ∷ xs) h = ground (arith, count-missing x xs)

remove-missing : (x : ℕ) (xs : List ℕ) → has x xs ≡ false → remove x xs ≡ xs
remove-missing x [] h = refl
remove-missing x (y ∷ xs) h = ground (arith, remove-missing x xs)

-- A number is taken out once, and nothing else is.
pub count-remove :
    (x y : ℕ) (xs : List ℕ)
    → Once xs
    → has y xs ≡ true
    → count x xs ≡ (if y == x then 1 else 0) + count x (remove y xs)
count-remove x y [] o h = absurd (cc)
count-remove x y (z ∷ xs) (n, o) h = ground (arith, n, remove-missing y xs, count-remove x y xs o)
