-- ===== src/Base/Text.antt =====
-- Texts as lists of bytes: comparison, and texts joined at a separator.
use Prim.Native.Nat.{ℕ, zero, suc, ◌+◌, ◌/◌, ◌%◌, ◌<◌}
use mathlib.Core.Path.{◌≡◌, refl}
use mathlib.Core.Logic.{◌≢◌, inl, inr}
use mathlib.Core.Bool.{Bool, true, false, ◌&&◌}
use mathlib.Core.List.{List, [], ◌∷◌, ◌++◌}
use native.Mathlib.Omega.{arith}
use network_lib.Base.Tests.{ltb, ◌==◌, if◌then◌else◌, Bool-cases}
use network_lib.Base.Decimal.{decimal, digits}

abbrev pub same : List ℕ → List ℕ → Bool
same [] [] = true
same [] (y ∷ ys) = false
same (x ∷ xs) [] = false
same (x ∷ xs) (y ∷ ys) = x == y && same xs ys

pub same_refl : (xs : List ℕ) → same xs xs ≡ true
same_refl [] = refl
same_refl (x ∷ xs) = ground (arith, same_refl xs)

pub eq_of_same : (xs ys : List ℕ) → same xs ys ≡ true → xs ≡ ys
eq_of_same [] [] h = refl
eq_of_same [] (y ∷ ys) h = cc
eq_of_same (x ∷ xs) [] h = cc
eq_of_same (x ∷ xs) (y ∷ ys) h = ground (arith, eq_of_same xs ys)

-- Lexicographic order, which `std::string` has.
abbrev pub precedes : List ℕ → List ℕ → Bool
precedes xs [] = false
precedes [] (y ∷ ys) = true
precedes (x ∷ xs) (y ∷ ys) = if x == y then precedes xs ys else ltb x y

pub append_left_cancel : (xs ys zs : List ℕ) → xs ++ ys ≡ xs ++ zs → ys ≡ zs
append_left_cancel [] ys zs e = e
append_left_cancel (x ∷ xs) ys zs e = append_left_cancel xs ys zs (cc)

-- A text without a character: one that ends where the character first stands.
abbrev pub Lacks : ℕ → List ℕ → Type 0
Lacks c [] = Unit {0}
Lacks c (x ∷ xs) = (x ≢ c) × Lacks c xs

pub Lacks-append : (c : ℕ) (xs ys : List ℕ) → Lacks c xs → Lacks c ys → Lacks c (xs ++ ys)
Lacks-append c [] ys h k = k
Lacks-append c (x ∷ xs) ys h k = (h.0, Lacks-append c xs ys h.1 k)

-- Two texts joined at the same separator have the same parts.
pub parts_injective :
    (c : ℕ) (xs xs' ys ys' : List ℕ)
    → Lacks c xs
    → Lacks c xs'
    → xs ++ c ∷ ys ≡ xs' ++ c ∷ ys'
    → (xs ≡ xs') × (ys ≡ ys')
parts_injective c [] [] ys ys' h k e = (refl, cc)
parts_injective c [] (x ∷ xs') ys ys' h k e = absurd (k.0 (cc))
parts_injective c (x ∷ xs) [] ys ys' h k e = absurd (h.0 (cc))
parts_injective c (x ∷ xs) (x' ∷ xs') ys ys' h k e =
    let first : x ≡ x' = cc in
    let r = parts_injective c xs xs' ys ys' h.1 k.1 (cc) in (ground (arith, first, r.0), r.1)

digits-Lacks : (c k n : ℕ) → ((d : ℕ) → d < 10 → b'0' + d ≢ c) → Lacks c (digits k n)
unfolding digits
digits-Lacks c zero n h = tt
digits-Lacks c (suc k) n h =
    let last = h (n % 10) (omega arith) in
    elim (Bool-cases (ltb n 10)) [
      | inl small ↦ rw small (last, tt)
      | inr large ↦ rw large (
          Lacks-append c (digits k (n / 10)) ((b'0' + n % 10) ∷ []) (digits-Lacks c k (n / 10) h)
            (last, tt))
    ]

-- A decimal text has no character but digits.
pub decimal-Lacks : (c n : ℕ) → ((d : ℕ) → d < 10 → b'0' + d ≢ c) → Lacks c (decimal n)
unfolding decimal
decimal-Lacks c n h = digits-Lacks c (suc n) n h
