-- ===== src/Base/Decimal.antt =====
-- The decimal text of a number, as `%d` and `std::to_string` print it.
use Prim.Native.Nat.{ℕ, zero, suc, ◌+◌, ◌-◌, ◌*◌, ◌/◌, ◌%◌, ◌^◌, ◌<◌, ◌≤◌}
use mathlib.Core.Path.{◌≡◌, refl, sym, ap, ◌∙◌}
use mathlib.Core.Logic.{inl, inr}
use mathlib.Core.List.{List, [], ◌∷◌, ◌++◌}
use native.Mathlib.Nat.{pow-suc}
use native.Mathlib.Omega.{arith}
use network_lib.Base.Tests.{ltb, if◌then◌else◌, Bool-cases}
use network_lib.Base.Lists.{length, length-append}

-- With fuel: one digit a round.
unfoldable pub digits : ℕ → ℕ → List ℕ
digits zero n = []
digits (suc k) n =
    let high = digits k (n / 10) in (if ltb n 10 then [] else high) ++ (b'0' + n % 10) ∷ []

unfoldable pub decimal : ℕ → List ℕ
decimal n = digits (suc n) n

value_from : ℕ → List ℕ → ℕ
value_from acc [] = acc
value_from acc (c ∷ cs) = value_from (acc * 10 + (c - b'0')) cs

value_from-append :
    (acc : ℕ) (xs ys : List ℕ) → value_from acc (xs ++ ys) ≡ value_from (value_from acc xs) ys
unfolding value_from
value_from-append acc [] ys = refl
value_from-append acc (x ∷ xs) ys = value_from-append (acc * 10 + (x - b'0')) xs ys

value-digits : (k n : ℕ) → n < k → value_from 0 (digits k n) ≡ n
unfolding digits value_from
value-digits zero n h = absurd (omega arith)
value-digits (suc k) n h = elim (Bool-cases (ltb n 10)) [
  | inl small ↦ ground arith
  | inr large ↦
      let high : n / 10 < k = ground arith in
      ground (
        arith,
        value_from-append 0 (digits k (n / 10)) ((b'0' + n % 10) ∷ []),
        value-digits k (n / 10) high,
      )
]

-- No two numbers have the same text.
pub decimal_injective : (m n : ℕ) → decimal m ≡ decimal n → m ≡ n
unfolding decimal
decimal_injective m n e =
    sym (value-digits (suc m) m (omega arith))
    ∙ ap (value_from 0) e
    ∙ value-digits (suc n) n (omega arith)

length-digits-le : (j k n : ℕ) → n < 10 ^ suc j → length (digits k n) ≤ suc j
unfolding digits
length-digits-le j zero n h = omega arith
length-digits-le zero (suc k) n h = let small : n < 10 = omega (arith, pow-suc 10 0) in ground arith
length-digits-le (suc j) (suc k) n h =
    let low : n / 10 < 10 ^ suc j = omega (arith, pow-suc 10 (suc j)) in
    ground (
      arith,
      length-append (digits k (n / 10)) ((b'0' + n % 10) ∷ []),
      length-digits-le j k (n / 10) low,
    )

-- Below a power of ten there are at most so many digits.
pub length-decimal-le : (j n : ℕ) → n < 10 ^ suc j → length (decimal n) ≤ suc j
unfolding decimal
length-decimal-le j n h = length-digits-le j (suc n) n h

lt-length-digits : (j k n : ℕ) → n < k → 10 ^ j ≤ n → j < length (digits k n)
unfolding digits
lt-length-digits j zero n h low = absurd (omega arith)
lt-length-digits zero (suc k) n h low =
    ground
      (arith, length-append (if ltb n 10 then [] else digits k (n / 10)) ((b'0' + n % 10) ∷ []))
lt-length-digits (suc j) (suc k) n h low =
    let p = pow-suc 10 j in
    let q : 10 ^ j ≤ n / 10 = omega (arith, p) in
    let large : 10 ≤ n = omega (arith, lt-length-digits-pos j, p) in
    ground (
      arith,
      length-append (digits k (n / 10)) ((b'0' + n % 10) ∷ []),
      lt-length-digits j k (n / 10),
    )
  where
    lt-length-digits-pos : (i : ℕ) → 0 < 10 ^ i
    lt-length-digits-pos zero = omega arith
    lt-length-digits-pos (suc i) = omega (arith, lt-length-digits-pos i, pow-suc 10 i)

-- From a power of ten on there are more digits.
pub lt-length-decimal : (j n : ℕ) → 10 ^ j ≤ n → j < length (decimal n)
unfolding decimal
lt-length-decimal j n low = lt-length-digits j (suc n) n (omega arith) low

digits_enough : (k l n : ℕ) → n < k → n < l → digits k n ≡ digits l n
unfolding digits
digits_enough zero l n h i = absurd (omega arith)
digits_enough (suc k) zero n h i = absurd (omega arith)
digits_enough (suc k) (suc l) n h i = elim (Bool-cases (ltb n 10)) [
  | inl small ↦ ground arith
  | inr large ↦ ground (arith, digits_enough k l (n / 10))
]

-- The last digit stands behind the others.
pub decimal-eq-append : (n : ℕ) → 10 ≤ n → decimal n ≡ decimal (n / 10) ++ (b'0' + n % 10) ∷ []
unfolding decimal digits
decimal-eq-append n h =
    let e = digits_enough n (suc (n / 10)) (n / 10) (omega arith) (omega arith) in
    ap (λ (xs : List ℕ). xs ++ (b'0' + n % 10) ∷ []) (ground (arith, e))
