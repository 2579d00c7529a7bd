-- ===== src/Buffer/Bytes.antt =====
-- Big-endian bytes: what htobe32 and htobe16 leave in memory, and what be32toh and be16toh read.
use network_lib.Base.{
  ℕ, zero, suc, ◌+◌, ◌*◌, ◌/◌, ◌%◌, ◌^◌, ◌<◌, ◌≡◌, refl, ◌∙◌, List, [], ◌∷◌, ◌++◌, arith, length,
  length-append,
}
use native.Mathlib.Nat.{pow-suc}

-- The low `n` bytes of `x`, the most significant first.
abbrev pub be_bytes : ℕ → ℕ → List ℕ
be_bytes zero x = []
be_bytes (suc n) x = be_bytes n (x / 256) ++ (x % 256) ∷ []

abbrev pub be_value_from : ℕ → List ℕ → ℕ
be_value_from acc [] = acc
be_value_from acc (b ∷ bs) = be_value_from (acc * 256 + b) bs

abbrev pub be_value : List ℕ → ℕ
be_value bs = be_value_from 0 bs

pub length-be_bytes : (n x : ℕ) → length (be_bytes n x) ≡ n
length-be_bytes zero x = refl
length-be_bytes (suc n) x =
    omega
      (arith, length-be_bytes n (x / 256), length-append (be_bytes n (x / 256)) ((x % 256) ∷ []))

be_value_from-append :
    (acc : ℕ) (xs ys : List ℕ)
    → be_value_from acc (xs ++ ys) ≡ be_value_from (be_value_from acc xs) ys
be_value_from-append acc [] ys = refl
be_value_from-append acc (x ∷ xs) ys = be_value_from-append (acc * 256 + x) xs ys

-- A number that fits into `n` bytes is read back from them.
pub be_value-be_bytes : (n x : ℕ) → x < 256 ^ n → be_value (be_bytes n x) ≡ x
be_value-be_bytes zero x h = omega arith
be_value-be_bytes (suc n) x h =
    let high : x / 256 < 256 ^ n = omega (arith, pow-suc 256 n) in
    be_value_from-append 0 (be_bytes n (x / 256)) ((x % 256) ∷ [])
    ∙ omega (arith, be_value-be_bytes n (x / 256) high)
