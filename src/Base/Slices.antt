-- ===== src/Base/Slices.antt =====
-- Ranges of an array: reading one, and copying a list over one.
use Prim.Native.Nat.{ℕ, ◌+◌, ◌-◌, ◌≤◌}
use mathlib.Core.Path.{◌≡◌, refl, ap, ◌∙◌}
use mathlib.Core.List.{List, ◌++◌}
use native.Mathlib.Omega.{arith}
use network_lib.Base.Lists.{
  length, take, drop, length-append, length-take, length-drop, take-append, take-append_le,
  drop-append_le, take-append_ge, drop-take, drop-append,
}

module _ {ℓ} {A : Type ℓ} where
  -- `n` elements from index `i` on.
  abbrev pub slice : List A → ℕ → ℕ → List A
  slice xs i n = take n (drop i xs)

  -- `std::copy(ys, ys + n, xs.begin() + i)`
  abbrev pub overwrite : List A → ℕ → List A → List A
  overwrite xs i ys = take i xs ++ (ys ++ drop (i + length ys) xs)

  pub length-slice : (xs : List A) (i n : ℕ) → i + n ≤ length xs → length (slice xs i n) ≡ n
  length-slice xs i n h = omega (arith, length-take n (drop i xs), length-drop i xs)

  pub length-overwrite :
      (xs : List A) (i : ℕ) (ys : List A)
      → i + length ys ≤ length xs
      → length (overwrite xs i ys) ≡ length xs
  length-overwrite xs i ys h = omega (
    arith,
    length-append (take i xs) (ys ++ drop (i + length ys) xs),
    length-append ys (drop (i + length ys) xs),
    length-take i xs,
    length-drop (i + length ys) xs,
  )

  -- What is copied right after a range extends it.
  pub slice-overwrite_end :
      (xs : List A) (r w : ℕ) (ys : List A)
      → r ≤ w
      → w ≤ length xs
      → (n : ℕ) → n ≡ w - r + length ys
      → slice (overwrite xs w ys) r n ≡ slice xs r (w - r) ++ ys
  slice-overwrite_end xs r w ys h k n e =
      ap (take n) (
        drop-append_le (take w xs) (ys ++ drop (w + length ys) xs) r
          (omega (arith, length-take w xs))
        ∙ ap (λ zs. zs ++ (ys ++ drop (w + length ys) xs)) (drop-take r w xs))
      ∙ take-append_ge (slice xs r (w - r)) (ys ++ drop (w + length ys) xs) n (length ys)
          (omega (arith, length-slice xs r (w - r)))
      ∙ ap (λ zs. slice xs r (w - r) ++ zs)
          (take-append ys (drop (w + length ys) xs) (length ys) refl)

  -- What is copied right before a range extends it too.
  pub slice-overwrite_front :
      (xs : List A) (i r k : ℕ) (ys : List A)
      → i + length ys ≡ r
      → r ≤ length xs
      → (n : ℕ) → n ≡ length ys + k
      → slice (overwrite xs i ys) i n ≡ ys ++ slice xs r k
  slice-overwrite_front xs i r k ys e h n en =
      ap (take n) (
        drop-append (take i xs) (ys ++ drop (i + length ys) xs) i (omega (arith, length-take i xs)))
      ∙ take-append_ge ys (drop (i + length ys) xs) n k en
      ∙ ap (λ j. ys ++ slice xs j k) e

  -- Growing the array leaves a range as it was.
  pub slice-append :
      (xs ys : List A) (i n : ℕ) → i + n ≤ length xs → slice (xs ++ ys) i n ≡ slice xs i n
  slice-append xs ys i n h =
      ap (take n) (drop-append_le xs ys i (omega arith))
      ∙ take-append_le (drop i xs) ys n (omega (arith, length-drop i xs))
