-- ===== src/Base/Dict.antt =====
-- `std::map<std::string, V>`: the pairs in the order of their keys.
use Prim.Native.Nat.{ℕ}
use mathlib.Core.Path.{◌≡◌, refl}
use mathlib.Core.Logic.{inl, inr}
use mathlib.Core.Option.{Option, none, some}
use mathlib.Core.List.{List, [], ◌∷◌}
use native.Mathlib.Omega.{arith}
use network_lib.Base.Tests.{if◌then◌else◌, Bool-cases}
use network_lib.Base.Text.{same, same_refl, eq_of_same, precedes}

module _ {ℓ} {V : Type ℓ} where
  abbrev pub lookup : List ℕ → List (List ℕ × V) → Option V
  lookup k [] = none
  lookup k ((j, v) ∷ m) = if same j k then some v else lookup k m

  -- `m[k] = v`
  abbrev pub insert : List ℕ → V → List (List ℕ × V) → List (List ℕ × V)
  insert k v [] = (k, v) ∷ []
  insert k v ((j, w) ∷ m) =
      let later = (j, w) ∷ insert k v m in
      if same j k then (k, v) ∷ m else if precedes k j then (k, v) ∷ (j, w) ∷ m else later

  abbrev pub erase : List ℕ → List (List ℕ × V) → List (List ℕ × V)
  erase k [] = []
  erase k ((j, w) ∷ m) = let rest = erase k m in if same j k then rest else (j, w) ∷ rest

  pub lookup-insert :
      (k j : List ℕ) (v : V) (m : List (List ℕ × V))
      → lookup j (insert k v m) ≡ (if same k j then some v else lookup j m)
  lookup-insert k j v [] = refl
  lookup-insert k j v ((i, w) ∷ m) = elim (Bool-cases (same i k)) [
    | inl met ↦ let e = eq_of_same i k met in ground (arith, e)
    | inr past ↦ ground (arith, lookup-insert k j v m, same_refl j, eq_of_same i j, eq_of_same k j)
  ]

  pub lookup-erase :
      (k j : List ℕ) (m : List (List ℕ × V))
      → lookup j (erase k m) ≡ (if same k j then none else lookup j m)
  lookup-erase k j [] = ground arith
  lookup-erase k j ((i, w) ∷ m) =
      ground
        (arith, lookup-erase k j m, eq_of_same i k, eq_of_same i j, eq_of_same k j, same_refl j)
