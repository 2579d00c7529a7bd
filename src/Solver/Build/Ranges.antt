-- ===== src/Solver/Build/Ranges.antt =====
-- sudoku.cc: what holds after a loop over a range of numbers.
use network_lib.Base.{
  ℕ, zero, suc, ◌+◌, ◌<◌, ◌≤◌, ◌≡◌, refl, ap, ◌∙◌, subst, Option, none, some, ◌>>=◌, arith,
}
use network_lib.Solver.Build.{for_range}

-- A step that has a result and keeps the predicate, which may speak of the step's number, for each
-- number of the range.
pub for_range-holds {ℓ} :
    {A : Type ℓ} (P : ℕ → A → Type 0) (step : ℕ → A → Option A) (i k : ℕ) (a : A)
    → P i a
    → ((j : ℕ) (b : A) → i ≤ j → j < i + k → P j b → (c : A) × (step j b ≡ some c) × P (suc j) c)
    → (c : A) × (for_range i k step a ≡ some c) × P (i + k) c
unfolding for_range
for_range-holds P step i zero a p h = (a, refl, subst (λ j. P j a) (omega arith) p)
for_range-holds P step i (suc k) a p h =
    let (b, e, pb) = h i a (omega arith) (omega arith) p in
    let (c, f, pc) =
      for_range-holds P step (suc i) k b pb (λ j x l m. h j x (omega arith) (omega arith)) in
    (c, ap (λ r. r >>= λ y. for_range (suc i) k step y) e ∙ f, subst (λ j. P j c) (omega arith) pc)

-- A chain that has a result has one up to each of its calls.
pub bind_some {ℓ} :
    {A : Type ℓ} {B : Type ℓ} (o : Option A) (f : A → Option B) (c : B)
    → (o >>= f) ≡ some c
    → (b : A) × (o ≡ some b) × (f b ≡ some c)
bind_some none f c e = absurd (cc)
bind_some (some b) f c e = (b, refl, e)

-- What each step keeps the loop keeps.
pub for_range-keeps {ℓ} :
    {A : Type ℓ} (P : A → Type 0) (step : ℕ → A → Option A) (i k : ℕ) (a c : A)
    → ((j : ℕ) (b e : A) → i ≤ j → j < i + k → P b → step j b ≡ some e → P e)
    → P a
    → for_range i k step a ≡ some c
    → P c
unfolding for_range
for_range-keeps P step i zero a c h p e = subst P (cc) p
for_range-keeps P step i (suc k) a c h p e =
    let (b, eb, rest) = bind_some (step i a) (λ y. for_range (suc i) k step y) c e in
    for_range-keeps P step (suc i) k b c (λ j x y l m. h j x y (omega arith) (omega arith))
      (h i a b (omega arith) (omega arith) p eb) rest
