-- ===== src/Solver/Build/Turns.antt =====
-- sudoku.cc: the four nodes of each row, by their numbers.
use network_lib.Base.{
  ℕ, suc, ◌+◌, ◌-◌, ◌*◌, ◌/◌, ◌%◌, ◌<◌, ◌≡◌, ◌≢◌, sym, ◌∙◌, subst, true, false, List, [], ◌∷◌, has,
  ◌==◌, if◌then◌else◌, arith, Bool-cases, inl, inr, ◌&&◌, not,
}

module _ (k : ℕ) where
  -- The place of a node in its row, and the row's first node.
  abbrev turn : ℕ → ℕ
  turn x = (x - suc k) % 4

  abbrev pub first_of : ℕ → ℕ
  first_of x = x - turn x

  abbrev pub mates_of : ℕ → List ℕ
  mates_of x =
      if turn x == 0
      then (x + 1) ∷ (x + 2) ∷ (x + 3) ∷ []
      else if turn x == 1
      then (x + 1) ∷ (x + 2) ∷ (x - 1) ∷ []
      else if turn x == 2
      then (x + 1) ∷ (x - 2) ∷ (x - 1) ∷ []
      else (x - 3) ∷ (x - 2) ∷ (x - 1) ∷ []

  pub has-mates_of :
      (x z : ℕ) → k < x → has z (mates_of x) ≡ (not (z == x) && first_of z == first_of x)
  has-mates_of x z h = ground arith

  pub mates_of0 :
      (q : ℕ)
      → mates_of (suc k + 4 * q)
        ≡ (suc k + 4 * q + 1) ∷ (suc k + 4 * q + 2) ∷ (suc k + 4 * q + 3) ∷ []
  mates_of0 q = ground arith

  pub mates_of1 :
      (q : ℕ)
      → mates_of (suc k + 4 * q + 1)
        ≡ (suc k + 4 * q + 2) ∷ (suc k + 4 * q + 3) ∷ (suc k + 4 * q) ∷ []
  mates_of1 q = ground arith

  pub mates_of2 :
      (q : ℕ)
      → mates_of (suc k + 4 * q + 2)
        ≡ (suc k + 4 * q + 3) ∷ (suc k + 4 * q) ∷ (suc k + 4 * q + 1) ∷ []
  mates_of2 q = ground arith

  pub mates_of3 :
      (q : ℕ)
      → mates_of (suc k + 4 * q + 3)
        ≡ (suc k + 4 * q) ∷ (suc k + 4 * q + 1) ∷ (suc k + 4 * q + 2) ∷ []
  mates_of3 q = ground arith

  -- What holds of the four nodes of each row holds of all nodes of the rows.
  pub by_turn :
      (P : ℕ → Type 0) (count x : ℕ)
      → ((q : ℕ) → q < count → P (suc k + 4 * q))
      → ((q : ℕ) → q < count → P (suc k + 4 * q + 1))
      → ((q : ℕ) → q < count → P (suc k + 4 * q + 2))
      → ((q : ℕ) → q < count → P (suc k + 4 * q + 3))
      → k < x
      → x < suc k + 4 * count
      → P x
  by_turn P count x a b c d h l =
      let q = (x - suc k) / 4 in
      let less : q < count = omega arith in
      elim (Bool-cases (turn x == 0)) [
        | inl e ↦ subst P (start_at e) (a q less)
        | inr ne ↦ elim (Bool-cases (turn x == 1)) [
          | inl e ↦ subst P (at 1 e) (b q less)
          | inr nf ↦ elim (Bool-cases (turn x == 2)) [
            | inl e ↦ subst P (at 2 e) (c q less)
            | inr ng ↦ subst P (rest ne nf ng) (d q less)
          ]
        ]
      ]
    where
      start_at : (turn x == 0) ≡ true → suc k + 4 * ((x - suc k) / 4) ≡ x
      start_at g = let f : turn x ≡ 0 = ground (arith, g) in omega arith

      at : (e : ℕ) → (turn x == e) ≡ true → suc k + 4 * ((x - suc k) / 4) + e ≡ x
      at e g = let f : turn x ≡ e = ground (arith, g) in omega arith

      rest :
          (turn x == 0) ≡ false
          → (turn x == 1) ≡ false
          → (turn x == 2) ≡ false
          → suc k + 4 * ((x - suc k) / 4) + 3 ≡ x
      rest ne nf ng = let f : turn x ≡ 3 = ground (arith, ne, nf, ng) in omega arith

pub ==_eq : (x y : ℕ) → (x == y) ≡ true → x ≡ y
==_eq x y h = ground arith

pub swapped : (f : ℕ → ℕ) (x y : ℕ) → (y ≢ x) × (f y ≡ f x) → (not (x == y) && f x == f y) ≡ true
swapped f x y (ne, e) = ground arith

pub together :
    (f : ℕ → ℕ) (x z : ℕ) → (z == x) ≡ false → f z ≡ f x → (not (z == x) && f z == f x) ≡ true
together f x z ne e = ground arith

apart_from : (f : ℕ → ℕ) (x z : ℕ) → (not (z == x) && f z == f x) ≡ true → (z ≢ x) × (f z ≡ f x)
apart_from f x z h = (λ e. absurd (ground (arith, e)), ground arith)

pub mates_of-first :
    (k x z : ℕ) → k < x → has z (mates_of k x) ≡ true → (z ≢ x) × (first_of k z ≡ first_of k x)
mates_of-first k x z h e = apart_from (first_of k) x z (sym (has-mates_of k x z h) ∙ e)
