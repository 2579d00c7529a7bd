-- ===== src/Solver/Search/Exact.antt =====
-- sudoku.cc: a row of a cover of the columns, and the cover without it.
use network_lib.Base.{
  ℕ, ◌+◌, ◌<◌, ◌≤◌, ◌≡◌, inl, inr, refl, sym, subst, true, List, [], ◌∷◌, map, has, count, arith,
  Bool-cases, ◌==◌,
}
use network_lib.Solver.Loops.{AllOutside}
use network_lib.Solver.Grid.{Plan, IsPlan, AllApart}
use network_lib.Solver.Search.Fill.{AllKnown}
use network_lib.Solver.Search.Solved.{columns_of, count-append}

module _ (col : ℕ → ℕ) where
  count-has : (z : ℕ) (xs : List ℕ) → has z xs ≡ true → 0 < count (col z) (map col xs)
  count-has z [] h = absurd (cc)
  count-has z (y ∷ xs) h = elim (Bool-cases (y == z)) [
    | inl same ↦ let e : y ≡ z = ground arith in ground (arith, e)
    | inr other ↦ ground (arith, count-has z xs)
  ]

  count-found :
      (x : ℕ) (xs : List ℕ) → 0 < count x (map col xs) → (z : ℕ) × (has z xs ≡ true) × (col z ≡ x)
  count-found x [] h = absurd (omega arith)
  count-found x (y ∷ xs) h = elim (Bool-cases (col y == x)) [
    | inl here ↦ (y, ground arith, ground arith)
    | inr other ↦ let (z, hz, e) = count-found x xs (ground arith) in (z, ground (arith, hz), e)
  ]

  count-outside : (x : ℕ) (xs : List ℕ) → AllOutside col x xs → count x (map col xs) ≡ 0
  count-outside x [] a = refl
  count-outside x (y ∷ xs) (ne, a) = ground (arith, count-outside x xs a)

  count-AllApart : (x : ℕ) (xs : List ℕ) → AllApart col xs → count x (map col xs) ≤ 1
  count-AllApart x [] a = omega arith
  count-AllApart x (y ∷ xs) (out, a) = elim (Bool-cases (col y == x)) [
    | inl here ↦
        let e : col y ≡ x = ground arith in
        ground (arith, count-outside x xs (subst (λ z. AllOutside col z xs) e out))
    | inr other ↦ ground (arith, count-AllApart x xs a)
  ]

  count-fewer :
      (x : ℕ) (xs ys : List ℕ)
      → AllApart col xs
      → ((z : ℕ) → has z xs ≡ true → has z ys ≡ true)
      → count x (map col xs) ≤ count x (map col ys)
  count-fewer x xs ys a h = elim (Bool-cases (count x (map col xs) == 0)) [
    | inl none_there ↦ ground arith
    | inr some_there ↦
        let (z, hz, e) = count-found x xs (ground arith) in
        let one = count-AllApart x xs a in
        let many : 0 < count x (map col ys) =
          subst (λ w. 0 < count w (map col ys)) e (count-has z ys (h z hz)) in
        omega arith
  ]

module _ (p : Plan) (n : ℕ) (q : IsPlan p n) where
  -- A row is the same from each of its nodes.
  same_row :
      (r y : ℕ)
      → p.known r ≡ true
      → has y (r ∷ p.mates r) ≡ true
      → (p.known y ≡ true)
        × ((z : ℕ) → has z (y ∷ p.mates y) ≡ true → has z (r ∷ p.mates r) ≡ true)
        × ((z : ℕ) → has z (r ∷ p.mates r) ≡ true → has z (y ∷ p.mates y) ≡ true)
  same_row r y k h = elim (Bool-cases (r == y)) [
    | inl same ↦
        let e : r ≡ y = ground arith in
        (
          subst (λ w. p.known w ≡ true) e k,
          λ z.
              subst (λ w. has z (y ∷ p.mates y) ≡ true → has z (w ∷ p.mates w) ≡ true) (sym e)
                (λ t. t),
          λ z.
              subst (λ w. has z (w ∷ p.mates w) ≡ true → has z (y ∷ p.mates y) ≡ true) (sym e)
                (λ t. t),
        )
    | inr other ↦
        let there : has y (p.mates r) ≡ true = ground arith in
        let ky = q.mates_known r y k there in
        let back = q.mates_sym r y k there in
        (
          ky,
          λ z hz. ground (arith, there, hz, q.mates_trans r y z k there),
          λ z hz. ground (arith, back, hz, q.mates_trans y r z ky back),
        )
  ]

  -- Of the rows of a cover of the columns one has a node in the column, and without this row they
  -- cover the other columns.
  pub split :
      (c : ℕ) (rs : List ℕ)
      → AllKnown p.known rs
      → 0 < count c (columns_of p rs)
      → (y : ℕ) × (rest : List ℕ) × (p.known y ≡ true)
        × (p.column y ≡ c)
        × AllKnown p.known rest
        × ((x : ℕ)
            → count x (columns_of p rs)
              ≡ count x (map p.column (y ∷ p.mates y)) + count x (columns_of p rest))
  split c [] known h = absurd (omega arith)
  split c (r ∷ rs) (kr, known) h = elim (Bool-cases (count c (map p.column (r ∷ p.mates r)) == 0)) [
    | inl not_here ↦
        let (y, rest, ky, ey, krest, counts) = split c rs known (
          omega (
            arith,
            ==_zero not_here,
            count-append c (map p.column (r ∷ p.mates r)) (columns_of p rs),
          )) in
        (
          y,
          r ∷ rest,
          ky,
          ey,
          (kr, krest),
          λ x. omega (
            arith,
            counts x,
            count-append x (map p.column (r ∷ p.mates r)) (columns_of p rs),
            count-append x (map p.column (r ∷ p.mates r)) (columns_of p rest),
          ),
        )
    | inr here ↦
        let (y, hy, ey) = count-found p.column c (r ∷ p.mates r) (ground arith) in
        let (ky, there, back) = same_row r y kr hy in
        (
          y,
          rs,
          ky,
          ey,
          known,
          λ x. omega (
            arith,
            count-append x (map p.column (r ∷ p.mates r)) (columns_of p rs),
            count-fewer p.column x (y ∷ p.mates y) (r ∷ p.mates r) (q.apart y ky) there,
            count-fewer p.column x (r ∷ p.mates r) (y ∷ p.mates y) (q.apart r kr) back,
          ),
        )
  ]
    where
      ==_zero : {k : ℕ} → (k == 0) ≡ true → k ≡ 0
      ==_zero h = ground arith

  -- The columns of the row are there.
  pub split-columns :
      (cols : List ℕ) (y : ℕ) (rest : List ℕ)
      → ((x : ℕ)
          → count x cols ≡ count x (map p.column (y ∷ p.mates y)) + count x (columns_of p rest))
      → (z : ℕ) → has z (y ∷ p.mates y) ≡ true
      → has (p.column z) cols ≡ true
  split-columns cols y rest counts z hz =
      count-positive (p.column z) cols
        (omega (arith, counts (p.column z), count-has p.column z (y ∷ p.mates y) hz))
    where
      count-positive : (x : ℕ) (xs : List ℕ) → 0 < count x xs → has x xs ≡ true
      count-positive x [] h = absurd (omega arith)
      count-positive x (w ∷ xs) h = ground (arith, count-positive x xs)
