-- ===== src/Solver/Choice.antt =====
-- sudoku.cc: the choice of the column that is covered next.
use network_lib.Base.{
  has, true, ℕ, zero, suc, ◌^◌, ◌<◌, ◌≤◌, ◌≡◌, refl, false, some, List, [], ◌∷◌, length, ◌==◌, ltb,
  arith, Bool-cases, inl, inr, ◌⊎◌,
}
use network_lib.Solver.{Nodes, min_column, get_min_column, int_gt}
use network_lib.Solver.Loops.{Chain}

-- The sizes of the columns in the list are not negative.
abbrev pub AllSized : Nodes → List ℕ → Type 0
AllSized m [] = Unit {0}
AllSized m (x ∷ xs) = (m.size x < 2 ^ 31) × AllSized m xs

-- No column in the list is smaller than `s`.
abbrev pub AllAtLeast : Nodes → ℕ → List ℕ → Type 0
AllAtLeast m s [] = Unit {0}
AllAtLeast m s (x ∷ xs) = (s ≤ m.size x) × AllAtLeast m s xs

abbrev pub IsIn : ℕ → List ℕ → Type 0
IsIn c [] = ⊥
IsIn c (x ∷ xs) = (c ≡ x) ⊎ IsIn c xs

-- `c` is of the columns, and no other one is smaller, or it has one row at most.
abbrev pub IsChosen : Nodes → ℕ → List ℕ → Type 0
IsChosen m c cols = IsIn c cols × ((m.size c ≤ 1) ⊎ AllAtLeast m (m.size c) cols)

int_gt_lem : (a b : ℕ) → a < 2 ^ 31 → b < 2 ^ 31 → int_gt a b ≡ ltb b a
int_gt_lem a b h k = ground arith

module _ (m : Nodes) (root : ℕ) where
  -- What the loop returns, started with `c`, for the columns in the list.
  abbrev Found : ℕ → List ℕ → ℕ → Type 0
  Found c cols d =
      ((d ≡ c) ⊎ IsIn d cols)
      × ((m.size d ≤ 1) ⊎ ((m.size d ≤ m.size c) × AllAtLeast m (m.size d) cols))

  min_column-Found :
      (n c here : ℕ) (cols : List ℕ)
      → Chain m.right root here cols
      → AllSized m cols
      → length cols < n
      → 1 < m.size c
      → m.size c < 2 ^ 31
      → (d : ℕ) × (min_column n root m c here (m.size c) ≡ some d) × Found c cols d
  unfolding min_column
  min_column-Found zero c here cols e s h k z = absurd (omega arith)
  min_column-Found (suc n) c here [] e s h k z =
      (c, ground arith, (inl refl, inr (omega arith, tt)))
  min_column-Found (suc n) c here (x ∷ xs) (e, ne, rest) (sx, s) h k z =
      let off : (here == root) ≡ false = ground arith in
      let gt = int_gt_lem (m.size c) (m.size x) z sx in
      let gt1 = int_gt_lem (m.size x) 1 sx (omega arith) in
      elim (Bool-cases (ltb (m.size x) (m.size c))) [
        | inl less ↦ elim (Bool-cases (ltb 1 (m.size x))) [
          | inl many ↦
              let (d, on, (place, found)) =
                min_column-Found n x (m.right x) xs rest s (omega arith) (ground arith) sx in
              (
                d,
                ground (arith, off, gt, gt1, on),
                (
                  inr place,
                  elim found [
                    | inl one ↦ inl one
                    | inr (low, all) ↦ inr (ground arith, (low, all))
                  ],
                ),
              )
          | inr one ↦ (x, ground (arith, off, gt, gt1), (inr (inl refl), inl (ground arith)))
        ]
        | inr more ↦
            let (d, on, (place, found)) =
              min_column-Found n c (m.right x) xs rest s (omega arith) k z in
            (
              d,
              ground (arith, off, gt, on),
              (
                elim place [ inl same ↦ inl same | inr there ↦ inr (inr there) ],
                elim found [ inl one ↦ inl one | inr (low, all) ↦ inr (low, (ground arith, all)) ],
              ),
            )
      ]

  -- Of the columns that are not covered, at least one, `getMinColumn` returns one that has one row at
  -- most, or that no other one is smaller than, if no size is negative and the fuel is above the
  -- number of the columns.
  pub get_min_column-IsChosen :
      (n c : ℕ) (cols : List ℕ)
      → Chain m.right root (m.right root) (c ∷ cols)
      → AllSized m (c ∷ cols)
      → length cols < n
      → (d : ℕ) × (get_min_column n root m ≡ some d) × IsChosen m d (c ∷ cols)
  unfolding get_min_column
  get_min_column-IsChosen n c cols (e, ne, rest) (z, s) h =
      let gt = int_gt_lem (m.size c) 1 z (omega arith) in
      elim (Bool-cases (ltb 1 (m.size c))) [
        | inl many ↦
            let (d, on, (place, found)) =
              min_column-Found n c (m.right c) cols rest s h (ground arith) z in
            (
              d,
              ground (arith, e, gt, on),
              (place, elim found [ inl one ↦ inl one | inr least ↦ inr least ]),
            )
        | inr one ↦ (c, ground (arith, e, gt), (inl refl, inl (ground arith)))
      ]

  -- Whatever the sizes are, one of the columns is returned.
  min_column_in :
      (n c here size : ℕ) (cols : List ℕ)
      → Chain m.right root here cols
      → length cols < n
      → (d : ℕ) × (min_column n root m c here size ≡ some d) × ((d ≡ c) ⊎ (has d cols ≡ true))
  unfolding min_column
  min_column_in zero c here size cols e h = absurd (omega arith)
  min_column_in (suc n) c here size [] e h = (c, ground arith, inl refl)
  min_column_in (suc n) c here size (x ∷ xs) (e, ne, rest) h =
      let off : (here == root) ≡ false = ground arith in
      elim (Bool-cases (int_gt size (m.size x))) [
        | inl less ↦ elim (Bool-cases (int_gt (m.size x) 1)) [
          | inl many ↦
              let (d, on, place) = min_column_in n x (m.right x) (m.size x) xs rest (omega arith) in
              (d, ground (arith, off, less, many, on), inr (ground (arith, place)))
          | inr one ↦ (x, ground (arith, off, less, one), inr (ground arith))
        ]
        | inr more ↦
            let (d, on, place) = min_column_in n c (m.right x) size xs rest (omega arith) in
            (d, ground (arith, off, more, on), ground (arith, place))
      ]

  pub get_min_column_in :
      (n c : ℕ) (cols : List ℕ)
      → Chain m.right root (m.right root) (c ∷ cols)
      → length cols < n
      → (d : ℕ) × (get_min_column n root m ≡ some d) × (has d (c ∷ cols) ≡ true)
  unfolding get_min_column
  get_min_column_in n c cols (e, ne, rest) h = elim (Bool-cases (int_gt (m.size c) 1)) [
    | inl many ↦
        let (d, on, place) = min_column_in n c (m.right c) (m.size c) cols rest h in
        (d, ground (arith, e, many, on), ground (arith, place))
    | inr one ↦ (c, ground (arith, e, one), ground arith)
  ]
