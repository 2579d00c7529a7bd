-- ===== src/Solver/Tests.antt =====
-- sudoku.cc: a column with one row, whose other node is in a second column.
use network_lib.Base.{
  ltb, ℕ, ◌≡◌, refl, Bool, true, some, List, [], ◌∷◌, ◌==◌, false, not, ◌&&◌, ◌||◌, replicate,
  subst, has, if◌then◌else◌, arith, Bool-cases, inl, inr,
}
use network_lib.Solver.{Nodes, cover, uncover, get_min_column}
use network_lib.Solver.Links.{IsLinked}
use network_lib.Solver.Cover.{Row}
use network_lib.Solver.Restore.{IsColumn, uncover-cover}
use network_lib.Solver.Choice.{IsChosen, get_min_column-IsChosen}
use network_lib.Solver.Build.{Builder, solve_sudoku, max_nodes}
use network_lib.Solver.Build.Answer.{IsAnswer, solve_sudoku-answers}
use network_lib.Solver.Grid.{Plan, IsPlan, Inv}
use network_lib.Solver.Search.{solve}
use network_lib.Solver.Search.Fill.{IsLabelled}
use network_lib.Solver.Search.Solved.{Outcome}
use network_lib.Solver.Search.Solve.{solve-Outcome}

-- The root 0, the columns 1 and 2, and the nodes 3 and 4 of a row.
abbrev matrix : Nodes
matrix = record {
  left = λ x.
      if x == 0
      then 2
      else if x == 1
      then 0
      else if x == 2
      then 1
      else if x == 3
      then 4
      else if x == 4
      then 3
      else x;
  right = λ x.
      if x == 0
      then 1
      else if x == 1
      then 2
      else if x == 2
      then 0
      else if x == 3
      then 4
      else if x == 4
      then 3
      else x;
  up = λ x.
      if x == 1 then 3 else if x == 3 then 1 else if x == 2 then 4 else if x == 4 then 2 else x;
  down = λ x.
      if x == 1 then 3 else if x == 3 then 1 else if x == 2 then 4 else if x == 4 then 2 else x;
  col = λ x. if x == 3 then 1 else if x == 4 then 2 else x;
  name = λ x. if x == 3 then 0 else if x == 4 then 101 else x;
  size = λ x. if x == 1 then 1 else if x == 2 then 1 else 0;
}

abbrev all_live : ℕ → Bool
all_live x = ltb x 5

abbrev one_row : List Row
one_row = (3, 4 ∷ []) ∷ []

matrix-IsLinked : IsLinked matrix all_live
matrix-IsLinked = record {
  up_live = λ x k. ground arith;
  down_live = λ x k. ground arith;
  down_up = λ x k. ground arith;
  up_down = λ x k. ground arith;
  up_col = λ x k. ground arith;
  down_col = λ x k. ground arith;
  sized = λ x. ground arith;
}

matrix-IsColumn : IsColumn matrix all_live 5 1 one_row
matrix-IsColumn = record {
  linked = matrix-IsLinked;
  header = refl;
  in_rows = (
    refl,
    omega arith,
    (λ h. omega (arith, h), tt),
    (refl, tt),
    (refl, λ h. omega (arith, h), refl),
    (refl, λ h. omega (arith, h), refl),
    tt,
  );
  down_ring = (refl, λ h. omega (arith, h), refl);
  up_ring = (refl, λ h. omega (arith, h), refl);
  fits = omega arith;
  left_right = refl;
  right_left = refl;
  left_apart = ((λ h. omega (arith, h), (λ h. omega (arith, h), tt)), tt);
  right_apart = ((λ h. omega (arith, h), (λ h. omega (arith, h), tt)), tt);
}

uncover-cover_example : (u : Nodes) × (cover 5 1 matrix ≡ some u) × (uncover 5 1 u ≡ some matrix)
uncover-cover_example = uncover-cover matrix all_live 5 1 one_row matrix-IsColumn

get_min_column-IsChosen_example :
    (d : ℕ) × (get_min_column 5 0 matrix ≡ some d) × IsChosen matrix d (1 ∷ 2 ∷ [])
get_min_column-IsChosen_example =
    get_min_column-IsChosen matrix 0 5 1 (2 ∷ [])
      (refl, λ h. omega (arith, h), (refl, λ h. omega (arith, h), refl))
      (omega arith, (omega arith, tt)) (omega arith)

abbrev plan : Plan
plan = record {
  root = 0;
  known = λ x. x == 3 || x == 4;
  mates = λ x. if x == 3 then 4 ∷ [] else if x == 4 then 3 ∷ [] else [];
  to_left = matrix.left;
  to_right = matrix.right;
  column = matrix.col;
  label = matrix.name;
}

-- What holds of the nodes 3 and 4 holds of those of the row.
of_row : (P : ℕ → Type 0) → P 3 → P 4 → (x : ℕ) → plan.known x ≡ true → P x
of_row P a b x h = elim (Bool-cases (x == 3)) [
  | inl e ↦ subst P (three e) a
  | inr e ↦ subst P (four e) b
]
  where
    three : (x == 3) ≡ true → 3 ≡ x
    three e = ground arith

    four : (x == 3) ≡ false → 4 ≡ x
    four e = ground (arith, h)

of_cols : (P : ℕ → Type 0) → P 1 → P 2 → (x : ℕ) → has x (1 ∷ 2 ∷ []) ≡ true → P x
of_cols P a b x h = elim (Bool-cases (x == 1)) [
  | inl e ↦ subst P (one e) a
  | inr e ↦ subst P (two e) b
]
  where
    one : (x == 1) ≡ true → 1 ≡ x
    one e = ground arith

    two : (x == 1) ≡ false → 2 ≡ x
    two e = ground (arith, h)

plan-IsPlan : IsPlan plan 5
plan-IsPlan = record {
  right_ring = of_row _ (refl, λ h. omega (arith, h), refl) (refl, λ h. omega (arith, h), refl);
  left_ring = of_row _ (refl, λ h. omega (arith, h), refl) (refl, λ h. omega (arith, h), refl);
  apart = of_row _ ((λ h. omega (arith, h), tt), (tt, tt)) ((λ h. omega (arith, h), tt), (tt, tt));
  few = of_row _ (omega arith) (omega arith);
  mates_known = λ x y h k. ground arith;
  mates_sym = λ x y h k. ground arith;
  mates_trans = λ x y z h k l. inl (ground arith);
  root_apart = refl;
}

abbrev rows_of : ℕ → List ℕ
rows_of c = if c == 1 then 3 ∷ [] else 4 ∷ []

abbrev not_root : ℕ → Bool
not_root x = not (x == 0) && ltb x 5

nodes-IsLinked : IsLinked matrix not_root
nodes-IsLinked = record {
  up_live = λ x k. ground arith;
  down_live = λ x k. ground arith;
  down_up = λ x k. ground arith;
  up_down = λ x k. ground arith;
  up_col = λ x k. ground arith;
  down_col = λ x k. ground arith;
  sized = λ x. ground arith;
}

matrix-Inv : Inv plan 5 matrix not_root (1 ∷ 2 ∷ []) rows_of
matrix-Inv = record {
  core = record {
    left_same = λ x h. refl;
    right_same = λ x h. refl;
    col_same = λ x. refl;
    name_same = λ x. refl;
    linked = nodes-IsLinked;
    ring = of_cols _ (refl, λ h. omega (arith, h), refl) (refl, λ h. omega (arith, h), refl);
    once = of_cols _ (refl, tt) (refl, tt);
    fits = of_cols _ (omega arith) (omega arith);
    complete = λ x l h. ground arith;
    row_live = λ c x h k. ground arith;
    row_known = λ c x h k. ground arith;
    row_column = λ c x h k. ground arith;
    live_column = λ x h. ground arith;
    col_live = λ c h. ground arith;
    col_known = λ c h. ground arith;
    col_column = λ c h. ground arith;
  };
  head = record {
    head_ring = (refl, λ h. omega (arith, h), (refl, λ h. omega (arith, h), refl));
    head_once = (refl, (refl, tt));
    root_out = refl;
    left_right = λ x h. ground arith;
    right_left = λ x h. ground arith;
    left_in = λ x h. ground arith;
    right_in = λ x h. ground arith;
  };
  whole = λ x y l h k. ground arith;
  kept = λ x h k. ground arith;
}

-- The row's names are those of the cell 0 with the value 1.
plan-IsLabelled : IsLabelled plan 81 (λ x. 0) (λ x. 1)
plan-IsLabelled = record { picked = of_row _ refl refl; cell_fits = λ x h. omega arith }

abbrev empty_board : List ℕ
empty_board = replicate 81 0

solve-Outcome_example :
    Outcome plan
      (λ x. 0)
      (λ x. 1)
      (1 ∷ 2 ∷ [])
      (record { nodes = matrix; stack = []; inout = empty_board })
      (solve 3 5 0 (record { nodes = matrix; stack = []; inout = empty_board }))
solve-Outcome_example =
    solve-Outcome plan 5 plan-IsPlan 81 (λ x. 0) (λ x. 1) plan-IsLabelled 3 matrix not_root
      (1 ∷ 2 ∷ []) rows_of [] empty_board (omega arith) (omega arith) matrix-Inv tt refl

abbrev junk : Builder
junk = record { nodes = matrix; columns = λ x. some 7; cur_node = 9 }

solve_sudoku-answers_example :
    (r : List ℕ) × (solve_sudoku 325 max_nodes junk (replicate 81 b'0') ≡ some r) × IsAnswer r
solve_sudoku-answers_example =
    solve_sudoku-answers 325 max_nodes junk (replicate 81 b'0') (λ x. ground arith) refl
      (omega arith) (omega arith) (omega arith)
