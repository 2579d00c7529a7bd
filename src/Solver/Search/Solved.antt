-- ===== src/Solver/Search/Solved.antt =====
-- sudoku.cc: the search comes to its end, and what it returns.
use network_lib.Base.{
  ℕ, ◌+◌, ◌≤◌, ◌≡◌, ◌⊎◌, Bool, true, false, Option, some, List, [], ◌∷◌, ◌++◌, map, length, has,
  count, Once, remove, count-remove, has-remove, Once-remove, length-remove, arith,
}
use network_lib.Solver.Grid.{Plan, AllApart}
use network_lib.Solver.Grid.Rows.{AllOutside-ne}
use network_lib.Solver.Search.{Search}
use network_lib.Solver.Search.Others.{remove_all}
use network_lib.Solver.Search.Fill.{AllKnown, written}

-- The columns of the rows in the list, each row's one after the other.
abbrev pub columns_of : Plan → List ℕ → List ℕ
columns_of p [] = []
columns_of p (r ∷ rs) = map p.column (r ∷ p.mates r) ++ columns_of p rs

pub count-append : (x : ℕ) (xs ys : List ℕ) → count x (xs ++ ys) ≡ count x xs + count x ys
count-append x [] ys = omega arith
count-append x (y ∷ xs) ys = omega (arith, count-append x xs ys)

pub count-columns_of :
    (p : Plan) (x : ℕ) (rs : List ℕ) (r : ℕ)
    → count x (columns_of p (rs ++ r ∷ []))
      ≡ count x (columns_of p rs) + count x (map p.column (r ∷ p.mates r))
count-columns_of p x [] r = omega (arith, count-append x (map p.column (r ∷ p.mates r)) [])
count-columns_of p x (s ∷ rs) r = omega (
  arith,
  count-append x (map p.column (s ∷ p.mates s)) (columns_of p (rs ++ r ∷ [])),
  count-append x (map p.column (s ∷ p.mates s)) (columns_of p rs),
  count-columns_of p x rs r,
)

pub count-remove_all :
    (col : ℕ → ℕ) (x : ℕ) (xs cols : List ℕ)
    → Once cols
    → AllApart col xs
    → ((y : ℕ) → has y xs ≡ true → has (col y) cols ≡ true)
    → count x cols ≡ count x (map col xs) + count x (remove_all col xs cols)
count-remove_all col x [] cols o a h = omega arith
count-remove_all col x (y ∷ ys) cols o (out, a) h =
    let left : (z : ℕ) → has z ys ≡ true → has (col z) (remove (col y) cols) ≡ true = λ z hz.
      ground (
        arith,
        has-remove (col z) (col y) cols,
        h z (ground (arith, hz)),
        AllOutside-ne col (col y) z ys out hz,
      ) in
    omega (
      arith,
      count-remove x (col y) cols o (h y (ground arith)),
      count-remove_all col x ys (remove (col y) cols) (Once-remove (col y) cols o) a left,
    )

pub length-remove_all :
    (col : ℕ → ℕ) (xs cols : List ℕ) → length (remove_all col xs cols) ≤ length cols
length-remove_all col [] cols = omega arith
length-remove_all col (x ∷ xs) cols =
    omega (arith, length-remove_all col xs (remove (col x) cols), length-remove (col x) cols)

-- The search has chosen rows that cover each of the columns once, and written the board.
pub record Solved (p : Plan) (cell digit : ℕ → ℕ) (cols : List ℕ) (s t : Search) : Type 0 where
  pub chosen : List ℕ
  pub chosen_known : AllKnown p.known chosen
  pub exact : (x : ℕ) → count x (columns_of p chosen) ≡ count x cols
  pub stacked : t.stack ≡ chosen ++ s.stack
  pub board : t.inout ≡ written cell digit t.stack s.inout

-- The rows cover each of the columns once, and no other.
abbrev pub IsCover : Plan → List ℕ → List ℕ → Type 0
IsCover p cols rs = AllKnown p.known rs × ((x : ℕ) → count x (columns_of p rs) ≡ count x cols)

-- What `solve` returns: `false` and the state as it was, where there is no solution, or `true` and
-- a solution.
abbrev pub Outcome : Plan → (ℕ → ℕ) → (ℕ → ℕ) → List ℕ → Search → Option (Bool × Search) → Type 0
Outcome p cell digit cols s o =
    ((o ≡ some (false, s)) × ((rs : List ℕ) → ¬ IsCover p cols rs))
    ⊎ ((t : Search) × (o ≡ some (true, t)) × Solved p cell digit cols s t)
