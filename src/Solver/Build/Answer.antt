-- ===== src/Solver/Build/Answer.antt =====
-- sudoku.cc: `solveSudoku` comes to its end, and the form of what it returns.
use network_lib.Base.{
  ℕ, zero, suc, ◌+◌, ◌%◌, ◌<◌, ◌≤◌, ◌≡◌, ◌⊎◌, refl, sym, ap, ◌∙◌, subst, Bool, true, false, some,
  List, [], ◌∷◌, map, length, set, length-set, ◌==◌, arith, Bool-cases, inl, inr,
}
use network_lib.Solver.{int_size}
use network_lib.Solver.Search.{Search, solve}
use network_lib.Solver.Search.Fill.{written}
use network_lib.Solver.Search.Solve.{solve-Outcome}
use network_lib.Solver.Build.{
  Builder, max_nodes, construct, digit_of, all_digits, no_solution, answer_of, solve_sudoku,
}
use network_lib.Solver.Build.Flat.{range, length-range}
use network_lib.Solver.Build.Vertical.{placed}
use network_lib.Solver.Build.Matrix.{plan, plan-IsPlan}
use network_lib.Solver.Build.Ready.{matrix-Inv, matrix-IsLabelled, cell_of, value_of}
use network_lib.Solver.Build.Works.{construct-Rowed}

length-map : (f : ℕ → ℕ) (xs : List ℕ) → length (map f xs) ≡ length xs
length-map f [] = refl
length-map f (x ∷ xs) = ap suc (length-map f xs)

-- All bytes are digits.
abbrev pub AllPrinted : List ℕ → Type 0
AllPrinted [] = Unit {0}
AllPrinted (x ∷ xs) = (48 ≤ x) × (x ≤ 57) × AllPrinted xs

all_digits-set :
    (board : List ℕ) (i v : ℕ)
    → all_digits board ≡ true
    → v < 10
    → all_digits (set board i v) ≡ true
all_digits-set [] i v h l = h
all_digits-set (x ∷ xs) zero v h l = ground (arith, h)
all_digits-set (x ∷ xs) (suc i) v h l = ground (arith, h, all_digits-set xs i v)

all_digits-written :
    (cell value : ℕ → ℕ) (xs board : List ℕ)
    → ((x : ℕ) → value x < 10)
    → all_digits board ≡ true
    → all_digits (written cell value xs board) ≡ true
all_digits-written cell value [] board l h = h
all_digits-written cell value (x ∷ xs) board l h =
    all_digits-set (written cell value xs board) (cell x) (value x)
      (all_digits-written cell value xs board l h) (l x)

length-written :
    (cell value : ℕ → ℕ) (xs board : List ℕ) → length (written cell value xs board) ≡ length board
length-written cell value [] board = refl
length-written cell value (x ∷ xs) board =
    length-set (written cell value xs board) (cell x) (value x) ∙ length-written cell value xs board

all_digits-printed :
    (board : List ℕ) → all_digits board ≡ true → AllPrinted (map (λ val. (val + 48) % 256) board)
all_digits-printed [] h = tt
all_digits-printed (x ∷ board) h =
    let low : x < 10 = ground (arith, h) in
    let rest : all_digits board ≡ true = ground (arith, h) in
    (omega arith, omega arith, all_digits-printed board rest)

-- `NoSolution`, or 81 digits.
abbrev pub IsAnswer : List ℕ → Type 0
IsAnswer r = (r ≡ no_solution) ⊎ ((length r ≡ 81) × AllPrinted r)

printed-IsAnswer :
    (cell value : ℕ → ℕ) (xs board : List ℕ)
    → ((x : ℕ) → value x < 10)
    → length board ≡ 81
    → all_digits board ≡ true
    → IsAnswer (map (λ val. (val + 48) % 256) (written cell value xs board))
printed-IsAnswer cell value xs board small len digits =
    let end = written cell value xs board in
    inr (
      length-map (λ val. (val + 48) % 256) end ∙ (length-written cell value xs board ∙ len),
      all_digits-printed end (all_digits-written cell value xs board small digits),
    )

solve-answers :
    (d n : ℕ) (junk : Builder) (board : List ℕ)
    → ((x : ℕ) → junk.nodes.size x < int_size)
    → length board ≡ 81
    → all_digits board ≡ true
    → max_nodes ≤ n
    → 324 < d
    → d ≤ suc n
    → (b : Builder) × (o : Bool × Search) × (construct junk board ≡ some (0, b))
      × (solve d n 0 (record { nodes = b.nodes; stack = []; inout = board }) ≡ some o)
      × IsAnswer (answer_of o)
solve-answers d n junk board sized len digits hn hd dn =
    let (k, b, made, few, low, (count, rows, s)) = construct-Rowed junk board sized len digits in
    let p = plan k count b rows s in
    let cell = cell_of k count b rows s in
    let value = value_of k count b rows s in
    let start : Search = record { nodes = b.nodes; stack = []; inout = board } in
    elim (solve-Outcome p n (plan-IsPlan k count b rows s n (omega arith)) 81 cell value
      (matrix-IsLabelled k count b rows s) d b.nodes (placed b.cur_node) (range 1 k) rows [] board
      dn (omega (arith, length-range 1 k)) (matrix-Inv k count b rows s n (omega arith)) tt len) [
        | inl (e, _) ↦ (b, (false, start), made, e, inl refl)
        | inr (t, e, solved) ↦ (
          b,
          (true, t),
          made,
          e,
          subst (λ z. IsAnswer (map (λ val. (val + 48) % 256) z)) (sym solved.board)
              (printed-IsAnswer cell value t.stack board (λ x. omega arith) len digits),
        )
      ]

-- `solveSudoku` answers each puzzle of 81 bytes, whatever the memory has before, with ints for the
-- sizes: no assertion fails, no access is out of an array, the loops and the recursion end, where the
-- fuel is kMaxNodes or more and the depth is above 324 and at most one above the fuel, and the answer
-- is `NoSolution` or 81 digits.
pub solve_sudoku-answers :
    (d n : ℕ) (junk : Builder) (puzzle : List ℕ)
    → ((x : ℕ) → junk.nodes.size x < int_size)
    → length puzzle ≡ 81
    → max_nodes ≤ n
    → 324 < d
    → d ≤ suc n
    → (r : List ℕ) × (solve_sudoku d n junk puzzle ≡ some r) × IsAnswer r
unfolding solve_sudoku
solve_sudoku-answers d n junk puzzle sized len hn hd dn =
    let board = map digit_of puzzle in
    let long : (length puzzle == 81) ≡ true = ground (arith, len) in
    elim (Bool-cases (all_digits board)) [
      | inl digits ↦
          let (b, o, made, e, form) =
            solve-answers d n junk board sized (length-map digit_of puzzle ∙ len) digits hn hd dn in
          (answer_of o, rw long (rw digits (rw made (rw e refl))), form)
      | inr wrong ↦ (no_solution, rw long (rw wrong refl), inl refl)
    ]
