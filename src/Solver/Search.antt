-- ===== src/Solver/Search.antt =====
-- lotus_project/examples/sudoku/sudoku.cc: the search. `none` stands for the end of the fuel, a write
-- out of the board, or a stack that is empty.
pub mod Others
pub mod Fill
pub mod Solved
pub mod Exact
pub mod Rows
pub mod Solve
use network_lib.Base.{
  ℕ, zero, suc, ◌%◌, Bool, true, false, Option, none, some, List, [], ◌∷◌, ◌==◌, ltb, if◌then◌else◌,
  ◌>>=◌, ◌>>◌, assert, length, set,
}
use network_lib.Solver.{Nodes, walk, go_left, go_right, cover, uncover, get_min_column}

-- `stack` has the last node first. `inout` is the board.
pub record Search : Type 0 where
  pub nodes : Nodes
  pub stack : List ℕ
  pub inout : List ℕ

-- The loop over a row's nodes that looks for a cell and a value. `cell` and `val` are `none` for -1.
pub find_cell : ℕ → Nodes → ℕ → Option ℕ → Option ℕ → Option (ℕ × ℕ)
find_cell zero m p cell val = none
find_cell (suc n) m p (some cell) (some val) = some (cell, val)
find_cell (suc n) m p cell val = elim (ltb (m.name p) 100) [
  | true ↦ find_cell n m (m.right p) (some (m.name p)) val
  | false ↦ find_cell n m (m.right p) cell (some (m.name p % 10))
]

pub write_cell : ℕ → Nodes → List ℕ → ℕ → Option (List ℕ)
unfolding find_cell
write_cell n m inout p =
    find_cell n m p none none >>= λ r. assert (ltb r.0 (length inout)) >> some (set inout r.0 r.1)

-- The rows of the stack are written, the first one first.
pub write_board : ℕ → Nodes → List ℕ → List ℕ → Option (List ℕ)
unfolding write_cell
write_board n m [] inout = some inout
write_board n m (p ∷ stack) inout = write_board n m stack inout >>= λ board. write_cell n m board p

pub cover_others : ℕ → ℕ → Nodes → Option Nodes
unfolding walk cover
cover_others n row m = walk go_right (λ j u. cover n (u.col j) u) n row (m.right row) m

pub uncover_others : ℕ → ℕ → Nodes → Option Nodes
unfolding walk uncover
uncover_others n row m = walk go_left (λ j u. uncover n (u.col j) u) n row (m.left row) m

pub pop : Search → Option Search
pop s = elim s.stack [ [] ↦ none | x ∷ xs ↦ some (record s { stack = xs }) ]

-- The loop over the rows of the column `c`; `recur` is the recursive call of `solve`.
pub try_rows : (Search → Option (Bool × Search)) → ℕ → ℕ → ℕ → ℕ → Search → Option (Bool × Search)
unfolding cover_others uncover_others pop uncover
try_rows recur n c zero row s = none
try_rows recur n c (suc k) row s = elim (row == c) [
  | true ↦ uncover n c s.nodes >>= λ u. some (false, record s { nodes = u })
  | false ↦ cover_others n row s.nodes >>= λ u.
      recur (record s { nodes = u; stack = row ∷ s.stack }) >>= λ r. elim r.0 [
        | true ↦ some (true, r.1)
        | false ↦ pop r.1 >>= λ t. uncover_others n row t.nodes >>= λ v.
            try_rows recur n c k (v.down row) (record t { nodes = v })
      ]
]

-- `d` bounds the depth of the recursion, and `n` each loop, that over a row and its own node by one more.
unfoldable pub solve : ℕ → ℕ → ℕ → Search → Option (Bool × Search)
unfolding write_board get_min_column cover try_rows
solve zero n root s = none
solve (suc d) n root s = elim (s.nodes.left root == root) [
  | true ↦ write_board (suc n) s.nodes s.stack s.inout >>= λ board.
      some (true, record s { inout = board })
  | false ↦ get_min_column n root s.nodes >>= λ c.
      cover n c s.nodes >>= λ u. try_rows (solve d n root) n c n (u.down c) (record s { nodes = u })
]
