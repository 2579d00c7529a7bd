-- ===== src/Solver/Build.antt =====
-- sudoku.cc: the constructor of `SudokuSolver`, and `solveSudoku`. `none` stands for an assertion that
-- fails or an access out of an array.
pub mod Ranges
pub mod Columns
pub mod Values
pub mod Rows
pub mod Works
pub mod Flat
pub mod Columned
pub mod Vertical
pub mod Quads
pub mod Rowed
pub mod Growing
pub mod Adding
pub mod Turns
pub mod Matrix
pub mod Ready
pub mod Answer
use network_lib.Base.{
  ℕ, zero, suc, ◌+◌, ◌-◌, ◌*◌, ◌/◌, ◌%◌, ◌^◌, Bool, true, false, not, ◌&&◌, ◌||◌, Option, none,
  some, List, [], ◌∷◌, ◌==◌, ltb, leb, if◌then◌else◌, ◌>>=◌, ◌>>◌, assert, length, get_elem?,
  update, map,
}
use network_lib.Sudoku.{cells}
use network_lib.Solver.{Nodes, put_left, put_up, int_size}
use network_lib.Solver.Search.{Search, solve}

abbrev pub max_nodes : ℕ
max_nodes = 1 + 81 * 4 + 9 * 9 * 9 * 4

abbrev pub max_columns : ℕ
max_columns = 400

-- `columns` is `none` for a null pointer.
pub record Builder : Type 0 where
  pub nodes : Nodes
  pub columns : ℕ → Option ℕ
  pub cur_node : ℕ

-- A node is cleared, and linked with itself.
abbrev pub fresh : ℕ → ℕ → ℕ → Nodes → Nodes
fresh p c n m = record {
  left = update m.left p p;
  right = update m.right p p;
  up = update m.up p p;
  down = update m.down p p;
  col = update m.col p c;
  name = update m.name p n;
  size = update m.size p 0;
}

pub new_column : ℕ → Builder → Option (ℕ × Builder)
new_column n b =
    assert (ltb b.cur_node max_nodes)
    >> some (
      b.cur_node,
      record b { nodes = fresh b.cur_node b.cur_node n b.nodes; cur_node = suc b.cur_node },
    )

-- A read of `columns_[n]`
abbrev pub column_at : ℕ → Builder → Option (Option ℕ)
column_at n b = assert (ltb n max_columns) >> some (b.columns n)

abbrev pub is_null : Option ℕ → Bool
is_null none = true
is_null (some c) = false

pub append_column : ℕ → ℕ → Builder → Option Builder
unfolding new_column put_left
append_column root n b = column_at n b >>= λ old. assert (is_null old) >> new_column n b >>= λ r.
    some (record r.1 {
      nodes = put_left root r.0 r.1.nodes;
      columns = update r.1.columns n (some r.0);
    })

pub new_row : ℕ → Builder → Option (ℕ × Builder)
unfolding put_up
new_row n b = column_at n b >>= λ col. col >>= λ c.
    assert (ltb b.cur_node max_nodes)
    >> some (
      b.cur_node,
      record b {
        nodes = put_up c b.cur_node (fresh b.cur_node c n b.nodes);
        cur_node = suc b.cur_node;
      },
    )

abbrev pub get_row_col : ℕ → ℕ → ℕ
get_row_col row val = 100 + row * 10 + val

abbrev pub get_col_col : ℕ → ℕ → ℕ
get_col_col col val = 200 + col * 10 + val

abbrev pub get_box_col : ℕ → ℕ → ℕ
get_box_col box val = 300 + box * 10 + val

abbrev pub box_of : ℕ → ℕ
box_of i = i / 9 / 3 * 3 + i % 9 / 3

-- The values that a row, a column or a box has.
pub record Used : Type 0 where
  pub rows : ℕ → ℕ → Bool
  pub cols : ℕ → ℕ → Bool
  pub boxes : ℕ → ℕ → Bool

abbrev pub set_used : (ℕ → ℕ → Bool) → ℕ → ℕ → ℕ → ℕ → Bool
set_used f i v = update f i (update (f i) v true)

-- `for (i = from; i < from + k; ++i) step(i)`
pub for_range {ℓ} : {A : Type ℓ} → ℕ → ℕ → (ℕ → A → Option A) → A → Option A
for_range i zero step a = some a
for_range i (suc k) step a = step i a >>= λ b. for_range (suc i) k step b

pub mark : List ℕ → ℕ → Used → Option Used
mark inout i u = get_elem? inout i >>= λ val.
    assert (ltb val 10)
    >> some (record {
      rows = set_used u.rows (i / 9) val;
      cols = set_used u.cols (i % 9) val;
      boxes = set_used u.boxes (box_of i) val;
    })

pub cell_column : ℕ → List ℕ → ℕ → Builder → Option Builder
unfolding append_column
cell_column root inout i b =
    get_elem? inout i >>= λ val. if val == 0 then append_column root i b else some b

abbrev pub unless : Bool → (Builder → Option Builder) → Builder → Option Builder
unless true step b = some b
unless false step b = step b

pub value_columns : ℕ → Used → ℕ → ℕ → Builder → Option Builder
unfolding append_column
value_columns root u i v b = unless (u.rows i v) (append_column root (get_row_col i v)) b >>= λ b1.
    unless (u.cols i v) (append_column root (get_col_col i v)) b1 >>= λ b2.
    unless (u.boxes i v) (append_column root (get_box_col i v)) b2

-- The four nodes for a value in a cell
pub add_row : ℕ → ℕ → Builder → Option Builder
unfolding new_row put_left
add_row i v b = new_row i b >>= λ r0. new_row (get_row_col (i / 9) v) r0.1 >>= λ r1.
    new_row (get_col_col (i % 9) v) r1.1 >>= λ r2. new_row (get_box_col (box_of i) v) r2.1 >>= λ r3.
    some (record r3.1 {
      nodes = put_left r0.0 r3.0 (put_left r0.0 r2.0 (put_left r0.0 r1.0 r3.1.nodes));
    })

pub place : Used → ℕ → ℕ → Builder → Option Builder
unfolding add_row
place u i v b =
    unless (u.rows (i / 9) v || u.cols (i % 9) v || u.boxes (box_of i) v) (add_row i v) b

pub cell_rows : Used → List ℕ → ℕ → Builder → Option Builder
unfolding for_range place
cell_rows u inout i b =
    get_elem? inout i >>= λ val. if val == 0 then for_range 1 9 (place u i) b else some b

-- The root links to itself, and no column is there yet.
abbrev pub start : ℕ → Builder → Builder
start root b = record b {
  nodes = record b.nodes {
    left = update b.nodes.left root root;
    right = update b.nodes.right root root;
  };
  columns = λ n. none;
}

abbrev pub all_unused : Used
all_unused = record { rows = λ i v. false; cols = λ i v. false; boxes = λ i v. false }

-- `junk` is what the object's memory has before. The root and the object are returned.
pub construct : Builder → List ℕ → Option (ℕ × Builder)
unfolding new_column for_range mark cell_column value_columns cell_rows
construct junk inout = new_column 0 (record junk { cur_node = 0 }) >>= λ r.
    for_range 0 cells (mark inout) all_unused >>= λ u.
    for_range 0 cells (cell_column r.0 inout) (start r.0 r.1) >>= λ b.
    for_range 0 9 (λ i. for_range 1 9 (value_columns r.0 u i)) b >>= λ b.
    for_range 0 cells (cell_rows u inout) b >>= λ b. some (r.0, b)

-- A char that is signed, less that of the digit 0, as an int in two's complement
abbrev pub digit_of : ℕ → ℕ
digit_of x =
    if ltb x 128 then (x + (int_size - 48)) % int_size else (x + (int_size - 256 - 48)) % int_size

abbrev pub is_digit : ℕ → Bool
is_digit val = ltb val (2 ^ 31) && leb val 9

abbrev pub all_digits : List ℕ → Bool
all_digits [] = true
all_digits (val ∷ board) = is_digit val && all_digits board

abbrev pub no_solution : List ℕ
no_solution = b'N' ∷ b'o' ∷ b'S' ∷ b'o' ∷ b'l' ∷ b'u' ∷ b't' ∷ b'i' ∷ b'o' ∷ b'n' ∷ []

-- What is returned for the board, where `solve` found a solution or none
abbrev pub answer_of : Bool × Search → List ℕ
answer_of (true, s) = map (λ val. (val + 48) % 256) s.inout
answer_of (false, s) = no_solution

-- `d` and `n` are the fuel of `solve`.
pub solve_sudoku : ℕ → ℕ → Builder → List ℕ → Option (List ℕ)
unfolding construct solve
solve_sudoku d n junk puzzle =
    let board = map digit_of puzzle in
    assert (length puzzle == cells) >> elim (all_digits board) [
      | true ↦ construct junk board >>= λ r.
          solve d n r.0 (record { nodes = r.1.nodes; stack = []; inout = board }) >>= λ o.
          some (answer_of o)
      | false ↦ some no_solution
    ]
