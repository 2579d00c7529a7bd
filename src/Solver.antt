-- ===== src/Solver.antt =====
-- lotus_project/examples/sudoku/sudoku.cc: the links of the solver's nodes. A pointer to a node is
-- its number in `nodes_`, and each field of the nodes a function of it.
pub mod Links
pub mod Loops
pub mod Cover
pub mod Restore
pub mod Choice
pub mod Rings
pub mod Grid
pub mod Search
pub mod Build
mod Tests
use network_lib.Base.{
  ℕ, zero, suc, ◌+◌, ◌-◌, ◌%◌, ◌^◌, Bool, true, false, Option, none, some, List, [], ◌∷◌, ◌==◌,
  if◌then◌else◌, ◌>>=◌, update, ltb,
}

-- `size` is an int in two's complement.
pub record Nodes : Type 0 where
  pub left : ℕ → ℕ
  pub right : ℕ → ℕ
  pub up : ℕ → ℕ
  pub down : ℕ → ℕ
  pub col : ℕ → ℕ
  pub name : ℕ → ℕ
  pub size : ℕ → ℕ

abbrev pub int_size : ℕ
int_size = 2 ^ 32

abbrev pub increment : ℕ → ℕ
increment n = (n + 1) % int_size

abbrev pub decrement : ℕ → ℕ
decrement n = (n + (int_size - 1)) % int_size

abbrev pub set_left : ℕ → ℕ → Nodes → Nodes
set_left p v m = record m { left = update m.left p v }

abbrev pub set_right : ℕ → ℕ → Nodes → Nodes
set_right p v m = record m { right = update m.right p v }

abbrev pub set_up : ℕ → ℕ → Nodes → Nodes
set_up p v m = record m { up = update m.up p v }

abbrev pub set_down : ℕ → ℕ → Nodes → Nodes
set_down p v m = record m { down = update m.down p v }

abbrev pub set_size : ℕ → ℕ → Nodes → Nodes
set_size p v m = record m { size = update m.size p v }

-- The statements of `cover` for a node, and those of `uncover`.
pub unlink : ℕ → Nodes → Nodes
unlink j m =
    let a = set_up (m.down j) (m.up j) m in
    let b = set_down (a.up j) (a.down j) a in set_size (b.col j) (decrement (b.size (b.col j))) b

pub relink : ℕ → Nodes → Nodes
relink j m =
    let a = set_size (m.col j) (increment (m.size (m.col j))) m in
    let b = set_up (a.down j) j a in set_down (b.up j) j b

-- Those for the column itself.
pub hide : ℕ → Nodes → Nodes
hide c m = let a = set_left (m.right c) (m.left c) m in set_right (a.left c) (a.right c) a

pub unhide : ℕ → Nodes → Nodes
unhide c m = let a = set_left (m.right c) c m in set_right (a.left c) c a

-- The new node `p` goes in front of `old` in its ring, or to the end of the column `old`.
pub put_left : ℕ → ℕ → Nodes → Nodes
put_left old p m =
    let a = set_left p (m.left old) m in
    let b = set_right p old a in let d = set_right (b.left old) p b in set_left old p d

pub put_up : ℕ → ℕ → Nodes → Nodes
put_up old p m =
    let a = set_up p (m.up old) m in
    let b = set_down p old a in
    let d = set_down (b.up old) p b in
    let e = set_up old p d in
    let f = set_size old (increment (e.size old)) e in record f { col = update f.col p old }

-- `for (p = …; p != end; p = next(p)) visit(p);` on fuel.
pub walk : (Nodes → ℕ → ℕ) → (ℕ → Nodes → Option Nodes) → ℕ → ℕ → ℕ → Nodes → Option Nodes
walk next visit zero end p m = none
walk next visit (suc n) end p m = elim (p == end) [
  | true ↦ some m
  | false ↦ visit p m >>= λ u. walk next visit n end (next u p) u
]

abbrev pub go_left : Nodes → ℕ → ℕ
go_left m = m.left

abbrev pub go_right : Nodes → ℕ → ℕ
go_right m = m.right

abbrev pub go_up : Nodes → ℕ → ℕ
go_up m = m.up

abbrev pub go_down : Nodes → ℕ → ℕ
go_down m = m.down

pub cover_row : ℕ → ℕ → Nodes → Option Nodes
unfolding walk
cover_row n row m = walk go_right (λ j u. some (unlink j u)) n row (m.right row) m

pub uncover_row : ℕ → ℕ → Nodes → Option Nodes
unfolding walk
uncover_row n row m = walk go_left (λ j u. some (relink j u)) n row (m.left row) m

-- `n` bounds the rows of the column and the nodes of a row.
pub cover : ℕ → ℕ → Nodes → Option Nodes
unfolding hide walk cover_row
cover n c m = let h = hide c m in walk go_down (cover_row n) n c (h.down c) h

pub uncover : ℕ → ℕ → Nodes → Option Nodes
unfolding unhide walk uncover_row
uncover n c m = walk go_up (uncover_row n) n c (m.up c) m >>= λ u. some (unhide c u)

-- `a > b` of ints
abbrev pub int_gt : ℕ → ℕ → Bool
int_gt a b = ltb ((b + 2 ^ 31) % int_size) ((a + 2 ^ 31) % int_size)

-- The loop of `getMinColumn`, at the column `here`, with what was found so far.
pub min_column : ℕ → ℕ → Nodes → ℕ → ℕ → ℕ → Option ℕ
min_column zero root m c here min_size = none
min_column (suc n) root m c here min_size =
    let keep = min_column n root m c (m.right here) min_size in
    let take = min_column n root m here (m.right here) (m.size here) in
    if here == root
    then some c
    else if int_gt min_size (m.size here)
    then if int_gt (m.size here) 1 then take else some here
    else keep

pub get_min_column : ℕ → ℕ → Nodes → Option ℕ
unfolding min_column
get_min_column n root m =
    let c = m.right root in
    if int_gt (m.size c) 1 then min_column n root m c (m.right c) (m.size c) else some c
