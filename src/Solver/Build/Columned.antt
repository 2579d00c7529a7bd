-- ===== src/Solver/Build/Columned.antt =====
-- sudoku.cc: the columns in the constructor, with the pointers of `columns_`.
use network_lib.Base.{
  ℕ, suc, ◌<◌, ◌≤◌, ◌≡◌, sym, ap, subst, Bool, true, false, none, some, List, get_elem?, ◌>>=◌,
  ◌==◌, if◌then◌else◌, arith, not,
}
use network_lib.Solver.{put_left}
use network_lib.Solver.Build.{
  Builder, fresh, new_column, append_column, unless, Used, cell_column, value_columns, get_row_col,
  get_col_col, get_box_col, for_range,
}
use network_lib.Solver.Build.Ranges.{bind_some, for_range-keeps}
use network_lib.Solver.Build.Columns.{appended}
use network_lib.Solver.Build.Flat.{Flat, put_left-Flat}

-- The columns are the nodes from 1 to `k`, and `columns_` leads to each one by its name.
pub record Columned (k : ℕ) (b : Builder) : Type 0 where
  pub cur_is : b.cur_node ≡ suc k
  pub flat : Flat k b.nodes
  pub found : (n c : ℕ) → b.columns n ≡ some c → (0 < c) × (c ≤ k) × (b.nodes.name c ≡ n)
  pub back : (c : ℕ) → 0 < c → c ≤ k → b.columns (b.nodes.name c) ≡ some c

append_column-result :
    (root n : ℕ) (b c : Builder)
    → append_column root n b ≡ some c
    → (b.columns n ≡ none) × (c ≡ appended root n b)
unfolding append_column new_column
append_column-result root n b c e = (ground (arith, e), ground (arith, e))

-- A column of a new name is one more.
append_column-Columned :
    (k n : ℕ) (b c : Builder) → append_column 0 n b ≡ some c → Columned k b → Columned (suc k) c
unfolding put_left
append_column-Columned k n b c e s =
    let (new, same) = append_column-result 0 n b c e in
    subst (Columned (suc k)) (sym same) (record {
      cur_is = ap suc s.cur_is;
      flat =
          subst (λ q. Flat (suc k) (put_left 0 q (fresh q q n b.nodes))) (sym s.cur_is)
            (put_left-Flat k n b.nodes s.flat);
      found = λ m a h. ground (arith, s.cur_is, s.found m a);
      back = λ a h l. ground (arith, s.cur_is, s.back a, new);
    })

abbrev pub SomeColumned : Builder → Type 0
SomeColumned b = (k : ℕ) × Columned k b

unless-Columned :
    (skipped : Bool) (n : ℕ) (b c : Builder)
    → unless skipped (append_column 0 n) b ≡ some c
    → SomeColumned b
    → SomeColumned c
unless-Columned true n b c e s = subst SomeColumned (cc) s
unless-Columned false n b c e (k, s) = (suc k, append_column-Columned k n b c e s)

cell_column-Columned :
    (inout : List ℕ) (i : ℕ) (b c : Builder)
    → SomeColumned b
    → cell_column 0 inout i b ≡ some c
    → SomeColumned c
unfolding cell_column
cell_column-Columned inout i b c s e =
    let (val, _, rest) =
      bind_some (get_elem? inout i) (λ val. if val == 0 then append_column 0 i b else some b) c e in
    unless-Columned (not (val == 0)) i b c (ground (arith, rest)) s

value_columns-Columned :
    (u : Used) (i v : ℕ) (b c : Builder)
    → SomeColumned b
    → value_columns 0 u i v b ≡ some c
    → SomeColumned c
unfolding value_columns
value_columns-Columned u i v b c s e =
    let (b1, e1, f1) =
      bind_some (unless (u.rows i v) (append_column 0 (get_row_col i v)) b)
        (λ x. unless (u.cols i v) (append_column 0 (get_col_col i v)) x >>= λ y.
          unless (u.boxes i v) (append_column 0 (get_box_col i v)) y)
        c e in
    let (b2, e2, e3) =
      bind_some (unless (u.cols i v) (append_column 0 (get_col_col i v)) b1)
        (λ y. unless (u.boxes i v) (append_column 0 (get_box_col i v)) y) c f1 in
    unless-Columned (u.boxes i v) (get_box_col i v) b2 c e3 (
      unless-Columned (u.cols i v) (get_col_col i v) b1 b2 e2
        (unless-Columned (u.rows i v) (get_row_col i v) b b1 e1 s))

-- The two loops that append columns keep them in order.
pub columns-Columned :
    (inout : List ℕ) (u : Used) (b c e : Builder)
    → SomeColumned b
    → for_range 0 81 (cell_column 0 inout) b ≡ some c
    → for_range 0 9 (λ i. for_range 1 9 (value_columns 0 u i)) c ≡ some e
    → SomeColumned e
columns-Columned inout u b c e s ec ee =
    for_range-keeps SomeColumned (λ i. for_range 1 9 (value_columns 0 u i)) 0 9 c e
      (λ j x y _ _ p.
        for_range-keeps SomeColumned (value_columns 0 u j) 1 9 x y
          (λ v z w _ _ q. value_columns-Columned u j v z w q) p)
      (for_range-keeps SomeColumned (cell_column 0 inout) 0 81 b c
        (λ j x y _ _ p. cell_column-Columned inout j x y p) s ec)
      ee
