-- ===== src/Solver/Build/Quads.antt =====
-- sudoku.cc: the four nodes that the constructor adds for a value in a cell.
use network_lib.Base.{
  ℕ, suc, ◌+◌, ◌/◌, ◌%◌, ◌<◌, ◌≤◌, ◌≡◌, ◌≢◌, refl, sym, ap, ◌∙◌, subst, Option, none, some, List,
  [], ◌∷◌, ◌++◌, update, ◌==◌, if◌then◌else◌, arith,
}
use network_lib.Solver.{Nodes, put_up}
use network_lib.Solver.Build.{
  Builder, fresh, new_row, get_row_col, get_col_col, get_box_col, box_of,
}
use network_lib.Solver.Build.Vertical.{Vertical, put_up-Vertical}

-- The node `x` and the next three are a row for the value `v` in the cell `i`.
pub record Quad (m : Nodes) (x i v : ℕ) : Type 0 where
  pub cell_fits : i < 81
  pub positive : 0 < v
  pub small : v < 10
  pub name0 : m.name x ≡ i
  pub name1 : m.name (x + 1) ≡ get_row_col (i / 9) v
  pub name2 : m.name (x + 2) ≡ get_col_col (i % 9) v
  pub name3 : m.name (x + 3) ≡ get_box_col (box_of i) v
  pub right0 : m.right x ≡ x + 1
  pub right1 : m.right (x + 1) ≡ x + 2
  pub right2 : m.right (x + 2) ≡ x + 3
  pub right3 : m.right (x + 3) ≡ x
  pub left0 : m.left x ≡ x + 3
  pub left1 : m.left (x + 1) ≡ x
  pub left2 : m.left (x + 2) ≡ x + 1
  pub left3 : m.left (x + 3) ≡ x + 2
  pub named : (e : ℕ) → e < 4 → m.name (m.col (x + e)) ≡ m.name (x + e)

-- The links to the left and the right, the names and the columns are the same below `end`.
pub record Agree (m u : Nodes) (end : ℕ) : Type 0 where
  pub left_at : (x : ℕ) → x < end → u.left x ≡ m.left x
  pub right_at : (x : ℕ) → x < end → u.right x ≡ m.right x
  pub name_at : (x : ℕ) → x < end → u.name x ≡ m.name x
  pub col_at : (x : ℕ) → x < end → u.col x ≡ m.col x

pub Quad-Agree :
    (m u : Nodes) (x i v end : ℕ)
    → x + 4 ≤ end
    → ((e : ℕ) → e < 4 → m.col (x + e) < end)
    → Agree m u end
    → Quad m x i v
    → Quad u x i v
Quad-Agree m u x i v end h c a q = record {
  cell_fits = q.cell_fits;
  positive = q.positive;
  small = q.small;
  name0 = a.name_at x (omega arith) ∙ q.name0;
  name1 = a.name_at (x + 1) (omega arith) ∙ q.name1;
  name2 = a.name_at (x + 2) (omega arith) ∙ q.name2;
  name3 = a.name_at (x + 3) (omega arith) ∙ q.name3;
  right0 = a.right_at x (omega arith) ∙ q.right0;
  right1 = a.right_at (x + 1) (omega arith) ∙ q.right1;
  right2 = a.right_at (x + 2) (omega arith) ∙ q.right2;
  right3 = a.right_at (x + 3) (omega arith) ∙ q.right3;
  left0 = a.left_at x (omega arith) ∙ q.left0;
  left1 = a.left_at (x + 1) (omega arith) ∙ q.left1;
  left2 = a.left_at (x + 2) (omega arith) ∙ q.left2;
  left3 = a.left_at (x + 3) (omega arith) ∙ q.left3;
  named = λ e l.
      ap u.name (a.col_at (x + e) (omega arith))
      ∙ (a.name_at (m.col (x + e)) (c e l) ∙ (q.named e l ∙ sym (a.name_at (x + e) (omega arith))));
}

-- What `new_row` makes: the node `p` of the name `n` in the column `a`.
pub record New (b c : Builder) (n p a : ℕ) : Type 0 where
  pub at_column : b.columns n ≡ some a
  pub node_is : p ≡ b.cur_node
  pub cur_is : c.cur_node ≡ suc b.cur_node
  pub same_columns : c.columns ≡ b.columns
  pub left_is : (x : ℕ) → c.nodes.left x ≡ (if x == b.cur_node then b.cur_node else b.nodes.left x)
  pub right_is :
      (x : ℕ) → c.nodes.right x ≡ (if x == b.cur_node then b.cur_node else b.nodes.right x)
  pub name_is : (x : ℕ) → c.nodes.name x ≡ (if x == b.cur_node then n else b.nodes.name x)
  pub col_is : (x : ℕ) → c.nodes.col x ≡ (if x == b.cur_node then a else b.nodes.col x)
  pub keeps_Vertical :
      (k : ℕ) (rows : ℕ → List ℕ)
      → 0 < a
      → a ≤ k
      → Vertical k b.cur_node b.nodes rows
      → Vertical k c.cur_node c.nodes (update rows a (rows a ++ b.cur_node ∷ []))

-- The node made
abbrev row_added : ℕ → ℕ → Builder → Builder
row_added n a b = record b {
  nodes = put_up a b.cur_node (fresh b.cur_node a n b.nodes);
  cur_node = suc b.cur_node;
}

row_added-New :
    (n a : ℕ) (b : Builder) → b.columns n ≡ some a → New b (row_added n a b) n b.cur_node a
unfolding put_up
row_added-New n a b h = record {
  at_column = h;
  node_is = refl;
  cur_is = refl;
  same_columns = refl;
  left_is = λ x. refl;
  right_is = λ x. refl;
  name_is = λ x. refl;
  col_is = λ x. ground arith;
  keeps_Vertical = λ k rows pos low v. put_up-Vertical k b.cur_node b.nodes rows v a n pos low;
}

pub new_row-New :
    (n : ℕ) (b c : Builder) (p : ℕ) → new_row n b ≡ some (p, c) → (a : ℕ) × New b c n p a
unfolding new_row
new_row-New n b c p e =
    let (a, h) = there (b.columns n) (λ z. ground (arith, e, z)) in
    let made : ℕ × Builder = (b.cur_node, row_added n a b) in
    let pair : made ≡ (p, c) = ground (arith, e, h) in
    (a, subst (λ r. New b r.1 n r.0 a) pair (row_added-New n a b h))
  where
    there : (o : Option ℕ) → o ≢ none → (a : ℕ) × (o ≡ some a)
    there none ne = absurd (ne refl)
    there (some a) ne = (a, refl)
