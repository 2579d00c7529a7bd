-- ===== src/Solver/Grid.antt =====
-- sudoku.cc: what the nodes of a matrix look like at any time of the search. The links right and left
-- of the rows' nodes, the columns and the names never change; the links up and down, the ring of
-- the columns and their sizes do.
pub mod Unlink
pub mod Rows
pub mod Columns
pub mod Covered
use network_lib.Base.{
  ℕ, ◌+◌, ◌<◌, ◌≤◌, ◌≡◌, ◌≢◌, ◌⊎◌, Bool, true, false, List, [], ◌∷◌, length, has, Once, backwards,
}
use network_lib.Solver.{Nodes}
use network_lib.Solver.Links.{IsLinked}
use network_lib.Solver.Loops.{Chain, AllOutside}

-- What never changes. `known` are the nodes of the rows, `mates` a node's row to its right.
pub record Plan : Type 0 where
  pub root : ℕ
  pub known : ℕ → Bool
  pub mates : ℕ → List ℕ
  pub to_left : ℕ → ℕ
  pub to_right : ℕ → ℕ
  pub column : ℕ → ℕ
  pub label : ℕ → ℕ

-- The nodes of the list stand in different columns.
abbrev pub AllApart : (ℕ → ℕ) → List ℕ → Type 0
AllApart col [] = Unit {0}
AllApart col (x ∷ xs) = AllOutside col (col x) xs × AllApart col xs

-- The rows are rings of fewer than `n` nodes each, whose nodes stand in different columns.
pub record IsPlan (p : Plan) (n : ℕ) : Type 0 where
  pub right_ring : (x : ℕ) → p.known x ≡ true → Chain p.to_right x (p.to_right x) (p.mates x)
  pub left_ring :
      (x : ℕ) → p.known x ≡ true → Chain p.to_left x (p.to_left x) (backwards (p.mates x))
  pub apart : (x : ℕ) → p.known x ≡ true → AllApart p.column (x ∷ p.mates x)
  pub few : (x : ℕ) → p.known x ≡ true → length (p.mates x) < n
  pub mates_known : (x y : ℕ) → p.known x ≡ true → has y (p.mates x) ≡ true → p.known y ≡ true
  pub mates_sym : (x y : ℕ) → p.known x ≡ true → has y (p.mates x) ≡ true → has x (p.mates y) ≡ true
  pub mates_trans :
      (x y z : ℕ)
      → p.known x ≡ true
      → has y (p.mates x) ≡ true
      → has z (p.mates y) ≡ true
      → (z ≡ x) ⊎ (has z (p.mates x) ≡ true)
  pub root_apart : p.known p.root ≡ false

-- The columns that are not covered, with their rows. `live` are the nodes that are linked up and
-- down, those of the columns included.
pub record Core (p : Plan) (n : ℕ) (m : Nodes) (live : ℕ → Bool) (cols : List ℕ) (rows : ℕ → List ℕ)
    : Type 0 where
  pub left_same : (x : ℕ) → p.known x ≡ true → m.left x ≡ p.to_left x
  pub right_same : (x : ℕ) → p.known x ≡ true → m.right x ≡ p.to_right x
  pub col_same : (x : ℕ) → m.col x ≡ p.column x
  pub name_same : (x : ℕ) → m.name x ≡ p.label x
  pub linked : IsLinked m live
  pub ring : (c : ℕ) → has c cols ≡ true → Chain m.down c (m.down c) (rows c)
  pub once : (c : ℕ) → has c cols ≡ true → Once (rows c)
  pub fits : (c : ℕ) → has c cols ≡ true → length (rows c) < n
  pub complete : (x : ℕ) → live x ≡ true → p.known x ≡ true → has x (rows (p.column x)) ≡ true
  pub row_live : (c x : ℕ) → has c cols ≡ true → has x (rows c) ≡ true → live x ≡ true
  pub row_known : (c x : ℕ) → has c cols ≡ true → has x (rows c) ≡ true → p.known x ≡ true
  pub row_column : (c x : ℕ) → has c cols ≡ true → has x (rows c) ≡ true → p.column x ≡ c
  pub live_column : (x : ℕ) → live x ≡ true → has (p.column x) cols ≡ true
  pub col_live : (c : ℕ) → has c cols ≡ true → live c ≡ true
  pub col_known : (c : ℕ) → has c cols ≡ true → p.known c ≡ false
  pub col_column : (c : ℕ) → has c cols ≡ true → p.column c ≡ c

-- The ring of the columns.
pub record Head (root : ℕ) (left right : ℕ → ℕ) (cols : List ℕ) : Type 0 where
  pub head_ring : Chain right root (right root) cols
  pub head_once : Once cols
  pub root_out : has root cols ≡ false
  pub left_right : (x : ℕ) → has x (root ∷ cols) ≡ true → left (right x) ≡ x
  pub right_left : (x : ℕ) → has x (root ∷ cols) ≡ true → right (left x) ≡ x
  pub left_in : (x : ℕ) → has x (root ∷ cols) ≡ true → has (left x) (root ∷ cols) ≡ true
  pub right_in : (x : ℕ) → has x (root ∷ cols) ≡ true → has (right x) (root ∷ cols) ≡ true

-- A matrix between two steps of the search: the rows that are left are there with all their
-- nodes, and each row is left whose nodes' columns all are.
pub record Inv (p : Plan) (n : ℕ) (m : Nodes) (live : ℕ → Bool) (cols : List ℕ) (rows : ℕ → List ℕ)
    : Type 0 where
  pub core : Core p n m live cols rows
  pub head : Head p.root m.left m.right cols
  pub whole :
      (x y : ℕ) → live x ≡ true → p.known x ≡ true → has y (p.mates x) ≡ true → live y ≡ true
  pub kept :
      (x : ℕ)
      → p.known x ≡ true
      → ((y : ℕ) → has y (x ∷ p.mates x) ≡ true → has (p.column y) cols ≡ true)
      → live x ≡ true
