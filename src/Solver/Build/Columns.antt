-- ===== src/Solver/Build/Columns.antt =====
-- sudoku.cc: the columns that the constructor appends, and that each one is appended once.
use network_lib.Base.{
  ℕ, suc, ◌+◌, ◌*◌, ◌<◌, ◌≤◌, ◌≡◌, ◌⊎◌, inl, inr, refl, subst, Bool, true, false, not, ◌&&◌, some,
  update, ◌==◌, if◌then◌else◌, arith, Bool-cases,
}
use network_lib.Solver.{put_left}
use network_lib.Solver.Build.{
  Builder, max_nodes, max_columns, is_null, fresh, new_column, append_column, unless,
}

-- Where the pointers of `columns_` are null after one at `n` was set, or not.
abbrev pub AddedAt : ℕ → Bool → Builder → Builder → Type 0
AddedAt n skipped b c =
    (c.cur_node ≤ suc b.cur_node)
    × ((x : ℕ)
        → is_null (c.columns x) ≡ (if x == n && not skipped then false else is_null (b.columns x)))

-- What `append_column` makes, where its assertions hold.
abbrev pub appended : ℕ → ℕ → Builder → Builder
appended root n b = record {
  nodes = put_left root b.cur_node (fresh b.cur_node b.cur_node n b.nodes);
  columns = update b.columns n (some b.cur_node);
  cur_node = suc b.cur_node;
}

module _ (root n : ℕ) (b : Builder) (less : n < max_columns) (room : b.cur_node < max_nodes) where
  append_column-AddedAt :
      is_null (b.columns n) ≡ true
      → (c : Builder) × (append_column root n b ≡ some c) × AddedAt n false b c
  unfolding append_column new_column
  append_column-AddedAt free =
      (appended root n b, ground (arith, free), (omega arith, λ x. ground arith))

  pub unless-AddedAt :
      (skipped : Bool)
      → (skipped ≡ false → is_null (b.columns n) ≡ true)
      → (c : Builder) × (unless skipped (append_column root n) b ≡ some c) × AddedAt n skipped b c
  unless-AddedAt true free = (b, refl, (omega arith, λ x. ground arith))
  unless-AddedAt false free = append_column-AddedAt (free refl)

-- One kind of the columns for values, with their places from `base` on, where those before the
-- position `t` were appended. A position is 9 times a row's, a column's or a box's number and a value.
pub record Kind (used : ℕ → ℕ → Bool) (base t : ℕ) (b : Builder) : Type 0 where
  pub made :
      (i v : ℕ)
      → 0 < v
      → v < 10
      → i < 9
      → 9 * i + v < t
      → used i v ≡ false
      → is_null (b.columns (base + i * 10 + v)) ≡ false
  pub free :
      (i v : ℕ)
      → 0 < v
      → v < 10
      → i < 9
      → t ≤ 9 * i + v
      → is_null (b.columns (base + i * 10 + v)) ≡ true

pub Kind-other :
    (used : ℕ → ℕ → Bool) (base t n : ℕ) (skipped : Bool) (b c : Builder)
    → (n < base) ⊎ (base + 100 ≤ n)
    → AddedAt n skipped b c
    → Kind used base t b
    → Kind used base t c
Kind-other used base t n skipped b c out (_, at) k = record {
  made = λ i v h l s p q. ground (arith, at (base + i * 10 + v), k.made i v h l s p q, out);
  free = λ i v h l s p. ground (arith, at (base + i * 10 + v), k.free i v h l s p, out);
}

pub Kind-own :
    (used : ℕ → ℕ → Bool) (base i v : ℕ) (b c : Builder)
    → 0 < v
    → v < 10
    → AddedAt (base + i * 10 + v) (used i v) b c
    → Kind used base (9 * i + v) b
    → Kind used base (9 * i + suc v) c
Kind-own used base i v b c hv lv (_, at) k = record {
  made = λ j w h l s p q. elim (Bool-cases (9 * j + w == 9 * i + v)) [
    | inl this ↦
        let ej : j ≡ i = omega (arith, ==_eq this) in
        let ew : w ≡ v = omega (arith, ==_eq this) in
        let unused : used i v ≡ false =
          subst (λ z. used z v ≡ false) ej (subst (λ z. used j z ≡ false) ew q) in
        ground (arith, at (base + j * 10 + w), ej, ew, unused)
    | inr before ↦ ground (arith, at (base + j * 10 + w), k.made j w h l s)
  ];
  free = λ j w h l s p. ground (arith, at (base + j * 10 + w), k.free j w h l s);
}
  where
    ==_eq : {x y : ℕ} → (x == y) ≡ true → x ≡ y
    ==_eq h = ground arith
