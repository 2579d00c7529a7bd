-- ===== src/Solver/Build/Values.antt =====
-- sudoku.cc: the columns for the empty cells, and those for the values that rows, columns and boxes
-- do not have.
use network_lib.Base.{
  ℕ, suc, ◌+◌, ◌*◌, ◌<◌, ◌≤◌, ◌≡◌, inl, inr, subst, Bool, true, false, not, some, List, length,
  get_elem?, get_or, get_elem?-get_or, ◌==◌, arith,
}
use network_lib.Solver.Build.{
  Builder, is_null, Used, cell_column, value_columns, get_row_col, get_col_col, get_box_col,
  for_range,
}
use network_lib.Solver.Build.Ranges.{for_range-holds}
use network_lib.Solver.Build.Columns.{unless-AddedAt, Kind, Kind-other, Kind-own}

module _ (inout : List ℕ) where
  abbrev pub IsEmpty : ℕ → Type 0
  IsEmpty i = get_elem? inout i ≡ some 0

  -- The columns of the empty cells before the `i`-th one were appended.
  pub record Cells (i : ℕ) (b : Builder) : Type 0 where
    pub cell_made : (j : ℕ) → j < i → IsEmpty j → is_null (b.columns j) ≡ false
    pub cell_free : (x : ℕ) → i ≤ x → is_null (b.columns x) ≡ true
    pub cell_few : b.cur_node ≤ suc i

  -- And the columns for values before the position `t`.
  pub record Stage (u : Used) (t : ℕ) (b : Builder) : Type 0 where
    pub of_cell : (j : ℕ) → j < 81 → IsEmpty j → is_null (b.columns j) ≡ false
    pub of_row : Kind u.rows 100 t b
    pub of_col : Kind u.cols 200 t b
    pub of_box : Kind u.boxes 300 t b
    pub few : b.cur_node + 3 ≤ 82 + 3 * t

  cell_column-Cells :
      (root i : ℕ) (b : Builder)
      → length inout ≡ 81
      → i < 81
      → Cells i b
      → (c : Builder) × (cell_column root inout i b ≡ some c) × Cells (suc i) c
  unfolding cell_column
  cell_column-Cells root i b len less s =
      let val = get_or inout i 0 in
      let at : get_elem? inout i ≡ some val = get_elem?-get_or inout i 0 (omega arith) in
      let (c, e, (few, change)) =
        unless-AddedAt root i b (omega arith) (omega (arith, s.cell_few)) (not (val == 0))
          (λ h. s.cell_free i (omega arith)) in
      (
        c,
        ground (arith, at, e),
        record {
          cell_made = λ j l h. ground (arith, at, change j, s.cell_made j, h);
          cell_free = λ x l. ground (arith, change x, s.cell_free x);
          cell_few = omega (arith, s.cell_few, few);
        },
      )

  value_columns-Stage :
      (root : ℕ) (u : Used) (i v : ℕ) (b : Builder)
      → i < 9
      → 0 < v
      → v < 10
      → Stage u (9 * i + v) b
      → (c : Builder) × (value_columns root u i v b ≡ some c) × Stage u (9 * i + suc v) c
  unfolding value_columns
  value_columns-Stage root u i v b li hv lv s =
      let (b1, e1, a1) =
        unless-AddedAt root (get_row_col i v) b (omega arith) (omega (arith, s.few)) (u.rows i v)
          (λ h. s.of_row.free i v hv lv li (omega arith)) in
      let c1 =
        Kind-other u.cols 200 (9 * i + v) (get_row_col i v) (u.rows i v) b b1 (inl (omega arith)) a1
          s.of_col in
      let d1 =
        Kind-other u.boxes 300 (9 * i + v) (get_row_col i v) (u.rows i v) b b1 (inl (omega arith))
          a1 s.of_box in
      let r1 = Kind-own u.rows 100 i v b b1 hv lv a1 s.of_row in
      let (b2, e2, a2) =
        unless-AddedAt root (get_col_col i v) b1 (omega arith) (omega (arith, s.few, a1.0))
          (u.cols i v) (λ h. c1.free i v hv lv li (omega arith)) in
      let r2 =
        Kind-other u.rows 100 (9 * i + suc v) (get_col_col i v) (u.cols i v) b1 b2
          (inr (omega arith)) a2 r1 in
      let d2 =
        Kind-other u.boxes 300 (9 * i + v) (get_col_col i v) (u.cols i v) b1 b2 (inl (omega arith))
          a2 d1 in
      let c2 = Kind-own u.cols 200 i v b1 b2 hv lv a2 c1 in
      let (b3, e3, a3) =
        unless-AddedAt root (get_box_col i v) b2 (omega arith) (omega (arith, s.few, a1.0, a2.0))
          (u.boxes i v) (λ h. d2.free i v hv lv li (omega arith)) in
      let r3 =
        Kind-other u.rows 100 (9 * i + suc v) (get_box_col i v) (u.boxes i v) b2 b3
          (inr (omega arith)) a3 r2 in
      let c3 =
        Kind-other u.cols 200 (9 * i + suc v) (get_box_col i v) (u.boxes i v) b2 b3
          (inr (omega arith)) a3 c2 in
      let d3 = Kind-own u.boxes 300 i v b2 b3 hv lv a3 d2 in
      (
        b3,
        rw e1 (rw e2 e3),
        record {
          of_cell = λ j l h. ground (arith, a1.1 j, a2.1 j, a3.1 j, s.of_cell j l h);
          of_row = r3;
          of_col = c3;
          of_box = d3;
          few = omega (arith, s.few, a1.0, a2.0, a3.0);
        },
      )

  -- The two loops that append columns.
  pub columns-Stage :
      (root : ℕ) (u : Used) (b : Builder)
      → length inout ≡ 81
      → b.cur_node ≤ 1
      → ((x : ℕ) → is_null (b.columns x) ≡ true)
      → (c e : Builder) × (for_range 0 81 (cell_column root inout) b ≡ some c)
        × (for_range 0 9 (λ i. for_range 1 9 (value_columns root u i)) c ≡ some e)
        × Stage u 82 e
  columns-Stage root u b len few free =
      let (c, ec, s) =
        for_range-holds Cells (cell_column root inout) 0 81 b
          (record {
            cell_made = λ j l h. absurd (omega arith);
            cell_free = λ x l. free x;
            cell_few = few;
          })
          (λ j x _ l p. cell_column-Cells root j x len l p) in
      let (e, ee, t) =
        for_range-holds (λ i. Stage u (9 * i + 1)) (λ i. for_range 1 9 (value_columns root u i)) 0 9
          c
          (record {
            of_cell = s.cell_made;
            of_row = all_free 100 c (omega arith) s;
            of_col = all_free 200 c (omega arith) s;
            of_box = all_free 300 c (omega arith) s;
            few = omega (arith, s.cell_few);
          })
          (λ j x _ l p.
            let (y, ey, q) =
              for_range-holds (λ v. Stage u (9 * j + v)) (value_columns root u j) 1 9 x p
                (λ v z h k r. value_columns-Stage root u j v z l h k r) in
            (y, ey, subst (λ z. Stage u z y) (omega arith) q)) in
      (c, e, ec, ee, t)
    where
      all_free :
          {used : ℕ → ℕ → Bool} (base : ℕ) (c : Builder)
          → 81 ≤ base
          → Cells 81 c
          → Kind used base 1 c
      all_free base c h s = record {
        made = λ i v z l p q r. absurd (omega arith);
        free = λ i v z l p q. s.cell_free (base + i * 10 + v) (omega arith);
      }
