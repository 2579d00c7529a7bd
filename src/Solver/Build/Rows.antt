-- ===== src/Solver/Build/Rows.antt =====
-- sudoku.cc: the nodes of the rows that the constructor adds.
use network_lib.Base.{
  ℕ, suc, ◌+◌, ◌*◌, ◌/◌, ◌%◌, ◌<◌, ◌≤◌, ◌≡◌, refl, sym, ◌∙◌, subst, false, ◌||◌, Option, none, some,
  List, length, get_elem?, get_or, get_elem?-get_or, ◌==◌, arith, Bool-cases, inl, inr,
}
use network_lib.Solver.{put_left, put_up}
use network_lib.Solver.Build.{
  Builder, max_nodes, max_columns, is_null, fresh, new_row, add_row, place, cell_rows, Used,
  get_row_col, get_col_col, get_box_col, box_of, for_range,
}
use network_lib.Solver.Build.Ranges.{for_range-holds}
use network_lib.Solver.Build.Values.{IsEmpty, Stage}

-- A node more, and the same columns.
abbrev AddedRow : Builder → Builder → Type 0
AddedRow b c = (c.cur_node ≡ suc b.cur_node) × (c.columns ≡ b.columns)

new_row-AddedRow :
    (n : ℕ) (b : Builder)
    → n < max_columns
    → b.cur_node < max_nodes
    → is_null (b.columns n) ≡ false
    → (p : ℕ) × (c : Builder) × (new_row n b ≡ some (p, c)) × AddedRow b c
unfolding new_row
new_row-AddedRow n b l m h =
    let (a, e) = there (b.columns n) h in
    (
      b.cur_node,
      record b {
        nodes = put_up a b.cur_node (fresh b.cur_node a n b.nodes);
        cur_node = suc b.cur_node;
      },
      ground (arith, e),
      (refl, refl),
    )
  where
    there : (o : Option ℕ) → is_null o ≡ false → (a : ℕ) × (o ≡ some a)
    there none h = absurd (cc)
    there (some a) h = (a, refl)

add_row-rows :
    (i v : ℕ) (b : Builder)
    → i < 81
    → v < 10
    → b.cur_node + 4 ≤ max_nodes
    → is_null (b.columns i) ≡ false
    → is_null (b.columns (get_row_col (i / 9) v)) ≡ false
    → is_null (b.columns (get_col_col (i % 9) v)) ≡ false
    → is_null (b.columns (get_box_col (box_of i) v)) ≡ false
    → (c : Builder) × (add_row i v b ≡ some c)
      × (c.cur_node ≡ b.cur_node + 4)
      × (c.columns ≡ b.columns)
unfolding add_row
add_row-rows i v b li lv few h0 hr hc hb =
    let (p0, b0, e0, (n0, c0)) = new_row-AddedRow i b (omega arith) (omega arith) h0 in
    let (p1, b1, e1, (n1, c1)) =
      new_row-AddedRow (get_row_col (i / 9) v) b0 (omega arith) (omega arith) (rw c0 hr) in
    let (p2, b2, e2, (n2, c2)) =
      new_row-AddedRow (get_col_col (i % 9) v) b1 (omega arith) (omega arith) (rw c1 (rw c0 hc)) in
    let (p3, b3, e3, (n3, c3)) =
      new_row-AddedRow (get_box_col (box_of i) v) b2 (omega arith) (omega arith)
        (rw c2 (rw c1 (rw c0 hb))) in
    (
      record b3 { nodes = put_left p0 p3 (put_left p0 p2 (put_left p0 p1 b3.nodes)) },
      rw e0 (rw e1 (rw e2 (rw e3 refl))),
      omega arith,
      c3 ∙ (c2 ∙ (c1 ∙ c0)),
    )

module _ (inout : List ℕ) (u : Used) (made : Builder) (s : Stage inout u 82 made) where
  -- Before the position `t`, 9 times the cell's number and a value.
  pub record Filled (t : ℕ) (b : Builder) : Type 0 where
    pub same : b.columns ≡ made.columns
    pub few : b.cur_node + 4 ≤ 325 + 4 * t

  not_null :
      (n : ℕ) (b : Builder) (t : ℕ)
      → Filled t b
      → is_null (made.columns n) ≡ false
      → is_null (b.columns n) ≡ false
  not_null n b t f h = subst (λ c. is_null (c n) ≡ false) (sym f.same) h

  place-Filled :
      (i v : ℕ) (b : Builder)
      → i < 81
      → IsEmpty inout i
      → 0 < v
      → v < 10
      → Filled (9 * i + v) b
      → (c : Builder) × (place u i v b ≡ some c) × Filled (9 * i + suc v) c
  unfolding place
  place-Filled i v b li empty hv lv f =
      elim (Bool-cases (u.rows (i / 9) v || u.cols (i % 9) v || u.boxes (box_of i) v)) [
        | inl used ↦ (b, rw used refl, record { same = f.same; few = omega (arith, f.few) })
        | inr unused ↦
            let (c, e, few, same) =
              add_row-rows i v b li lv (omega (arith, f.few))
                (not_null i b (9 * i + v) f (s.of_cell i li empty))
                (not_null (get_row_col (i / 9) v) b (9 * i + v) f (
                  s.of_row.made (i / 9) v hv lv (omega arith) (omega arith)
                    (ground (arith, unused))))
                (not_null (get_col_col (i % 9) v) b (9 * i + v) f (
                  s.of_col.made (i % 9) v hv lv (omega arith) (omega arith)
                    (ground (arith, unused))))
                (not_null (get_box_col (box_of i) v) b (9 * i + v) f (
                  s.of_box.made (box_of i) v hv lv (omega arith) (omega arith)
                    (ground (arith, unused)))) in
            (c, rw unused e, record { same = same ∙ f.same; few = omega (arith, f.few, few) })
      ]

  cell_rows-Filled :
      (i : ℕ) (b : Builder)
      → length inout ≡ 81
      → i < 81
      → Filled (9 * i + 1) b
      → (c : Builder) × (cell_rows u inout i b ≡ some c) × Filled (9 * suc i + 1) c
  unfolding cell_rows
  cell_rows-Filled i b len li f =
      let at : get_elem? inout i ≡ some (get_or inout i 0) =
        get_elem?-get_or inout i 0 (omega arith) in
      elim (Bool-cases (get_or inout i 0 == 0)) [
        | inl zero_there ↦
            let empty : IsEmpty inout i = ground (arith, at) in
            let (c, e, g) =
              for_range-holds (λ v. Filled (9 * i + v)) (place u i) 1 9 b f
                (λ v x h l p. place-Filled i v x li empty h l p) in
            (c, rw at (rw zero_there e), subst (λ t. Filled t c) (omega arith) g)
        | inr full ↦ (b, rw at (rw full refl), record { same = f.same; few = omega (arith, f.few) })
      ]

  pub rows-Filled :
      length inout ≡ 81
      → (c : Builder) × (for_range 0 81 (cell_rows u inout) made ≡ some c) × Filled 730 c
  rows-Filled len =
      for_range-holds (λ i. Filled (9 * i + 1)) (cell_rows u inout) 0 81 made
        (record { same = refl; few = omega (arith, s.few) })
        (λ i x _ l p. cell_rows-Filled i x len l p)
