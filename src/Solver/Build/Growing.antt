-- ===== src/Solver/Build/Growing.antt =====
-- sudoku.cc: a row more in the matrix that the constructor makes.
use network_lib.Base.{
  ℕ, suc, ◌+◌, ◌*◌, ◌/◌, ◌%◌, ◌<◌, ◌≤◌, ◌≡◌, sym, ◌∙◌, subst, some, List, ◌==◌, ltb, leb,
  if◌then◌else◌, arith, Bool-cases, inl, inr, ◌&&◌,
}
use network_lib.Solver.{Nodes}
use network_lib.Solver.Build.{Builder, get_row_col, get_col_col, get_box_col, box_of}
use network_lib.Solver.Build.Vertical.{Vertical}
use network_lib.Solver.Build.Quads.{Quad, Agree, Quad-Agree}
use network_lib.Solver.Build.Rowed.{Rowed, joined, Parts, joined-Vertical, Joined, joined-Joined}

module _ (i v : ℕ) (b c : Builder) (parts : Parts i v b c) where
  abbrev x : ℕ
  x = b.cur_node

  abbrev last : Nodes
  last = parts.b3.nodes

  turns :
      (parts.b0.cur_node ≡ x + 1)
      × (parts.b1.cur_node ≡ x + 2)
      × (parts.b2.cur_node ≡ x + 3)
      × (parts.b3.cur_node ≡ x + 4)
  turns =
      let e0 = parts.new0.cur_is in
      let e1 = parts.new1.cur_is in
      let e2 = parts.new2.cur_is in
      let e3 = parts.new3.cur_is in (omega arith, omega arith, omega arith, omega arith)

  last-left : (y : ℕ) → last.left y ≡ (if leb x y && ltb y (x + 4) then y else b.nodes.left y)
  last-left y =
      let (e0, e1, e2, _) = turns in
      ground (
        arith,
        e0,
        e1,
        e2,
        parts.new0.left_is y,
        parts.new1.left_is y,
        parts.new2.left_is y,
        parts.new3.left_is y,
      )

  last-right : (y : ℕ) → last.right y ≡ (if leb x y && ltb y (x + 4) then y else b.nodes.right y)
  last-right y =
      let (e0, e1, e2, _) = turns in
      ground (
        arith,
        e0,
        e1,
        e2,
        parts.new0.right_is y,
        parts.new1.right_is y,
        parts.new2.right_is y,
        parts.new3.right_is y,
      )

  last-name :
      (y : ℕ)
      → last.name y ≡ (
          if y == x
          then i
          else if y == x + 1
          then get_row_col (i / 9) v
          else if y == x + 2
          then get_col_col (i % 9) v
          else if y == x + 3
          then get_box_col (box_of i) v
          else b.nodes.name y)
  last-name y =
      let (e0, e1, e2, _) = turns in
      ground (
        arith,
        e0,
        e1,
        e2,
        parts.new0.name_is y,
        parts.new1.name_is y,
        parts.new2.name_is y,
        parts.new3.name_is y,
      )

  last-col :
      (y : ℕ)
      → last.col y ≡ (
          if y == x
          then parts.a0
          else if y == x + 1
          then parts.a1
          else if y == x + 2
          then parts.a2
          else if y == x + 3
          then parts.a3
          else b.nodes.col y)
  last-col y =
      let (e0, e1, e2, _) = turns in
      ground (
        arith,
        e0,
        e1,
        e2,
        parts.new0.col_is y,
        parts.new1.col_is y,
        parts.new2.col_is y,
        parts.new3.col_is y,
      )

  joins : Joined last x parts.p0 parts.p1 parts.p2 parts.p3
  joins =
      let (e0, e1, e2, _) = turns in
      joined-Joined last x parts.p0 parts.p1 parts.p2 parts.p3 parts.new0.node_is
        (parts.new1.node_is ∙ e0) (parts.new2.node_is ∙ e1) (parts.new3.node_is ∙ e2)
        (λ e l. ground (arith, last-left (x + e))) (λ e l. ground (arith, last-right (x + e)))

  abbrev pub after : Builder
  after = record parts.b3 { nodes = joined parts.p0 parts.p1 parts.p2 parts.p3 last }

  after-columns : parts.b3.columns ≡ b.columns
  after-columns =
      parts.new3.same_columns
      ∙ (parts.new2.same_columns ∙ (parts.new1.same_columns ∙ parts.new0.same_columns))

  agrees : Agree b.nodes after.nodes x
  agrees = record {
    left_at = λ y l. ground (arith, joins.same_left y l, last-left y);
    right_at = λ y l. ground (arith, joins.same_right y l, last-right y);
    name_at = λ y l. ground (arith, joins.same_name y, last-name y);
    col_at = λ y l. ground (arith, joins.same_col y, last-col y);
  }

  module _ (k count : ℕ) (rows : ℕ → List ℕ) (s : Rowed k count b rows) where
    -- The four columns, by their names.
    known0 : (0 < parts.a0) × (parts.a0 ≤ k) × (b.nodes.name parts.a0 ≡ i)
    known0 = s.found i parts.a0 parts.new0.at_column

    known1 : (0 < parts.a1) × (parts.a1 ≤ k) × (b.nodes.name parts.a1 ≡ get_row_col (i / 9) v)
    known1 = s.found (get_row_col (i / 9) v) parts.a1 (
        subst (λ f. f (get_row_col (i / 9) v) ≡ some parts.a1) parts.new0.same_columns
          parts.new1.at_column)

    known2 : (0 < parts.a2) × (parts.a2 ≤ k) × (b.nodes.name parts.a2 ≡ get_col_col (i % 9) v)
    known2 = s.found (get_col_col (i % 9) v) parts.a2 (
        subst (λ f. f (get_col_col (i % 9) v) ≡ some parts.a2)
          (parts.new1.same_columns ∙ parts.new0.same_columns) parts.new2.at_column)

    known3 : (0 < parts.a3) × (parts.a3 ≤ k) × (b.nodes.name parts.a3 ≡ get_box_col (box_of i) v)
    known3 = s.found (get_box_col (box_of i) v) parts.a3 (
        subst (λ f. f (get_box_col (box_of i) v) ≡ some parts.a3)
          (parts.new2.same_columns ∙ (parts.new1.same_columns ∙ parts.new0.same_columns))
          parts.new3.at_column)

    last-Vertical : (later : ℕ → List ℕ) × Vertical k after.cur_node after.nodes later
    last-Vertical =
        let (h0, l0, _) = known0 in
        let (h1, l1, _) = known1 in
        let (h2, l2, _) = known2 in
        let (h3, l3, _) = known3 in
        let v0 = parts.new0.keeps_Vertical k rows h0 l0 s.vertical in
        let v1 = parts.new1.keeps_Vertical k _ h1 l1 v0 in
        let v2 = parts.new2.keeps_Vertical k _ h2 l2 v1 in
        let v3 = parts.new3.keeps_Vertical k _ h3 l3 v2 in
        (_, joined-Vertical last x parts.p0 parts.p1 parts.p2 parts.p3 k parts.b3.cur_node _ v3)

    named_new :
        (e : ℕ) → e < 4 → after.nodes.name (after.nodes.col (x + e)) ≡ after.nodes.name (x + e)
    named_new e l =
        let (h0, l0, n0) = known0 in
        let (h1, l1, n1) = known1 in
        let (h2, l2, n2) = known2 in
        let (h3, l3, n3) = known3 in
        let above = s.vertical.above in
        let column : after.nodes.col (x + e) ≡ (
            if e == 0
            then parts.a0
            else if e == 1
            then parts.a1
            else if e == 2
            then parts.a2
            else parts.a3) =
          ground (arith, joins.same_col (x + e), last-col (x + e)) in
        ground (
          arith,
          column,
          joins.same_name (x + e),
          last-name (x + e),
          agrees.name_at (after.nodes.col (x + e)),
        )

    new-Quad : 0 < v → v < 10 → i < 81 → Quad after.nodes x i v
    new-Quad hv lv li = record {
      cell_fits = li;
      positive = hv;
      small = lv;
      name0 = ground (arith, joins.same_name x, last-name x);
      name1 = ground (arith, joins.same_name (x + 1), last-name (x + 1));
      name2 = ground (arith, joins.same_name (x + 2), last-name (x + 2));
      name3 = ground (arith, joins.same_name (x + 3), last-name (x + 3));
      right0 = joins.right0;
      right1 = joins.right1;
      right2 = joins.right2;
      right3 = joins.right3;
      left0 = joins.left0;
      left1 = joins.left1;
      left2 = joins.left2;
      left3 = joins.left3;
      named = named_new;
    }

    quads_all :
        0 < v
        → v < 10
        → i < 81
        → (q : ℕ) → q < suc count
        → (j : ℕ) × (w : ℕ) × Quad after.nodes (suc k + 4 * q) j w
    quads_all hv lv li q l = elim (Bool-cases (q == count)) [
      | inl this ↦
          let at : x ≡ suc k + 4 * q = ground (arith, s.cur_is) in
          (i, v, subst (λ y. Quad after.nodes y i v) at (new-Quad hv lv li))
      | inr old ↦
          let (j, w, quad) = s.quads q (ground arith) in
          let above = s.vertical.above in
          let inside : suc k + 4 * q + 4 ≤ x = ground (arith, s.cur_is) in
          (
            j,
            w,
            Quad-Agree b.nodes after.nodes (suc k + 4 * q) j w x inside
                (λ e h.
                  omega (
                    arith,
                    above,
                    s.vertical.col_in (suc k + 4 * q + e) (omega arith) (omega arith),
                  ))
                agrees quad,
          )
    ]

    pub after-Rowed :
        0 < v → v < 10 → i < 81 → (later : ℕ → List ℕ) × Rowed k (suc count) after later
    after-Rowed hv lv li =
        let (later, vert) = last-Vertical in
        let above = s.vertical.above in
        (
          later,
          record {
            cur_is = omega (arith, turns.3, s.cur_is);
            vertical = vert;
            right_is = λ y l. ground (arith, above, agrees.right_at y, s.right_is y l);
            left_is = λ y l. ground (arith, above, agrees.left_at y, s.left_is y l);
            found = λ n a h.
                let (pos, low, name) = s.found n a (subst (λ f. f n ≡ some a) after-columns h) in
                (pos, low, agrees.name_at a (omega (arith, above, low)) ∙ name);
            back = λ a h l.
                rw (agrees.name_at a (omega (arith, above, l)))
                  (subst (λ f. f (b.nodes.name a) ≡ some a) (sym after-columns) (s.back a h l));
            quads = quads_all hv lv li;
          },
        )
