-- ===== src/Solver/Build/Rowed.antt =====
-- sudoku.cc: the matrix while the constructor adds rows.
use network_lib.Base.{
  ℕ, suc, ◌+◌, ◌-◌, ◌*◌, ◌/◌, ◌%◌, ◌<◌, ◌≤◌, ◌≡◌, refl, sym, ap, ◌∙◌, subst, some, List, [], ◌>>=◌,
  ◌==◌, if◌then◌else◌, arith,
}
use network_lib.Solver.{Nodes, put_left}
use network_lib.Solver.Build.{
  Builder, new_row, add_row, get_row_col, get_col_col, get_box_col, box_of,
}
use network_lib.Solver.Build.Ranges.{bind_some}
use network_lib.Solver.Build.Columned.{Columned}
use network_lib.Solver.Build.Vertical.{Vertical, Flat-Vertical}
use network_lib.Solver.Build.Quads.{Quad, New, new_row-New}

-- The columns are the nodes from 1 to `k`, and `count` rows of four nodes follow.
pub record Rowed (k count : ℕ) (b : Builder) (rows : ℕ → List ℕ) : Type 0 where
  pub cur_is : b.cur_node ≡ suc k + 4 * count
  pub vertical : Vertical k b.cur_node b.nodes rows
  pub right_is : (x : ℕ) → x ≤ k → b.nodes.right x ≡ (if x == k then 0 else suc x)
  pub left_is : (x : ℕ) → x ≤ k → b.nodes.left x ≡ (if x == 0 then k else x - 1)
  pub found : (n c : ℕ) → b.columns n ≡ some c → (0 < c) × (c ≤ k) × (b.nodes.name c ≡ n)
  pub back : (c : ℕ) → 0 < c → c ≤ k → b.columns (b.nodes.name c) ≡ some c
  pub quads : (q : ℕ) → q < count → (i : ℕ) × (v : ℕ) × Quad b.nodes (suc k + 4 * q) i v

pub Columned-Rowed : (k : ℕ) (b : Builder) → Columned k b → Rowed k 0 b (λ c. [])
Columned-Rowed k b s = record {
  cur_is = omega (arith, s.cur_is);
  vertical =
      subst (λ q. Vertical k q b.nodes (λ c. [])) (sym s.cur_is) (Flat-Vertical k b.nodes s.flat);
  right_is = s.flat.right_is;
  left_is = s.flat.left_is;
  found = s.found;
  back = s.back;
  quads = λ q l. absurd (omega arith);
}

-- The four nodes after they were put into one ring.
abbrev pub joined : ℕ → ℕ → ℕ → ℕ → Nodes → Nodes
joined p0 p1 p2 p3 m = put_left p0 p3 (put_left p0 p2 (put_left p0 p1 m))

-- The parts of `add_row`.
pub record Parts (i v : ℕ) (b c : Builder) : Type 0 where
  pub b0 : Builder
  pub b1 : Builder
  pub b2 : Builder
  pub b3 : Builder
  pub p0 : ℕ
  pub p1 : ℕ
  pub p2 : ℕ
  pub p3 : ℕ
  pub a0 : ℕ
  pub a1 : ℕ
  pub a2 : ℕ
  pub a3 : ℕ
  pub new0 : New b b0 i p0 a0
  pub new1 : New b0 b1 (get_row_col (i / 9) v) p1 a1
  pub new2 : New b1 b2 (get_col_col (i % 9) v) p2 a2
  pub new3 : New b2 b3 (get_box_col (box_of i) v) p3 a3
  pub result : c ≡ record b3 { nodes = joined p0 p1 p2 p3 b3.nodes }

pub add_row-Parts : (i v : ℕ) (b c : Builder) → add_row i v b ≡ some c → Parts i v b c
unfolding add_row
add_row-Parts i v b c e =
    let (r0, e0, f0) =
      bind_some (new_row i b)
        (λ r0. new_row (get_row_col (i / 9) v) r0.1 >>= λ r1.
          new_row (get_col_col (i % 9) v) r1.1 >>= λ r2.
          new_row (get_box_col (box_of i) v) r2.1 >>= λ r3.
          some (record r3.1 { nodes = joined r0.0 r1.0 r2.0 r3.0 r3.1.nodes }))
        c e in
    let (r1, e1, f1) =
      bind_some (new_row (get_row_col (i / 9) v) r0.1)
        (λ r1. new_row (get_col_col (i % 9) v) r1.1 >>= λ r2.
          new_row (get_box_col (box_of i) v) r2.1 >>= λ r3.
          some (record r3.1 { nodes = joined r0.0 r1.0 r2.0 r3.0 r3.1.nodes }))
        c f0 in
    let (r2, e2, f2) =
      bind_some (new_row (get_col_col (i % 9) v) r1.1)
        (λ r2. new_row (get_box_col (box_of i) v) r2.1 >>= λ r3.
          some (record r3.1 { nodes = joined r0.0 r1.0 r2.0 r3.0 r3.1.nodes }))
        c f1 in
    let (r3, e3, f3) =
      bind_some (new_row (get_box_col (box_of i) v) r2.1)
        (λ r3. some (record r3.1 { nodes = joined r0.0 r1.0 r2.0 r3.0 r3.1.nodes })) c f2 in
    let (a0, n0) = new_row-New i b r0.1 r0.0 e0 in
    let (a1, n1) = new_row-New (get_row_col (i / 9) v) r0.1 r1.1 r1.0 e1 in
    let (a2, n2) = new_row-New (get_col_col (i % 9) v) r1.1 r2.1 r2.0 e2 in
    let (a3, n3) = new_row-New (get_box_col (box_of i) v) r2.1 r3.1 r3.0 e3 in
    record {
      b0 = r0.1;
      b1 = r1.1;
      b2 = r2.1;
      b3 = r3.1;
      p0 = r0.0;
      p1 = r1.0;
      p2 = r2.0;
      p3 = r3.0;
      a0 = a0;
      a1 = a1;
      a2 = a2;
      a3 = a3;
      new0 = n0;
      new1 = n1;
      new2 = n2;
      new3 = n3;
      result = cc;
    }

module _ (m : Nodes) (x p0 p1 p2 p3 : ℕ) where
  pub joined-Vertical :
      (k cur : ℕ) (rows : ℕ → List ℕ)
      → Vertical k cur m rows
      → Vertical k cur (joined p0 p1 p2 p3 m) rows
  unfolding put_left
  joined-Vertical k cur rows v = record {
    above = v.above;
    linked = record {
      up_live = v.linked.up_live;
      down_live = v.linked.down_live;
      down_up = v.linked.down_up;
      up_down = v.linked.up_down;
      up_col = v.linked.up_col;
      down_col = v.linked.down_col;
      sized = v.linked.sized;
    };
    col_is = v.col_is;
    col_in = v.col_in;
    ring = v.ring;
    once = v.once;
    members = v.members;
    short = v.short;
  }

  -- The links of four nodes in turn that were alone.
  pub record Joined : Type 0 where
    pub right0 : (joined p0 p1 p2 p3 m).right x ≡ x + 1
    pub right1 : (joined p0 p1 p2 p3 m).right (x + 1) ≡ x + 2
    pub right2 : (joined p0 p1 p2 p3 m).right (x + 2) ≡ x + 3
    pub right3 : (joined p0 p1 p2 p3 m).right (x + 3) ≡ x
    pub left0 : (joined p0 p1 p2 p3 m).left x ≡ x + 3
    pub left1 : (joined p0 p1 p2 p3 m).left (x + 1) ≡ x
    pub left2 : (joined p0 p1 p2 p3 m).left (x + 2) ≡ x + 1
    pub left3 : (joined p0 p1 p2 p3 m).left (x + 3) ≡ x + 2
    pub same_col : (y : ℕ) → (joined p0 p1 p2 p3 m).col y ≡ m.col y
    pub same_name : (y : ℕ) → (joined p0 p1 p2 p3 m).name y ≡ m.name y
    pub same_left : (y : ℕ) → y < x → (joined p0 p1 p2 p3 m).left y ≡ m.left y
    pub same_right : (y : ℕ) → y < x → (joined p0 p1 p2 p3 m).right y ≡ m.right y

  pub joined-Joined :
      p0 ≡ x
      → p1 ≡ x + 1
      → p2 ≡ x + 2
      → p3 ≡ x + 3
      → ((e : ℕ) → e < 4 → m.left (x + e) ≡ x + e)
      → ((e : ℕ) → e < 4 → m.right (x + e) ≡ x + e)
      → Joined
  unfolding put_left
  joined-Joined e0 e1 e2 e3 l r =
      let l0 : m.left x ≡ x = ap m.left (omega arith) ∙ (l 0 (omega arith) ∙ omega arith) in
      record {
        right0 = ground (arith, l0);
        right1 = ground (arith, l0);
        right2 = ground (arith, l0);
        right3 = ground (arith, l0);
        left0 = ground (arith, l0);
        left1 = ground (arith, l0);
        left2 = ground (arith, l0);
        left3 = ground (arith, l0);
        same_col = λ y. refl;
        same_name = λ y. refl;
        same_left = λ y h. ground (arith, l0);
        same_right = λ y h. ground (arith, l0);
      }
