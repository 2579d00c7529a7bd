-- ===== src/Solver/Build/Matrix.antt =====
-- sudoku.cc: the rows of the matrix that the constructor makes.
use network_lib.Base.{
  ℕ, suc, ◌+◌, ◌*◌, ◌<◌, ◌≡◌, ◌≢◌, sym, ap, ◌∙◌, subst, true, List, ◌∷◌, length, backwards, ◌==◌,
  ltb, arith, Bool-cases, inl, inr, ◌&&◌,
}
use network_lib.Solver.{Nodes}
use network_lib.Solver.Loops.{Chain}
use network_lib.Solver.Grid.{Plan, IsPlan, AllApart}
use network_lib.Solver.Build.{Builder}
use network_lib.Solver.Build.Quads.{Quad}
use network_lib.Solver.Build.Rowed.{Rowed}
use network_lib.Solver.Build.Turns.{
  first_of, mates_of, has-mates_of, mates_of0, mates_of1, mates_of2, mates_of3, by_turn, ==_eq,
  swapped, together, mates_of-first,
}

module _ (k count : ℕ) (b : Builder) (rows : ℕ → List ℕ) (s : Rowed k count b rows) where
  abbrev m : Nodes
  m = b.nodes

  -- What the search never changes, in the matrix that is made.
  abbrev pub plan : Plan
  plan = record {
    root = 0;
    known = λ x. ltb k x && ltb x b.cur_node;
    mates = mates_of k;
    to_left = m.left;
    to_right = m.right;
    column = m.col;
    label = m.name;
  }

  -- What holds of each row's four nodes, as numbered from its first one, holds of all.
  pub of_rows :
      (P : ℕ → Type 0)
      → ((q i v : ℕ) → q < count → Quad m (suc k + 4 * q) i v → P (suc k + 4 * q))
      → ((q i v : ℕ) → q < count → Quad m (suc k + 4 * q) i v → P (suc k + 4 * q + 1))
      → ((q i v : ℕ) → q < count → Quad m (suc k + 4 * q) i v → P (suc k + 4 * q + 2))
      → ((q i v : ℕ) → q < count → Quad m (suc k + 4 * q) i v → P (suc k + 4 * q + 3))
      → (x : ℕ) → plan.known x ≡ true
      → P x
  of_rows P a0 a1 a2 a3 x h =
      by_turn k P count x (λ q l. let (i, v, quad) = s.quads q l in a0 q i v l quad)
        (λ q l. let (i, v, quad) = s.quads q l in a1 q i v l quad)
        (λ q l. let (i, v, quad) = s.quads q l in a2 q i v l quad)
        (λ q l. let (i, v, quad) = s.quads q l in a3 q i v l quad) (ground (arith, h))
        (ground (arith, h, s.cur_is))

  -- The nodes of a row stand in different columns, since these have other names.
  apart_names :
      (x y : ℕ)
      → m.name (m.col x) ≡ m.name x
      → m.name (m.col y) ≡ m.name y
      → m.name x ≢ m.name y
      → m.col x ≢ m.col y
  apart_names x y ex ey ne e = ne (sym ex ∙ (ap m.name e ∙ ey))

  module _ (x i v : ℕ) (q : Quad m x i v) where
    named0 : m.name (m.col x) ≡ m.name x
    named0 = subst (λ y. m.name (m.col y) ≡ m.name y) (omega arith) (q.named 0 (omega arith))

    abbrev Apart : ℕ → ℕ → Type 0
    Apart y z = (m.col y ≢ m.col z) × (m.col z ≢ m.col y)

    pair-Apart :
        (y z : ℕ)
        → m.name (m.col y) ≡ m.name y
        → m.name (m.col z) ≡ m.name z
        → m.name y ≢ m.name z
        → Apart y z
    pair-Apart y z ey ez ne = (apart_names y z ey ez ne, apart_names z y ez ey (λ e. ne (sym e)))

    pub apart01 : Apart x (x + 1)
    apart01 =
        pair-Apart x (x + 1) named0 (q.named 1 (omega arith))
          (λ e. omega (arith, e, q.name0, q.name1, q.cell_fits))

    pub apart02 : Apart x (x + 2)
    apart02 =
        pair-Apart x (x + 2) named0 (q.named 2 (omega arith))
          (λ e. omega (arith, e, q.name0, q.name2, q.cell_fits))

    pub apart03 : Apart x (x + 3)
    apart03 =
        pair-Apart x (x + 3) named0 (q.named 3 (omega arith))
          (λ e. omega (arith, e, q.name0, q.name3, q.cell_fits))

    pub apart12 : Apart (x + 1) (x + 2)
    apart12 =
        pair-Apart (x + 1) (x + 2) (q.named 1 (omega arith)) (q.named 2 (omega arith))
          (λ e. omega (arith, e, q.name1, q.name2, q.cell_fits, q.small))

    pub apart13 : Apart (x + 1) (x + 3)
    apart13 =
        pair-Apart (x + 1) (x + 3) (q.named 1 (omega arith)) (q.named 3 (omega arith))
          (λ e. omega (arith, e, q.name1, q.name3, q.cell_fits, q.small))

    pub apart23 : Apart (x + 2) (x + 3)
    apart23 =
        pair-Apart (x + 2) (x + 3) (q.named 2 (omega arith)) (q.named 3 (omega arith))
          (λ e. omega (arith, e, q.name2, q.name3, q.cell_fits, q.small))

  four_apart : (x : ℕ) → plan.known x ≡ true → AllApart m.col (x ∷ mates_of k x)
  four_apart =
      of_rows (λ x. AllApart m.col (x ∷ mates_of k x))
        (λ q i v l d.
          let y = suc k + 4 * q in
          rw (mates_of0 k q) (
            ((apart01 y i v d).1, ((apart02 y i v d).1, ((apart03 y i v d).1, tt))),
            (
              ((apart12 y i v d).1, ((apart13 y i v d).1, tt)),
              (((apart23 y i v d).1, tt), (tt, tt)),
            ),
          ))
        (λ q i v l d.
          let y = suc k + 4 * q in
          rw (mates_of1 k q) (
            ((apart12 y i v d).1, ((apart13 y i v d).1, ((apart01 y i v d).0, tt))),
            (
              ((apart23 y i v d).1, ((apart02 y i v d).0, tt)),
              (((apart03 y i v d).0, tt), (tt, tt)),
            ),
          ))
        (λ q i v l d.
          let y = suc k + 4 * q in
          rw (mates_of2 k q) (
            ((apart23 y i v d).1, ((apart02 y i v d).0, ((apart12 y i v d).0, tt))),
            (
              ((apart03 y i v d).0, ((apart13 y i v d).0, tt)),
              (((apart01 y i v d).1, tt), (tt, tt)),
            ),
          ))
        (λ q i v l d.
          let y = suc k + 4 * q in
          rw (mates_of3 k q) (
            ((apart03 y i v d).0, ((apart13 y i v d).0, ((apart23 y i v d).0, tt))),
            (
              ((apart01 y i v d).1, ((apart02 y i v d).1, tt)),
              (((apart12 y i v d).1, tt), (tt, tt)),
            ),
          ))

  right_ring : (x : ℕ) → plan.known x ≡ true → Chain m.right x (m.right x) (mates_of k x)
  right_ring =
      of_rows (λ x. Chain m.right x (m.right x) (mates_of k x))
        (λ q i v l d. rw (mates_of0 k q) (
          d.right0,
          λ e. omega (arith, e),
          (d.right1, λ e. omega (arith, e), (d.right2, λ e. omega (arith, e), d.right3)),
        ))
        (λ q i v l d. rw (mates_of1 k q) (
          d.right1,
          λ e. omega (arith, e),
          (d.right2, λ e. omega (arith, e), (d.right3, λ e. omega (arith, e), d.right0)),
        ))
        (λ q i v l d. rw (mates_of2 k q) (
          d.right2,
          λ e. omega (arith, e),
          (d.right3, λ e. omega (arith, e), (d.right0, λ e. omega (arith, e), d.right1)),
        ))
        (λ q i v l d. rw (mates_of3 k q) (
          d.right3,
          λ e. omega (arith, e),
          (d.right0, λ e. omega (arith, e), (d.right1, λ e. omega (arith, e), d.right2)),
        ))

  left_ring : (x : ℕ) → plan.known x ≡ true → Chain m.left x (m.left x) (backwards (mates_of k x))
  left_ring =
      of_rows (λ x. Chain m.left x (m.left x) (backwards (mates_of k x)))
        (λ q i v l d. rw (mates_of0 k q) (
          d.left0,
          λ e. omega (arith, e),
          (d.left3, λ e. omega (arith, e), (d.left2, λ e. omega (arith, e), d.left1)),
        ))
        (λ q i v l d. rw (mates_of1 k q) (
          d.left1,
          λ e. omega (arith, e),
          (d.left0, λ e. omega (arith, e), (d.left3, λ e. omega (arith, e), d.left2)),
        ))
        (λ q i v l d. rw (mates_of2 k q) (
          d.left2,
          λ e. omega (arith, e),
          (d.left1, λ e. omega (arith, e), (d.left0, λ e. omega (arith, e), d.left3)),
        ))
        (λ q i v l d. rw (mates_of3 k q) (
          d.left3,
          λ e. omega (arith, e),
          (d.left2, λ e. omega (arith, e), (d.left1, λ e. omega (arith, e), d.left0)),
        ))

  length-mates_of : (x : ℕ) → length (mates_of k x) ≡ 3
  length-mates_of x = ground arith

  pub known_above : (x : ℕ) → plan.known x ≡ true → k < x
  known_above x h = ground (arith, h)

  pub same_first :
      (x y : ℕ) → plan.known x ≡ true → first_of k y ≡ first_of k x → plan.known y ≡ true
  same_first x y h e = ground (arith, s.cur_is)

  pub plan-IsPlan : (n : ℕ) → 3 < n → IsPlan plan n
  plan-IsPlan n h = record {
    right_ring = right_ring;
    left_ring = left_ring;
    apart = four_apart;
    few = λ x l. omega (arith, length-mates_of x);
    mates_known = λ x y l e. same_first x y l (mates_of-first k x y (known_above x l) e).1;
    mates_sym = λ x y l e.
        let first = mates_of-first k x y (known_above x l) e in
        has-mates_of k y x (known_above y (same_first x y l first.1))
        ∙ swapped (first_of k) x y first;
    mates_trans = λ x y z l e f.
        let first = mates_of-first k x y (known_above x l) e in
        let more = mates_of-first k y z (known_above y (same_first x y l first.1)) f in
        elim (Bool-cases (z == x)) [
          | inl same ↦ inl (==_eq z x same)
          | inr other ↦ inr (
              has-mates_of k x z (known_above x l)
              ∙ together (first_of k) x z other (more.1 ∙ first.1))
        ];
    root_apart = ground arith;
  }
