-- ===== src/Solver/Build/Ready.antt =====
-- sudoku.cc: the matrix that the constructor makes is one for the search.
use network_lib.Base.{
  ℕ, suc, ◌+◌, ◌*◌, ◌/◌, ◌%◌, ◌<◌, ◌≤◌, ◌≡◌, refl, sym, ◌∙◌, subst, true, false, Option, none, some,
  List, [], ◌∷◌, map, has, ltb, arith,
}
use network_lib.Solver.Grid.{Plan, Core, Inv}
use network_lib.Solver.Search.Fill.{IsLabelled, pick}
use network_lib.Solver.Build.{Builder, get_row_col, get_col_col, get_box_col, box_of}
use network_lib.Solver.Build.Flat.{range, has-range, range-Head}
use network_lib.Solver.Build.Vertical.{placed}
use network_lib.Solver.Build.Quads.{Quad}
use network_lib.Solver.Build.Rowed.{Rowed}
use network_lib.Solver.Build.Turns.{
  first_of, mates_of, mates_of0, mates_of1, mates_of2, mates_of3, mates_of-first,
}
use network_lib.Solver.Build.Matrix.{plan, of_rows, known_above, same_first}

module _ (k count : ℕ) (b : Builder) (rows : ℕ → List ℕ) (s : Rowed k count b rows) where
  abbrev the_plan : Plan
  the_plan = plan k count b rows s

  in_range : (c : ℕ) → has c (range 1 k) ≡ true → (0 < c) × (c ≤ k)
  in_range c h = let e = has-range c 1 k in (ground (arith, e, h), ground (arith, e, h))

  is_row :
      (c x : ℕ)
      → has c (range 1 k) ≡ true
      → has x (rows c) ≡ true
      → (k < x) × (x < b.cur_node) × (b.nodes.col x ≡ c)
  is_row c x hc hx =
      let (pos, low) = in_range c hc in
      let e = s.vertical.members c x pos low in
      (ground (arith, e, hx), ground (arith, e, hx), ground (arith, e, hx))

  matrix-Core :
      (n : ℕ) → b.cur_node ≤ n → Core the_plan n b.nodes (placed b.cur_node) (range 1 k) rows
  matrix-Core n h =
      let v = s.vertical in
      let above = v.above in
      record {
        left_same = λ x l. refl;
        right_same = λ x l. refl;
        col_same = λ x. refl;
        name_same = λ x. refl;
        linked = v.linked;
        ring = λ c hc. let (pos, low) = in_range c hc in v.ring c pos low;
        once = λ c hc. let (pos, low) = in_range c hc in v.once c pos low;
        fits =
            λ c hc. let (pos, low) = in_range c hc in let short = v.short c pos low in omega arith;
        complete = λ x l kx.
            let (pos, low) = v.col_in x (ground (arith, kx)) (ground (arith, kx)) in
            ground (arith, v.members (b.nodes.col x) x pos low, kx);
        row_live = λ c x hc hx. let (low, high, _) = is_row c x hc hx in ground arith;
        row_known = λ c x hc hx. let (low, high, _) = is_row c x hc hx in ground arith;
        row_column = λ c x hc hx. (is_row c x hc hx).2;
        live_column =
            λ x l. ground (arith, l, v.col_is x, v.col_in x, has-range (b.nodes.col x) 1 k);
        col_live = λ c hc. let (pos, low) = in_range c hc in ground arith;
        col_known = λ c hc. let (pos, low) = in_range c hc in ground arith;
        col_column = λ c hc. let (pos, low) = in_range c hc in v.col_is c low;
      }

  pub matrix-Inv :
      (n : ℕ) → b.cur_node ≤ n → Inv the_plan n b.nodes (placed b.cur_node) (range 1 k) rows
  matrix-Inv n h = record {
    core = matrix-Core n h;
    head = range-Head k b.nodes.left b.nodes.right s.right_is s.left_is;
    whole = λ x y l kx hy.
        let known =
          same_first k count b rows s x y kx
            (mates_of-first k x y (known_above k count b rows s x kx) hy).1 in
        known-placed y known;
    kept = λ x kx all. known-placed x kx;
  }
    where
      known-placed : (x : ℕ) → the_plan.known x ≡ true → placed b.cur_node x ≡ true
      known-placed x h = ground (arith, h)

  -- The cell and the value of a row
  abbrev pub cell_of : ℕ → ℕ
  cell_of x = b.nodes.name (first_of k x)

  abbrev pub value_of : ℕ → ℕ
  value_of x = b.nodes.name (first_of k x + 1) % 10

  first_of_turn : (q e : ℕ) → e < 4 → first_of k (suc k + 4 * q + e) ≡ suc k + 4 * q
  first_of_turn q e l = omega arith

  -- The four names lead to the cell and the value from each of the nodes.
  picks :
      (i v r c d : ℕ)
      → i < 100
      → 0 < v
      → v < 10
      → r ≡ get_row_col (i / 9) v
      → c ≡ get_col_col (i % 9) v
      → d ≡ get_box_col (box_of i) v
      → (pick (i ∷ r ∷ c ∷ d ∷ []) none none ≡ some (i, v))
        × (pick (r ∷ c ∷ d ∷ i ∷ []) none none ≡ some (i, v))
        × (pick (c ∷ d ∷ i ∷ r ∷ []) none none ≡ some (i, v))
        × (pick (d ∷ i ∷ r ∷ c ∷ []) none none ≡ some (i, v))
        × (r % 10 ≡ v)
  picks i v r c d li hv lv er ec ed =
      let li' : ltb i 100 ≡ true = ground arith in
      let lr : ltb r 100 ≡ false = ground (arith, er) in
      let lc : ltb c 100 ≡ false = ground (arith, ec) in
      let ld : ltb d 100 ≡ false = ground (arith, ed) in
      let mr : r % 10 ≡ v = omega arith in
      let mc : c % 10 ≡ v = omega arith in
      let md : d % 10 ≡ v = omega arith in
      (
        rw li' (rw lr (rw mr refl)),
        rw lr (rw lc (rw ld (rw li' (rw md refl)))),
        rw lc (rw ld (rw li' (rw md refl))),
        rw ld (rw li' (rw md refl)),
        mr,
      )

  abbrev Picked : ℕ → Type 0
  Picked x = pick (map b.nodes.name (x ∷ mates_of k x)) none none ≡ some (cell_of x, value_of x)

  module _ (q i v : ℕ) (d : Quad b.nodes (suc k + 4 * q) i v) where
    abbrev y : ℕ
    y = suc k + 4 * q

    abbrev at : ℕ → ℕ × ℕ
    at first = (b.nodes.name first, b.nodes.name (first + 1) % 10)

    abbrev found : Option (ℕ × ℕ)
    found = some (i, v)

    picked_names : (first : ℕ) → first ≡ y → found ≡ some (at first)
    picked_names first e =
        let (_, _, _, _, m) =
          picks i v (b.nodes.name (y + 1)) (b.nodes.name (y + 2)) (b.nodes.name (y + 3))
            (omega (arith, d.cell_fits)) d.positive d.small d.name1 d.name2 d.name3 in
        subst (λ z. found ≡ some (at z)) (sym e) (rw d.name0 (rw m refl))

    four : Picked y × Picked (y + 1) × Picked (y + 2) × Picked (y + 3)
    four =
        let (e0, e1, e2, e3, _) =
          picks i v (b.nodes.name (y + 1)) (b.nodes.name (y + 2)) (b.nodes.name (y + 3))
            (omega (arith, d.cell_fits)) d.positive d.small d.name1 d.name2 d.name3 in
        (
          rw (mates_of0 k q) (rw d.name0 e0) ∙ picked_names (first_of k y) (omega arith),
          rw (mates_of1 k q) (rw d.name0 e1) ∙ picked_names (first_of k (y + 1)) (omega arith),
          rw (mates_of2 k q) (rw d.name0 e2) ∙ picked_names (first_of k (y + 2)) (omega arith),
          rw (mates_of3 k q) (rw d.name0 e3) ∙ picked_names (first_of k (y + 3)) (omega arith),
        )

    cell_fits_at : (x : ℕ) → first_of k x ≡ y → cell_of x < 81
    cell_fits_at x e =
        subst (λ z. b.nodes.name z < 81) (sym e) (omega (arith, d.name0, d.cell_fits))

  pub matrix-IsLabelled : IsLabelled the_plan 81 cell_of value_of
  matrix-IsLabelled = record {
    picked =
        of_rows k count b rows s Picked (λ q i v l d. (four q i v d).0)
          (λ q i v l d. (four q i v d).1) (λ q i v l d. (four q i v d).2)
          (λ q i v l d. (four q i v d).3);
    cell_fits =
        of_rows k count b rows s (λ x. cell_of x < 81)
          (λ q i v l d. cell_fits_at q i v d (suc k + 4 * q) (omega arith))
          (λ q i v l d. cell_fits_at q i v d (suc k + 4 * q + 1) (omega arith))
          (λ q i v l d. cell_fits_at q i v d (suc k + 4 * q + 2) (omega arith))
          (λ q i v l d. cell_fits_at q i v d (suc k + 4 * q + 3) (omega arith));
  }
