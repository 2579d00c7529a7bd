-- ===== src/Solver/Grid/Unlink.antt =====
-- sudoku.cc: a node of a row that is unlinked from its column.
use network_lib.Base.{
  ℕ, ◌≡◌, ◌≢◌, sym, ◌∙◌, subst, Bool, true, List, has, remove, update, arith, Bool-cases, inl, inr,
  ◌==◌, has-remove, Once-remove, length-remove,
}
use network_lib.Solver.{Nodes, unlink}
use network_lib.Solver.Links.{without, unlink-IsLinked}
use network_lib.Solver.Loops.{Chain}
use network_lib.Solver.Rings.{Chain-agree, Chain-moves, Chain-remove, skip}
use network_lib.Solver.Grid.{Plan, Core}

module _ (p : Plan) (n : ℕ) (m : Nodes) (live : ℕ → Bool) (cols : List ℕ) (rows : ℕ → List ℕ)
    (k : Core p n m live cols rows) (j : ℕ) (h : live j ≡ true) (r : p.known j ≡ true) where
  -- The rows that are left.
  abbrev pub fewer : ℕ → List ℕ
  fewer = update rows (p.column j) (remove j (rows (p.column j)))

  here : has j (rows (p.column j)) ≡ true
  here = k.complete j h r

  unlink-down : (x : ℕ) → live x ≡ true → x ≢ j → (unlink j m).down x ≡ skip m.down j (m.down x)
  unfolding unlink
  unlink-down x l ne =
      ground (arith, k.linked.down_up j h, k.linked.up_down j h, k.linked.up_down x l)

  unlink-down_other : (x : ℕ) → p.column x ≢ p.column j → (unlink j m).down x ≡ m.down x
  unfolding unlink
  unlink-down_other x ne = ground (
    arith,
    k.linked.up_col j h,
    k.linked.down_up j h,
    k.linked.up_down j h,
    k.col_same x,
    k.col_same j,
    k.col_same (m.up j),
  )

  -- The column of the node, and another one.
  own_ring :
      (c : ℕ)
      → has c cols ≡ true
      → p.column j ≡ c
      → Chain (unlink j m).down c ((unlink j m).down c) (remove j (rows c))
  own_ring c hc e =
      let ne : j ≢ c = λ same. ground (arith, k.col_known c hc, r) in
      let loop : m.down j ≢ j =
        Chain-moves m.down c (m.down c) j (rows c) (k.ring c hc)
          (subst (λ q. has j (rows q) ≡ true) e here) ne in
      let same : (x : ℕ)
          → has x (rows c) ≡ true
          → x ≢ j
          → (unlink j m).down x ≡ skip m.down j (m.down x) =
        λ x hx. unlink-down x (k.row_live c x hc hx) in
      let top = unlink-down c (k.col_live c hc) (λ eq. ne (sym eq)) in
      subst (λ q. Chain (unlink j m).down c q (remove j (rows c))) (sym top)
        (Chain-remove m.down (unlink j m).down c j (m.down c) (rows c) ne loop same (k.ring c hc))

  other_ring :
      (c : ℕ)
      → has c cols ≡ true
      → p.column j ≢ c
      → Chain (unlink j m).down c ((unlink j m).down c) (rows c)
  other_ring c hc e =
      let at_c = unlink-down_other c (λ same. e (sym same ∙ k.col_column c hc)) in
      let at : (x : ℕ) → has x (rows c) ≡ true → m.down x ≡ (unlink j m).down x =
        λ x hx. sym (unlink-down_other x (λ same. e (sym same ∙ k.row_column c x hc hx))) in
      subst (λ q. Chain (unlink j m).down c q (rows c)) (sym at_c)
        (Chain-agree m.down (unlink j m).down c (m.down c) (rows c) at (k.ring c hc))

  ring_after :
      (c : ℕ) → has c cols ≡ true → Chain (unlink j m).down c ((unlink j m).down c) (fewer c)
  ring_after c hc = elim (Bool-cases (c == p.column j)) [
    | inl own ↦
        let e : p.column j ≡ c = ground arith in
        rw own (
          subst (λ q. Chain (unlink j m).down c ((unlink j m).down c) (remove j (rows q))) (sym e)
            (own_ring c hc e))
    | inr other ↦ rw other (other_ring c hc (ground arith))
  ]

  -- What the search knows of the columns holds after the node was unlinked.
  pub unlink-Core : Core p n (unlink j m) (without live j) cols fewer
  unfolding unlink
  unlink-Core = record {
    left_same = k.left_same;
    right_same = k.right_same;
    col_same = k.col_same;
    name_same = k.name_same;
    linked = unlink-IsLinked m live k.linked j h;
    ring = λ c hc. ring_after c hc;
    once = λ c hc. ground (arith, k.once c hc, Once-remove j (rows c) (k.once c hc));
    fits = λ c hc. ground (arith, k.fits c hc, length-remove j (rows c));
    complete = λ x l q. ground (arith, k.complete x, has-remove x j (rows (p.column j)));
    row_live = λ c x hc hx.
        ground (arith, k.row_live c x, has-remove x j (rows c), k.row_column c j, here);
    row_known = λ c x hc hx. ground (arith, k.row_known c x, has-remove x j (rows c));
    row_column = λ c x hc hx. ground (arith, k.row_column c x, has-remove x j (rows c));
    live_column = λ x l. ground (arith, k.live_column x);
    col_live = λ c hc. ground (arith, k.col_live c, k.col_known c, r);
    col_known = k.col_known;
    col_column = k.col_column;
  }
