-- ===== src/Solver/Search/Solve.antt =====
-- sudoku.cc: `solve` comes to its end, and what it returns.
use network_lib.Base.{
  ℕ, zero, suc, ◌+◌, ◌<◌, ◌≤◌, ◌≡◌, ◌≢◌, inl, inr, refl, sym, ap, ◌∙◌, subst, Bool, true, Option,
  some, List, [], ◌∷◌, map, length, has, count, arith,
}
use network_lib.Solver.{Nodes, cover, get_min_column}
use network_lib.Solver.Choice.{get_min_column_in}
use network_lib.Solver.Grid.{Plan, IsPlan, Inv}
use network_lib.Solver.Grid.Covered.{Inv-Covering}
use network_lib.Solver.Search.{Search, try_rows, solve, write_board}
use network_lib.Solver.Search.Fill.{IsLabelled, AllKnown, written, write_board-written}
use network_lib.Solver.Search.Solved.{Outcome, IsCover, columns_of}
use network_lib.Solver.Search.Exact.{split, split-columns}
use network_lib.Solver.Search.Rows.{Works, NoneBy, try_rows-Outcome}

module _ (n root d : ℕ) (m : Nodes) (stack inout : List ℕ) where
  solve-done :
      (board : List ℕ)
      → m.left root ≡ root
      → write_board (suc n) m stack inout ≡ some board
      → solve (suc d) n root (record { nodes = m; stack = stack; inout = inout })
        ≡ some (true, record { nodes = m; stack = stack; inout = board })
  unfolding solve
  solve-done board e w = ground (arith, w)

  solve-rows :
      (c : ℕ) (u : Nodes)
      → m.left root ≢ root
      → get_min_column n root m ≡ some c
      → cover n c m ≡ some u
      → solve (suc d) n root (record { nodes = m; stack = stack; inout = inout })
        ≡ try_rows
            (solve d n root)
            n
            c
            n
            (u.down c)
            (record { nodes = u; stack = stack; inout = inout })
  unfolding solve
  solve-rows c u ne e w = ground (arith, e, w)

count-positive : (x : ℕ) (xs : List ℕ) → has x xs ≡ true → 0 < count x xs
count-positive x [] h = absurd (cc)
count-positive x (w ∷ xs) h = ground (arith, count-positive x xs)

module _ (p : Plan) (n : ℕ) (q : IsPlan p n) (m : Nodes) (live : ℕ → Bool) (cols : List ℕ)
    (rows : ℕ → List ℕ) (i : Inv p n m live cols rows) (c : ℕ) (hc : has c cols ≡ true) where
  -- Each cover of the columns has a row of the column.
  unsolvable :
      (size : ℕ) (cell digit : ℕ → ℕ) (recur : Search → Option (Bool × Search)) (d : ℕ)
      (works : Works p n q size cell digit recur d) (few : length cols ≤ d)
      → ((y : ℕ)
          → has y (rows c) ≡ true
          → NoneBy p n q size cell digit recur d works m live cols rows i c hc few y)
      → (rs : List ℕ) → ¬ IsCover p cols rs
  unsolvable size cell digit recur d works few others rs (known, counts) =
      let (y, rest, ky, ey, krest, parts) =
        split p n q c rs known (omega (arith, counts c, count-positive c cols hc)) in
      let all : (x : ℕ)
          → count x cols ≡ count x (map p.column (y ∷ p.mates y)) + count x (columns_of p rest) =
        λ x. sym (counts x) ∙ parts x in
      let alive = i.kept y ky (split-columns p n q cols y rest all) in
      others y (subst (λ d. has y (rows d) ≡ true) ey (i.core.complete y alive ky)) rest krest all

module _ (p : Plan) (n : ℕ) (q : IsPlan p n) (size : ℕ) (cell digit : ℕ → ℕ)
    (l : IsLabelled p size cell digit) where
  solve-Works : (d : ℕ) → d ≤ suc n → Works p n q size cell digit (solve d n p.root) d
  solve-Works zero b m live cols rows stack inout i h known fits = absurd (omega arith)
  solve-Works (suc d) b m live [] rows stack inout i h known fits = inr (
    record { nodes = m; stack = stack; inout = written cell digit stack inout },
    solve-done n p.root d m stack inout (written cell digit stack inout)
        (ap m.left (sym i.head.head_ring) ∙ i.head.left_right p.root (ground arith))
        (write_board-written p n q m live [] rows i.core size cell digit l stack inout known fits),
    record { chosen = []; chosen_known = tt; exact = λ x. refl; stacked = refl; board = refl },
  )
  solve-Works (suc d) b m live (a ∷ cols) rows stack inout i h known fits =
      let (e, ne, _) = i.head.head_ring in
      let full : m.left p.root ≢ p.root =
        λ same. ne (sym e ∙ (ap m.right (sym same) ∙ i.head.right_left p.root (ground arith))) in
      let (c, found, hc) = get_min_column_in m p.root n a cols i.head.head_ring (omega arith) in
      let cv = Inv-Covering p n q m live (a ∷ cols) rows i c hc in
      let works = solve-Works d (omega arith) in
      subst (Outcome p cell digit (a ∷ cols) (record { nodes = m; stack = stack; inout = inout }))
        (sym (solve-rows n p.root d m stack inout c cv.after full found cv.covers))
        (elim (try_rows-Outcome p n q size cell digit (solve d n p.root) d works m live (a ∷ cols)
          rows i c hc (omega arith) (rows c) n (cv.after.down c) stack inout cv.ring (λ r hr. hr)
          (i.core.fits c hc) known fits) [
            | inl (same, others) ↦ inl (
              same,
              unsolvable p n q m live (a ∷ cols) rows i c hc size cell digit (solve d n p.root) d
                  works (omega arith) others,
            )
            | inr solved ↦ inr solved
          ])

  -- From a matrix with fewer than `d` columns, at most `n`, of fewer than `n` rows each, whose rows
  -- have fewer than `n` other nodes each, no two of a row in one column, in which all rows are linked
  -- that meet none but its columns, and from a stack of known rows, `solve` ends without an error,
  -- where each row's names give a cell of the board and a value. It returns `false` with nodes, stack
  -- and board as they were, and then no list of known rows covers each column exactly once and
  -- nothing else. Or it returns `true`, and then the rows that it pushed on the stack do so, and
  -- the board is the one that was there with the values of the stack's rows written to their cells.
  pub solve-Outcome :
      (d : ℕ) (m : Nodes) (live : ℕ → Bool) (cols : List ℕ) (rows : ℕ → List ℕ)
      (stack inout : List ℕ)
      → d ≤ suc n
      → length cols < d
      → Inv p n m live cols rows
      → AllKnown p.known stack
      → length inout ≡ size
      → Outcome p cell digit cols
          (record { nodes = m; stack = stack; inout = inout })
          (solve d n p.root (record { nodes = m; stack = stack; inout = inout }))
  solve-Outcome d m live cols rows stack inout b h i =
      solve-Works d b m live cols rows stack inout i h
