-- ===== src/Solver/Search/Rows.antt =====
-- sudoku.cc: the loop of `solve` over the rows of a column.
use network_lib.Base.{
  ℕ, zero, suc, ◌+◌, ◌<◌, ◌≤◌, ◌≡◌, ◌≢◌, ◌⊎◌, inl, inr, sym, ap, ◌∙◌, subst, Bool, true, false,
  Option, some, List, [], ◌∷◌, ◌++◌, map, length, has, count, remove, count-remove, Once-remove,
  length-remove_lt, append_assoc, arith, Bool-cases, ◌==◌, if◌then◌else◌,
}
use network_lib.Solver.{Nodes, uncover}
use network_lib.Solver.Loops.{Chain}
use network_lib.Solver.Grid.{Plan, IsPlan, Inv}
use network_lib.Solver.Grid.Covered.{Covering, Inv-Covering, mates_columns}
use network_lib.Solver.Search.{Search, cover_others, uncover_others, pop, try_rows}
use network_lib.Solver.Search.Others.{remove_all, others-Follows, cover_others_lem}
use network_lib.Solver.Search.Fill.{AllKnown}
use network_lib.Solver.Search.Solved.{
  Solved, Outcome, IsCover, count-columns_of, count-remove_all, length-remove_all, columns_of,
}

AllKnown-end :
    (known : ℕ → Bool) (xs : List ℕ) (x : ℕ)
    → AllKnown known xs
    → known x ≡ true
    → AllKnown known (xs ++ x ∷ [])
AllKnown-end known [] x a h = (h, tt)
AllKnown-end known (y ∷ xs) x (k, a) h = (k, AllKnown-end known xs x a h)

module _ (recur : Search → Option (Bool × Search)) (n c : ℕ) where
  try_rows-end :
      (k row : ℕ) (u m : Nodes) (stack inout : List ℕ)
      → 0 < k
      → row ≡ c
      → uncover n c u ≡ some m
      → try_rows recur n c k row (record { nodes = u; stack = stack; inout = inout })
        ≡ some (false, record { nodes = m; stack = stack; inout = inout })
  unfolding try_rows
  try_rows-end zero row u m stack inout h e un = absurd (omega arith)
  try_rows-end (suc k) row u m stack inout h e un = ground (arith, un)

  try_rows-found :
      (k row : ℕ) (u v : Nodes) (stack inout : List ℕ) (t : Search)
      → row ≢ c
      → cover_others n row u ≡ some v
      → recur (record { nodes = v; stack = row ∷ stack; inout = inout }) ≡ some (true, t)
      → try_rows recur n c (suc k) row (record { nodes = u; stack = stack; inout = inout })
        ≡ some (true, t)
  unfolding try_rows
  try_rows-found k row u v stack inout t ne e r = ground (arith, e, r)

  try_rows-back :
      (k row : ℕ) (u v : Nodes) (stack inout : List ℕ)
      → row ≢ c
      → cover_others n row u ≡ some v
      → uncover_others n row v ≡ some u
      → recur (record { nodes = v; stack = row ∷ stack; inout = inout })
        ≡ some (false, record { nodes = v; stack = row ∷ stack; inout = inout })
      → try_rows recur n c (suc k) row (record { nodes = u; stack = stack; inout = inout })
        ≡ try_rows recur n c k (u.down row) (record { nodes = u; stack = stack; inout = inout })
  unfolding try_rows pop
  try_rows-back k row u v stack inout ne e un r = ground (arith, e, r, un)

module _ (p : Plan) (n : ℕ) (q : IsPlan p n) (size : ℕ) (cell digit : ℕ → ℕ)
    (recur : Search → Option (Bool × Search)) (d : ℕ) where
  -- The call does what `solve` promises, for fewer than `d` columns.
  abbrev pub Works : Type 0
  Works =
      (m : Nodes) (live : ℕ → Bool) (cols : List ℕ) (rows : ℕ → List ℕ) (stack inout : List ℕ)
      → Inv p n m live cols rows
      → length cols < d
      → AllKnown p.known stack
      → length inout ≡ size
      → Outcome p cell digit cols (record { nodes = m; stack = stack; inout = inout })
          (recur (record { nodes = m; stack = stack; inout = inout }))

  module _ (works : Works) (m : Nodes) (live : ℕ → Bool) (cols : List ℕ) (rows : ℕ → List ℕ)
      (i : Inv p n m live cols rows) (c : ℕ) (hc : has c cols ≡ true) (few : length cols ≤ d) where
    abbrev cv : Covering p n m cols rows c
    cv = Inv-Covering p n q m live cols rows i c hc

    -- A solution without the row's columns, and the row.
    with_row :
        (r : ℕ) (u : Nodes) (stack inout : List ℕ) (t : Search)
        → has r (rows c) ≡ true
        → Solved p cell digit
            (remove_all p.column (p.mates r) (remove c cols))
            (record { nodes = u; stack = r ∷ stack; inout = inout })
            t
        → Solved p cell digit cols (record { nodes = m; stack = stack; inout = inout }) t
    with_row r u stack inout t hr s =
        let kr = i.core.row_known c r hc hr in
        let own = i.core.row_column c r hc hr in
        record {
          chosen = s.chosen ++ r ∷ [];
          chosen_known = AllKnown-end p.known s.chosen r s.chosen_known kr;
          exact = λ x. omega (
            arith,
            count-columns_of p x s.chosen r,
            s.exact x,
            ap {B = ℕ} (λ y. if y == x then 1 else 0) own,
            count-remove x c cols i.head.head_once hc,
            count-remove_all p.column x (p.mates r) (remove c cols)
                (Once-remove c cols i.head.head_once) (q.apart r kr).1
                (λ y. mates_columns p n q m live cols rows i c hc r y hr),
          );
          stacked = s.stacked ∙ sym (append_assoc s.chosen (r ∷ []) stack);
          board = s.board;
        }

    -- No cover of the columns has the row of the node.
    abbrev pub NoneBy : ℕ → Type 0
    NoneBy y =
        (rest : List ℕ)
        → AllKnown p.known rest
        → ¬ (
            (x : ℕ)
            → count x cols ≡ count x (map p.column (y ∷ p.mates y)) + count x (columns_of p rest))

    row-NoneBy :
        (r : ℕ)
        → has r (rows c) ≡ true
        → ((rs : List ℕ) → ¬ IsCover p (remove_all p.column (p.mates r) (remove c cols)) rs)
        → NoneBy r
    row-NoneBy r hr never rest known counts =
        let kr = i.core.row_known c r hc hr in
        let own = i.core.row_column c r hc hr in
        never rest (
          known,
          λ x. omega (
            arith,
            counts x,
            ap {B = ℕ} (λ y. if y == x then 1 else 0) own,
            count-remove x c cols i.head.head_once hc,
            count-remove_all p.column x (p.mates r) (remove c cols)
                (Once-remove c cols i.head.head_once) (q.apart r kr).1
                (λ y. mates_columns p n q m live cols rows i c hc r y hr),
          ),
        )

    -- What the loop returns, where the nodes in the list are still to be tried.
    abbrev pub After : List ℕ → List ℕ → List ℕ → Option (Bool × Search) → Type 0
    After todo stack inout o =
        ((o ≡ some (false, record { nodes = m; stack = stack; inout = inout }))
          × ((y : ℕ) → has y todo ≡ true → NoneBy y))
        ⊎ ((t : Search) × (o ≡ some (true, t))
            × Solved p cell digit cols (record { nodes = m; stack = stack; inout = inout }) t)

    pub try_rows-Outcome :
        (todo : List ℕ) (k row : ℕ) (stack inout : List ℕ)
        → Chain cv.after.down c row todo
        → ((r : ℕ) → has r todo ≡ true → has r (rows c) ≡ true)
        → length todo < k
        → AllKnown p.known stack
        → length inout ≡ size
        → After todo stack inout
            (try_rows recur n c k row (record { nodes = cv.after; stack = stack; inout = inout }))
    try_rows-Outcome [] k row stack inout e h less known fits = inl (
      try_rows-end recur n c k row cv.after m stack inout less e cv.uncovers,
      λ y hy. absurd (cc),
    )
    try_rows-Outcome (r ∷ todo) zero row stack inout e h less known fits = absurd (omega arith)
    try_rows-Outcome (r ∷ todo) (suc k) row stack inout (e, ne, chain) h less known fits =
        let hr = h r (ground arith) in
        let kr = i.core.row_known c r hc hr in
        let there : (y : ℕ) → has y (p.mates r) ≡ true → has (p.column y) (remove c cols) ≡ true =
          λ y. mates_columns p n q m live cols rows i c hc r y hr in
        let (u, alive, left, inv, f) =
          others-Follows p n q r (p.mates r) cv.after cv.live (remove c cols) cv.later cv.inv
            (λ x hx. q.mates_known r x kr hx) (q.apart r kr).1 there in
        let (on, back) =
          cover_others_lem p n q r cv.after u kr (cv.inv.core.right_same r kr)
            (inv.core.left_same r kr) f in
        let fewer : length (remove_all p.column (p.mates r) (remove c cols)) < d = omega (
          arith,
          length-remove_all p.column (p.mates r) (remove c cols),
          length-remove_lt c cols hc,
        ) in
        subst
          (λ z. After (r ∷ todo) stack inout (
            try_rows recur n c (suc k) z
              (record { nodes = cv.after; stack = stack; inout = inout })))
          (sym e)
          (elim (works u alive (remove_all p.column (p.mates r) (remove c cols)) left (r ∷ stack)
            inout inv fewer (kr, known) fits) [
              | inl (failed, never) ↦
                  subst (After (r ∷ todo) stack inout)
                    (sym (try_rows-back recur n c k r cv.after u stack inout ne on back failed))
                    (elim (try_rows-Outcome todo k (cv.after.down r) stack inout chain
                      (λ x hx. h x (ground (arith, hx))) (omega arith) known fits) [
                        | inl (same, others) ↦ inl (
                          same,
                          λ y hy. elim (Bool-cases (r == y)) [
                            | inl this ↦
                                let e : r ≡ y = ground arith in
                                subst NoneBy e (row-NoneBy r hr never)
                            | inr other ↦ others y (ground arith)
                          ],
                        )
                        | inr found ↦ inr found
                      ])
              | inr (t, found, s) ↦ inr (
                t,
                try_rows-found recur n c k r cv.after u stack inout t ne on found,
                with_row r u stack inout t hr s,
              )
            ])
