-- ===== src/Solver/Grid/Covered.antt =====
-- sudoku.cc: `cover` of a column of the matrix, which takes one column away.
use network_lib.Base.{
  ℕ, ◌≡◌, refl, sym, ap, ◌∙◌, subst, Bool, true, false, not, ◌&&◌, some, List, [], ◌∷◌, has, remove,
  has-remove, backwards, has-backwards, Once-backwards, append-nil, arith, Bool-cases, inl, inr,
  ◌==◌,
}
use network_lib.Solver.{Nodes, hide, cover, uncover}
use network_lib.Solver.Loops.{Chain, AllOutside}
use network_lib.Solver.Cover.{
  nodes_of, unlinked, unlinked-fields, unlinked-column, gone, AreRows, over,
}
use network_lib.Solver.Restore
use network_lib.Solver.Restore.{IsColumn, cover_lem, hide-column}
use network_lib.Solver.Rings.{Chain-agree, Chain-backwards}
use network_lib.Solver.Grid.{Plan, IsPlan, Core, Head, Inv}
use network_lib.Solver.Grid.Rows.{
  AllOutside-ne, pairs, in_mates, in_mates_row, in_mates_lem, gone_lem, nodes_of-pairs, over-pairs,
  length-pairs, AllOf, pairs-AreRows,
}
use network_lib.Solver.Grid.Columns.{unlinked-Core, hide-Core, beside, drop-Core, hide-Head}

-- What `cover` of the column `c` makes of the matrix, and how it is taken back.
pub record Covering (p : Plan) (n : ℕ) (m : Nodes) (cols : List ℕ) (rows : ℕ → List ℕ) (c : ℕ)
    : Type 0 where
  pub after : Nodes
  pub live : ℕ → Bool
  pub later : ℕ → List ℕ
  pub inv : Inv p n after live (remove c cols) later
  pub covers : cover n c m ≡ some after
  pub uncovers : uncover n c after ≡ some m
  pub ring : Chain after.down c (after.down c) (rows c)

AllOutside-known :
    (known : ℕ → Bool) (a : ℕ) (xs : List ℕ)
    → known a ≡ false
    → ((x : ℕ) → has x xs ≡ true → known x ≡ true)
    → AllOutside (λ x. x) a xs
AllOutside-known known a [] h k = tt
AllOutside-known known a (x ∷ xs) h k =
    (λ e. ground (arith, k x), AllOutside-known known a xs h (λ y l. k y (ground (arith, l))))

module _ (p : Plan) (n : ℕ) (q : IsPlan p n) (m : Nodes) (live : ℕ → Bool) (cols : List ℕ)
    (rows : ℕ → List ℕ) (i : Inv p n m live cols rows) (c : ℕ) (h : has c cols ≡ true) where
  left_known : p.known (m.left c) ≡ false
  left_known =
      let there = i.head.left_in c (ground arith) in
      ground (arith, there, q.root_apart, i.core.col_known (m.left c))

  right_known : p.known (m.right c) ≡ false
  right_known =
      let there = i.head.right_in c (ground arith) in
      ground (arith, there, q.root_apart, i.core.col_known (m.right c))

  rows_of :
      AllOf p n q m live i.core.left_same i.core.right_same i.core.col_same i.whole c
        (backwards (rows c))
  rows_of r hr =
      let there : has r (rows c) ≡ true = sym (has-backwards r (rows c)) ∙ hr in
      (i.core.row_live c r h there, i.core.row_known c r h there, i.core.row_column c r h there)

  over_lem : over (pairs p n q (rows c)) [] ≡ pairs p n q (backwards (rows c))
  over_lem = over-pairs p n q (rows c) [] ∙ ap (pairs p n q) (append-nil (backwards (rows c)))

  pairs-AllApart :
      (a : ℕ) (rs : List ℕ)
      → p.known a ≡ false
      → ((r : ℕ) → has r rs ≡ true → p.known r ≡ true)
      → Restore.AllApart a (pairs p n q rs)
  pairs-AllApart a [] u k = tt
  pairs-AllApart a (r ∷ rs) u k = (
    AllOutside-known p.known a (r ∷ p.mates r) u (λ x hx. elim (Bool-cases (r == x)) [
      | inl same ↦ ground (arith, k x)
      | inr other ↦ q.mates_known r x (k r (ground arith)) (ground arith)
    ]),
    pairs-AllApart a rs u (λ s hs. k s (ground (arith, hs))),
  )

  known_rows : (r : ℕ) → has r (backwards (rows c)) ≡ true → p.known r ≡ true
  known_rows r hr = (rows_of r hr).1

  up_ring : Chain m.up c (m.up c) (backwards (rows c))
  up_ring =
      let v = i.core.linked in
      subst (Chain m.up c (m.up c)) (append-nil (backwards (rows c))) (
        Chain-backwards m.down m.up c (m.down c) c (rows c) []
          (λ x hx. v.up_down x (i.core.row_live c x h hx)) (v.up_down c (i.core.col_live c h))
          (i.core.ring c h) refl)

  Inv-IsColumn : IsColumn m live n c (pairs p n q (rows c))
  Inv-IsColumn = record {
    linked = i.core.linked;
    header = i.core.col_same c ∙ i.core.col_column c h;
    in_rows = subst (AreRows m live n c) (sym over_lem) (
        pairs-AreRows p n q m live i.core.left_same i.core.right_same i.core.col_same i.whole c
          (backwards (rows c)) (Once-backwards (rows c) (i.core.once c h)) rows_of);
    down_ring =
        subst (Chain m.down c (m.down c)) (sym (nodes_of-pairs p n q (rows c))) (i.core.ring c h);
    up_ring =
        subst (Chain m.up c (m.up c))
          (sym (nodes_of-pairs p n q (backwards (rows c))) ∙ ap nodes_of (sym over_lem)) up_ring;
    fits = omega (arith, length-pairs p n q (rows c), i.core.fits c h);
    left_right = i.head.left_right c (ground arith);
    right_left = i.head.right_left c (ground arith);
    left_apart =
        subst (Restore.AllApart (m.left c)) (sym over_lem)
          (pairs-AllApart (m.left c) (backwards (rows c)) left_known known_rows);
    right_apart =
        subst (Restore.AllApart (m.right c)) (sym over_lem)
          (pairs-AllApart (m.right c) (backwards (rows c)) right_known known_rows);
  }

  abbrev hidden : Nodes
  hidden = hide c m

  abbrev result : Nodes
  result = unlinked (pairs p n q (backwards (rows c))) hidden

  abbrev linked_still : ℕ → Bool
  linked_still = gone (pairs p n q (backwards (rows c))) live

  hidden-Core : Core p n hidden live cols rows
  hidden-Core = hide-Core p n m live cols rows i.core c h left_known right_known

  rows_hidden : AreRows hidden live n c (pairs p n q (backwards (rows c)))
  rows_hidden =
      pairs-AreRows p n q hidden live hidden-Core.left_same hidden-Core.right_same
        hidden-Core.col_same i.whole c (backwards (rows c))
        (Once-backwards (rows c) (i.core.once c h)) rows_of

  result-Core : (later : ℕ → List ℕ) × Core p n result linked_still cols later
  result-Core =
      unlinked-Core p n cols q (backwards (rows c)) c hidden live rows hidden-Core known_rows
        rows_hidden

  result-Head : Head p.root result.left result.right (remove c cols)
  result-Head =
      let (l, r, _) =
        unlinked-fields hidden live hidden-Core.linked n c (pairs p n q (backwards (rows c))) in
      rw l (rw r (hide-Head p.root m cols i.head c h))

  -- A row that is left shares no node with those of the column.
  rest_whole :
      (x y : ℕ)
      → (not (p.column x == c) && linked_still x) ≡ true
      → p.known x ≡ true
      → has y (p.mates x) ≡ true
      → (not (p.column y == c) && linked_still y) ≡ true
  rest_whole x y l k hy =
      let rs = backwards (rows c) in
      let at = gone_lem p n q rs live x in
      let alive : live y ≡ true = ground (arith, at, i.whole x y) in
      let back : has x (p.mates y) ≡ true = q.mates_sym x y k hy in
      let known : p.known y ≡ true = q.mates_known x y k hy in
      let free : in_mates p n q rs y ≡ false = elim (Bool-cases (in_mates p n q rs y)) [
        | inl there ↦
            let (r, hr, hm) = in_mates_row p n q rs y there in
            let (_, kr, er) = rows_of r hr in
            elim (q.mates_trans r y x kr hm back) [
              | inl same ↦ absurd (ground (arith, same))
              | inr mate ↦ absurd (ground (arith, at, in_mates_lem p n q rs r x hr mate))
            ]
        | inr out ↦ out
      ] in
      let outside : (p.column y == c) ≡ false = elim (Bool-cases (p.column y == c)) [
        | inl own ↦
            let e : p.column y ≡ c = ground arith in
            let there : has y rs ≡ true =
              has-backwards y (rows c)
              ∙ subst (λ d. has y (rows d) ≡ true) e (i.core.complete y alive known) in
            absurd (ground (arith, at, in_mates_lem p n q rs y x there back))
        | inr other ↦ other
      ] in
      ground (arith, gone_lem p n q rs live y, free, alive, outside)

  -- A row in none of whose nodes the column is met is left.
  rest_kept :
      (x : ℕ)
      → p.known x ≡ true
      → ((y : ℕ) → has y (x ∷ p.mates x) ≡ true → has (p.column y) (remove c cols) ≡ true)
      → (not (p.column x == c) && linked_still x) ≡ true
  rest_kept x k all =
      let rs = backwards (rows c) in
      let old : live x ≡ true =
        i.kept x k (λ y hy. ground (arith, has-remove (p.column y) c cols, all y hy)) in
      let free : in_mates p n q rs x ≡ false = elim (Bool-cases (in_mates p n q rs x)) [
        | inl there ↦
            let (r, hr, hm) = in_mates_row p n q rs x there in
            let (_, kr, er) = rows_of r hr in
            let back = q.mates_sym r x kr hm in
            absurd
              (ground (arith, er, has-remove (p.column r) c cols, all r (ground (arith, back))))
        | inr out ↦ out
      ] in
      ground (
        arith,
        gone_lem p n q rs live x,
        free,
        old,
        has-remove (p.column x) c cols,
        all x (ground arith),
      )

  down_same : (x : ℕ) → p.column x ≡ c → result.down x ≡ m.down x
  down_same x e =
      let (_, d) =
        unlinked-column hidden live hidden-Core.linked n c (pairs p n q (backwards (rows c))) x
          rows_hidden (hidden-Core.col_same x ∙ e) in
      let (_, down, _) = hide-column c m in d ∙ ap (λ f. f x) down

  result_ring : Chain result.down c (result.down c) (rows c)
  result_ring =
      subst (λ z. Chain result.down c z (rows c)) (sym (down_same c (i.core.col_column c h)))
        (Chain-agree m.down result.down c (m.down c) (rows c)
          (λ x hx. sym (down_same x (i.core.row_column c x h hx))) (i.core.ring c h))

  pub Inv-Covering : Covering p n m cols rows c
  Inv-Covering =
      let (later, k) = result-Core in
      let (covers, uncovers) = cover_lem m live n c (pairs p n q (rows c)) Inv-IsColumn in
      record {
        after = result;
        live = beside p n result linked_still cols later k c h;
        later = later;
        inv = record {
          core = drop-Core p n result linked_still cols later k c h;
          head = result-Head;
          whole = rest_whole;
          kept = rest_kept;
        };
        covers = subst (λ z. cover n c m ≡ some (unlinked z hidden)) over_lem covers;
        uncovers = subst (λ z. uncover n c (unlinked z hidden) ≡ some m) over_lem uncovers;
        ring = result_ring;
      }

  -- Where the other nodes of the column's rows stand.
  pub mates_columns :
      (r y : ℕ)
      → has r (rows c) ≡ true
      → has y (p.mates r) ≡ true
      → has (p.column y) (remove c cols) ≡ true
  mates_columns r y hr hy =
      let k = i.core.row_known c r h hr in
      let alive = i.whole r y (i.core.row_live c r h hr) k hy in
      let ne = AllOutside-ne p.column (p.column r) y (p.mates r) (q.apart r k).0 hy in
      ground (
        arith,
        has-remove (p.column y) c cols,
        i.core.live_column y alive,
        i.core.row_column c r h hr,
        ne,
      )
