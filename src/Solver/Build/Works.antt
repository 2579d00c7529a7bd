-- ===== src/Solver/Build/Works.antt =====
-- sudoku.cc: the constructor of `SudokuSolver` comes to its end.
use network_lib.Base.{
  ℕ, zero, suc, ◌/◌, ◌%◌, ◌<◌, ◌≤◌, ◌≡◌, refl, true, some, List, [], ◌∷◌, length, get_elem?, get_or,
  get_elem?-get_or, ltb, arith,
}
use network_lib.Solver.Build.{
  Builder, max_nodes, Used, mark, all_unused, all_digits, construct, start, new_column, fresh,
  set_used, box_of,
}
use network_lib.Solver.Build.Ranges.{for_range-holds}
use network_lib.Solver.Build.Values.{columns-Stage}
use network_lib.Solver.{int_size}
use network_lib.Solver.Build.Columned.{Columned, columns-Columned}
use network_lib.Solver.Build.Rowed.{Columned-Rowed}
use network_lib.Solver.Build.Adding.{SomeRowed, rows-Rowed}
use network_lib.Solver.Build.Rows.{rows-Filled}

all_digits-get_or :
    (board : List ℕ) (i : ℕ) → all_digits board ≡ true → i < length board → get_or board i 0 < 10
all_digits-get_or [] i h l = absurd (omega arith)
all_digits-get_or (x ∷ board) zero h l = ground arith
all_digits-get_or (x ∷ board) (suc i) h l =
    all_digits-get_or board i (ground (arith, h)) (omega arith)

mark-works :
    (inout : List ℕ) (i : ℕ) (u : Used)
    → length inout ≡ 81
    → all_digits inout ≡ true
    → i < 81
    → (w : Used) × (mark inout i u ≡ some w)
unfolding mark
mark-works inout i u len digits l =
    let at : get_elem? inout i ≡ some (get_or inout i 0) =
      get_elem?-get_or inout i 0 (omega arith) in
    let small : ltb (get_or inout i 0) 10 ≡ true =
      ground (arith, all_digits-get_or inout i digits (omega arith)) in
    (
      record {
        rows = set_used u.rows (i / 9) (get_or inout i 0);
        cols = set_used u.cols (i % 9) (get_or inout i 0);
        boxes = set_used u.boxes (box_of i) (get_or inout i 0);
      },
      ground (arith, at, small),
    )

-- The constructor runs to its end, and what it makes.
pub construct-Rowed :
    (junk : Builder) (inout : List ℕ)
    → ((x : ℕ) → junk.nodes.size x < int_size)
    → length inout ≡ 81
    → all_digits inout ≡ true
    → (k : ℕ) × (b : Builder) × (construct junk inout ≡ some (0, b))
      × (b.cur_node ≤ max_nodes)
      × (k ≤ 324)
      × SomeRowed k b
unfolding construct new_column
construct-Rowed junk inout sized len digits =
    let first : Builder = start 0 (record junk { nodes = fresh 0 0 0 junk.nodes; cur_node = 1 }) in
    let (u, eu, _) =
      for_range-holds (λ i w. Unit {0}) (mark inout) 0 81 all_unused tt
        (λ i w _ l _. let (x, e) = mark-works inout i w len digits l in (x, e, tt)) in
    let (c, e, ec, ee, s) = columns-Stage inout 0 u first len (omega arith) (λ x. refl) in
    let (k, columned) = columns-Columned inout u first c e (0, first-Columned) ec ee in
    let (b, eb, f) = rows-Filled inout u e s len in
    let rowed = rows-Rowed k u inout e b (0, _, Columned-Rowed k e columned) eb in
    (
      k,
      b,
      rw eu (rw ec (rw ee (rw eb refl))),
      omega (arith, f.few),
      omega (arith, s.few, columned.cur_is),
      rowed,
    )
  where
    first-Columned :
        Columned 0 (start 0 (record junk { nodes = fresh 0 0 0 junk.nodes; cur_node = 1 }))
    first-Columned = record {
      cur_is = refl;
      flat = record {
        right_is = λ x l. ground arith;
        left_is = λ x l. ground arith;
        up_is = λ x l. ground arith;
        down_is = λ x l. ground arith;
        col_is = λ x l. ground arith;
        sized = λ x. ground (arith, sized x);
      };
      found = λ n a h. absurd (cc);
      back = λ a h l. absurd (omega arith);
    }
