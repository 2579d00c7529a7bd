-- ===== src/Solver/Grid/Columns.antt =====
-- sudoku.cc: what the search knows of the columns, when nodes are unlinked and a column is hidden.
use network_lib.Base.{
  ℕ, ◌≡◌, ◌≢◌, sym, subst, Bool, true, false, not, ◌&&◌, List, [], ◌∷◌, has, remove, has-remove,
  Once-remove, arith, ◌==◌,
}
use network_lib.Solver.{Nodes, unlink, hide}
use network_lib.Solver.Links.{IsLinked, without}
use network_lib.Solver.Loops.{Chain, unlink_all, AllLive, dead}
use network_lib.Solver.Cover.{unlinked, gone, AreRows}
use network_lib.Solver.Restore.{hide-IsLinked}
use network_lib.Solver.Rings.{Chain-remove, Chain-moves, skip}
use network_lib.Solver.Grid.{Plan, IsPlan, Core, Head}
use network_lib.Solver.Grid.Unlink.{fewer, unlink-Core}
use network_lib.Solver.Grid.Rows.{pairs}

module _ (p : Plan) (n : ℕ) (cols : List ℕ) where
  unlink_all-Core :
      (xs : List ℕ) (m : Nodes) (live : ℕ → Bool) (rows : ℕ → List ℕ)
      → Core p n m live cols rows
      → ((x : ℕ) → has x xs ≡ true → p.known x ≡ true)
      → AllLive xs live
      → (left : ℕ → List ℕ) × Core p n (unlink_all xs m) (dead xs live) cols left
  unlink_all-Core [] m live rows k q a = (rows, k)
  unlink_all-Core (x ∷ xs) m live rows k q (l, a) =
      let known = q x (ground arith) in
      unlink_all-Core xs (unlink x m) (without live x) (fewer p n m live cols rows k x l known)
        (unlink-Core p n m live cols rows k x l known) (λ y h. q y (ground (arith, h))) a

  pub unlinked-Core :
      (w : IsPlan p n) (rs : List ℕ) (c : ℕ) (m : Nodes) (live : ℕ → Bool) (rows : ℕ → List ℕ)
      → Core p n m live cols rows
      → ((x : ℕ) → has x rs ≡ true → p.known x ≡ true)
      → AreRows m live n c (pairs p n w rs)
      → (left : ℕ → List ℕ) × Core p n
          (unlinked (pairs p n w rs) m)
          (gone (pairs p n w rs) live)
          cols
          left
  unlinked-Core w [] c m live rows k q a = (rows, k)
  unlinked-Core w (r ∷ rs) c m live rows k q (_, _, _, l, _, _, a) =
      let (left, k') = unlinked-Core w rs c m live rows k (λ x h. q x (ground (arith, h))) a in
      unlink_all-Core (p.mates r) (unlinked (pairs p n w rs) m) (gone (pairs p n w rs) live) left k'
        (λ x h. w.mates_known r x (q r (ground arith)) h) l

module _ (p : Plan) (n : ℕ) (m : Nodes) (live : ℕ → Bool) (cols : List ℕ) (rows : ℕ → List ℕ)
    (k : Core p n m live cols rows) (c : ℕ) (h : has c cols ≡ true) where
  pub hide-Core :
      p.known (m.left c) ≡ false → p.known (m.right c) ≡ false → Core p n (hide c m) live cols rows
  unfolding hide
  hide-Core l r = record {
    left_same = λ x q. ground (arith, k.left_same x);
    right_same = λ x q. ground (arith, k.right_same x);
    col_same = k.col_same;
    name_same = k.name_same;
    linked = hide-IsLinked m live c k.linked;
    ring = k.ring;
    once = k.once;
    fits = k.fits;
    complete = k.complete;
    row_live = k.row_live;
    row_known = k.row_known;
    row_column = k.row_column;
    live_column = k.live_column;
    col_live = k.col_live;
    col_known = k.col_known;
    col_column = k.col_column;
  }

  -- What stays linked when the column is not counted any more.
  abbrev pub beside : ℕ → Bool
  beside x = not (p.column x == c) && live x

  beside-IsLinked : IsLinked m beside
  beside-IsLinked =
      let v = k.linked in
      record {
        up_live = λ x l. ground (arith, v.up_live x, v.up_col x, k.col_same x, k.col_same (m.up x));
        down_live =
            λ x l. ground (arith, v.down_live x, v.down_col x, k.col_same x, k.col_same (m.down x));
        down_up = λ x l. v.down_up x (ground arith);
        up_down = λ x l. v.up_down x (ground arith);
        up_col = λ x l. v.up_col x (ground arith);
        down_col = λ x l. v.down_col x (ground arith);
        sized = v.sized;
      }

  pub drop-Core : Core p n m beside (remove c cols) rows
  drop-Core =
      let old : (d : ℕ) → has d (remove c cols) ≡ true → has d cols ≡ true =
        λ d hd. ground (arith, has-remove d c cols) in
      let ne : (d : ℕ) → has d (remove c cols) ≡ true → (d == c) ≡ false =
        λ d hd. ground (arith, has-remove d c cols) in
      record {
        left_same = k.left_same;
        right_same = k.right_same;
        col_same = k.col_same;
        name_same = k.name_same;
        linked = beside-IsLinked;
        ring = λ d hd. k.ring d (old d hd);
        once = λ d hd. k.once d (old d hd);
        fits = λ d hd. k.fits d (old d hd);
        complete = λ x l q. k.complete x (ground arith) q;
        row_live = λ d x hd hx.
            ground (arith, k.row_live d x (old d hd) hx, k.row_column d x (old d hd) hx, ne d hd);
        row_known = λ d x hd hx. k.row_known d x (old d hd) hx;
        row_column = λ d x hd hx. k.row_column d x (old d hd) hx;
        live_column = λ x l. ground (arith, k.live_column x, has-remove (p.column x) c cols);
        col_live =
            λ d hd. ground (arith, k.col_live d (old d hd), k.col_column d (old d hd), ne d hd);
        col_known = λ d hd. k.col_known d (old d hd);
        col_column = λ d hd. k.col_column d (old d hd);
      }

module _ (root : ℕ) (m : Nodes) (cols : List ℕ) (e : Head root m.left m.right cols) (c : ℕ)
    (h : has c cols ≡ true) where
  c_not_root : c ≢ root
  c_not_root = λ same. ground (arith, e.root_out)

  c_in : has c (root ∷ cols) ≡ true
  c_in = ground arith

  c_moves : m.right c ≢ c
  c_moves = Chain-moves m.right root (m.right root) c cols e.head_ring h c_not_root

  hide-right_skip :
      (x : ℕ) → has x (root ∷ cols) ≡ true → x ≢ c → (hide c m).right x ≡ skip m.right c (m.right x)
  unfolding hide
  hide-right_skip x hx ne = ground (arith, e.left_right x hx, e.right_left c c_in, c_moves)

  hidden_ring : Chain (hide c m).right root ((hide c m).right root) (remove c cols)
  hidden_ring =
      let at : (x : ℕ)
          → has x cols ≡ true
          → x ≢ c
          → (hide c m).right x ≡ skip m.right c (m.right x) =
        λ x hx. hide-right_skip x (ground arith) in
      subst (λ q. Chain (hide c m).right root q (remove c cols))
        (sym (hide-right_skip root (ground arith) (λ same. c_not_root (sym same))))
        (Chain-remove m.right (hide c m).right root c (m.right root) cols c_not_root c_moves at
          e.head_ring)

  -- Without the column, in the memory where it is hidden.
  pub hide-Head : Head root (hide c m).left (hide c m).right (remove c cols)
  unfolding hide
  hide-Head = record {
    head_ring = hidden_ring;
    head_once = Once-remove c cols e.head_once;
    root_out = ground (arith, has-remove root c cols, e.root_out);
    left_right = λ x hx. ground (
      arith,
      has-remove x c cols,
      c_not_root,
      c_moves,
      e.left_right x,
      e.left_right c c_in,
      e.right_left c c_in,
    );
    right_left = λ x hx. ground (
      arith,
      has-remove x c cols,
      c_not_root,
      c_moves,
      e.right_left x,
      e.left_right c c_in,
      e.right_left c c_in,
    );
    left_in = λ x hx. ground (
      arith,
      has-remove x c cols,
      has-remove (m.left x) c cols,
      has-remove (m.left c) c cols,
      c_not_root,
      c_moves,
      e.left_in x,
      e.left_in c c_in,
      e.right_left x,
      e.right_left c c_in,
      e.left_right c c_in,
    );
    right_in = λ x hx. ground (
      arith,
      has-remove x c cols,
      has-remove (m.right x) c cols,
      has-remove (m.right c) c cols,
      c_not_root,
      c_moves,
      e.right_in x,
      e.right_in c c_in,
      e.left_right x,
      e.right_left c c_in,
      e.left_right c c_in,
    );
  }
