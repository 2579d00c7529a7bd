-- ===== src/Solver/Cover.antt =====
-- sudoku.cc: `cover` and `uncover` of a column, over all of its rows.
use network_lib.Base.{
  backwards, ℕ, zero, suc, ◌<◌, ◌≡◌, refl, ◌∙◌, Bool, false, some, List, [], ◌∷◌, length, ◌==◌,
  arith,
}
use network_lib.Solver.{Nodes, walk, go_up, go_down, cover_row, uncover_row}
use network_lib.Solver.Links.{IsLinked}
use network_lib.Solver.Loops.{
  Chain, unlink_all, AllLive, dead, unlink_all-IsLinked, unlink_all-fields, AllOutside,
  unlink_all-column, cover_row-unlink_all, uncover_row-unlink_all,
}

-- A row: its node in the column, and its other nodes, to the right of that one.
abbrev pub Row : Type 0
Row = ℕ × List ℕ

abbrev pub nodes_of : List Row → List ℕ
nodes_of [] = []
nodes_of ((r, xs) ∷ rows) = r ∷ nodes_of rows

-- The memory, and what is linked, after the rows' nodes were unlinked, the last row's first.
abbrev pub unlinked : List Row → Nodes → Nodes
unlinked [] m = m
unlinked ((r, xs) ∷ rows) m = unlink_all xs (unlinked rows m)

abbrev pub gone : List Row → (ℕ → Bool) → ℕ → Bool
gone [] live = live
gone ((r, xs) ∷ rows) live = dead xs (gone rows live)

-- Rows of the column `c`, of fewer than `n` other nodes each.
abbrev pub AreRows : Nodes → (ℕ → Bool) → ℕ → ℕ → List Row → Type 0
AreRows m live n c [] = Unit {0}
AreRows m live n c ((r, xs) ∷ rows) =
    (m.col r ≡ c)
    × (length xs < n)
    × AllOutside m.col c xs
    × AllLive xs (gone rows live)
    × Chain m.right r (m.right r) xs
    × Chain m.left r (m.left r) (backwards xs)
    × AreRows m live n c rows

-- `todo` in front of `done`, with its own order reversed.
abbrev pub over : List Row → List Row → List Row
over [] done = done
over (row ∷ todo) done = over todo (row ∷ done)

module _ (m : Nodes) (live : ℕ → Bool) (v : IsLinked m live) (n c : ℕ) where
  pub unlinked-fields :
      (rows : List Row)
      → ((unlinked rows m).left ≡ m.left)
        × ((unlinked rows m).right ≡ m.right)
        × ((unlinked rows m).col ≡ m.col)
  unlinked-fields [] = (refl, refl, refl)
  unlinked-fields ((r, xs) ∷ rows) =
      let (l, e, k) = unlink_all-fields xs (unlinked rows m) in
      let (l', e', k') = unlinked-fields rows in (l ∙ l', e ∙ e', k ∙ k')

  unlinked-IsLinked :
      (rows : List Row) → AreRows m live n c rows → IsLinked (unlinked rows m) (gone rows live)
  unlinked-IsLinked [] q = v
  unlinked-IsLinked ((r, xs) ∷ rows) (_, _, _, l, _, _, q) =
      unlink_all-IsLinked xs (unlinked rows m) (gone rows live) (unlinked-IsLinked rows q) l

  pub unlinked-column :
      (rows : List Row) (p : ℕ)
      → AreRows m live n c rows
      → m.col p ≡ c
      → ((unlinked rows m).up p ≡ m.up p) × ((unlinked rows m).down p ≡ m.down p)
  unlinked-column [] p q e = (refl, refl)
  unlinked-column ((r, xs) ∷ rows) p (_, _, o, l, _, _, q) e =
      let (_, _, col) = unlinked-fields rows in
      let (u, d) = unlinked-column rows p q e in
      let (u', d') =
        unlink_all-column xs (unlinked rows m) (gone rows live) c p (unlinked-IsLinked rows q) l
          (rw col o) (rw col e) in
      (u' ∙ u, d' ∙ d)

  AreRows-over :
      (todo done : List Row) → AreRows m live n c (over todo done) → AreRows m live n c done
  AreRows-over [] done q = q
  AreRows-over ((r, xs) ∷ todo) done q = (AreRows-over todo ((r, xs) ∷ done) q).6

  -- The loop of `cover` unlinks the nodes of all rows.
  pub cover-walk :
      (k p : ℕ) (todo done : List Row)
      → AreRows m live n c (over todo done)
      → Chain m.down c p (nodes_of todo)
      → length todo < k
      → walk go_down (cover_row n) k c p (unlinked done m) ≡ some (unlinked (over todo done) m)
  unfolding walk
  cover-walk zero p todo done q e h = absurd (omega arith)
  cover-walk (suc k) p [] done q e h = ground arith
  cover-walk (suc k) p ((r, xs) ∷ todo) done q (e, ne, rest) h =
      let (in_col, fits, _, _, ahead, _, _) = AreRows-over todo ((r, xs) ∷ done) q in
      let (_, right, _) = unlinked-fields done in
      let (_, down) =
        unlinked-column ((r, xs) ∷ done) r (AreRows-over todo ((r, xs) ∷ done) q) in_col in
      let one = cover_row-unlink_all n r xs (unlinked done m) (rw right ahead) fits in
      let off : (p == c) ≡ false = ground arith in
      let on = cover-walk k (m.down r) todo ((r, xs) ∷ done) q rest (omega arith) in
      ground (arith, off, one, down, on)

  -- The loop of `uncover` links them again.
  pub uncover-walk :
      (k p : ℕ) (rows : List Row)
      → AreRows m live n c rows
      → Chain m.up c p (nodes_of rows)
      → length rows < k
      → walk go_up (uncover_row n) k c p (unlinked rows m) ≡ some m
  unfolding walk
  uncover-walk zero p rows q e h = absurd (omega arith)
  uncover-walk (suc k) p [] q e h = ground arith
  uncover-walk (suc k) p ((r, xs) ∷ rows) (in_col, fits, o, l, _, behind, q) (e, ne, rest) h =
      let (left, _, _) = unlinked-fields rows in
      let (up, _) = unlinked-column rows r q in_col in
      let one =
        uncover_row-unlink_all n r xs (unlinked rows m) (gone rows live) (rw left behind) fits
          (unlinked-IsLinked rows q) l in
      let off : (p == c) ≡ false = ground arith in
      let on = uncover-walk k (m.up r) rows q rest (omega arith) in ground (arith, off, one, up, on)
