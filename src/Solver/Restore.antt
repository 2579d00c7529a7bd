-- ===== src/Solver/Restore.antt =====
-- sudoku.cc: `uncover` after `cover`.
use network_lib.Base.{
  backwards, ℕ, ◌+◌, ◌<◌, ◌≡◌, ◌≢◌, refl, ap, Bool, some, List, [], ◌∷◌, ◌++◌, length, update,
  arith,
}
use network_lib.Solver.{Nodes, walk, go_up, uncover_row, hide, unhide, cover, uncover}
use network_lib.Solver.Links.{IsLinked, Nodes_ext}
use network_lib.Solver.Loops.{Chain, AllOutside}
use network_lib.Solver.Cover.{
  Row, nodes_of, unlinked, unlinked-column, AreRows, over, cover-walk, uncover-walk,
}

-- No node of the rows is the node `a`.
abbrev pub AllApart : ℕ → List Row → Type 0
AllApart a [] = Unit {0}
AllApart a ((r, xs) ∷ rows) = AllOutside (λ x. x) a (r ∷ xs) × AllApart a rows

-- The column `c`, whose rows from the top are `rows`, in a matrix of doubly linked rings.
pub record IsColumn (m : Nodes) (live : ℕ → Bool) (n c : ℕ) (rows : List Row) : Type 0 where
  pub linked : IsLinked m live
  pub header : m.col c ≡ c
  pub in_rows : AreRows m live n c (over rows [])
  pub down_ring : Chain m.down c (m.down c) (nodes_of rows)
  pub up_ring : Chain m.up c (m.up c) (nodes_of (over rows []))
  pub fits : length rows < n
  pub left_right : m.left (m.right c) ≡ c
  pub right_left : m.right (m.left c) ≡ c
  pub left_apart : AllApart (m.left c) (over rows [])
  pub right_apart : AllApart (m.right c) (over rows [])

AllOutside-append :
    (col : ℕ → ℕ) (c : ℕ) (xs ys : List ℕ)
    → AllOutside col c xs
    → AllOutside col c ys
    → AllOutside col c (xs ++ ys)
AllOutside-append col c [] ys p q = q
AllOutside-append col c (x ∷ xs) ys (ne, p) q = (ne, AllOutside-append col c xs ys p q)

AllOutside-backwards :
    (col : ℕ → ℕ) (c : ℕ) (xs : List ℕ) → AllOutside col c xs → AllOutside col c (backwards xs)
AllOutside-backwards col c [] p = tt
AllOutside-backwards col c (x ∷ xs) (ne, p) =
    AllOutside-append col c (backwards xs) (x ∷ []) (AllOutside-backwards col c xs p) (ne, tt)

update-other : (f : ℕ → ℕ) (a w x : ℕ) → x ≢ a → update f a w x ≡ f x
update-other f a w x ne = ground arith

Chain-update :
    (f : ℕ → ℕ) (a w end p : ℕ) (xs : List ℕ)
    → AllOutside (λ x. x) a xs
    → Chain f end p xs
    → Chain (update f a w) end p xs
Chain-update f a w end p [] o e = e
Chain-update f a w end p (x ∷ xs) (off, o) (e, ne, rest) =
    (e, ne, rw (update-other f a w x off) (Chain-update f a w end (f x) xs o rest))

ring-update :
    (f : ℕ → ℕ) (a w r : ℕ) (xs : List ℕ)
    → r ≢ a
    → AllOutside (λ x. x) a xs
    → Chain f r (f r) xs
    → Chain (update f a w) r (update f a w r) xs
ring-update f a w r xs off o e = rw (update-other f a w r off) (Chain-update f a w r (f r) xs o e)

pub hide-right : (c : ℕ) (m : Nodes) → (hide c m).right ≡ update m.right (m.left c) (m.right c)
unfolding hide
hide-right c m = λ i x. at x i
  where
    at : (x : ℕ) → (hide c m).right x ≡ update m.right (m.left c) (m.right c) x
    at x = ground arith

hide-ring :
    (c r : ℕ) (m : Nodes) (xs : List ℕ)
    → r ≢ m.left c
    → AllOutside (λ x. x) (m.left c) xs
    → Chain m.right r (m.right r) xs
    → Chain (hide c m).right r ((hide c m).right r) xs
hide-ring c r m xs off o e =
    rw (hide-right c m) (ring-update m.right (m.left c) (m.right c) r xs off o e)

hide-AreRows :
    (m : Nodes) (live : ℕ → Bool) (n c : ℕ) (rows : List Row)
    → AllApart (m.left c) rows
    → AllApart (m.right c) rows
    → AreRows m live n c rows
    → AreRows (hide c m) live n c rows
unfolding hide
hide-AreRows m live n c [] a b q = tt
hide-AreRows m live n c ((r, xs) ∷ rows) ((off, a), la) ((off', b), ra)
      (in_col, fits, o, l, ahead, behind, q) =
    (
      in_col,
      fits,
      o,
      l,
      hide-ring c r m xs off a ahead,
      ring-update m.left (m.right c) (m.left c) r (backwards xs) off'
          (AllOutside-backwards (λ x. x) (m.right c) xs b) behind,
      hide-AreRows m live n c rows la ra q,
    )

pub hide-IsLinked :
    (m : Nodes) (live : ℕ → Bool) (c : ℕ) → IsLinked m live → IsLinked (hide c m) live
unfolding hide
hide-IsLinked m live c v = record {
  up_live = v.up_live;
  down_live = v.down_live;
  down_up = v.down_up;
  up_down = v.up_down;
  up_col = v.up_col;
  down_col = v.down_col;
  sized = v.sized;
}

unhide-hide :
    (m : Nodes) (c : ℕ) → m.left (m.right c) ≡ c → m.right (m.left c) ≡ c → unhide c (hide c m) ≡ m
unfolding hide unhide
unhide-hide m c e k =
    Nodes_ext (unhide c (hide c m)) m (λ x. ground arith) (λ x. ground arith) (λ x. refl)
      (λ x. refl) (λ x. refl) (λ x. refl) (λ x. refl)

length-over : (todo done : List Row) → length (over todo done) ≡ length todo + length done
length-over [] done = omega arith
length-over (row ∷ todo) done = omega (arith, length-over todo (row ∷ done))

uncover_lem :
    (n c : ℕ) (u h m : Nodes)
    → walk go_up (uncover_row n) n c (u.up c) u ≡ some h
    → unhide c h ≡ m
    → uncover n c u ≡ some m
unfolding uncover
uncover_lem n c u h m e k = rw e (ap some k)

pub hide-column :
    (c : ℕ) (m : Nodes)
    → ((hide c m).up ≡ m.up) × ((hide c m).down ≡ m.down) × ((hide c m).col ≡ m.col)
unfolding hide
hide-column c m = (refl, refl, refl)

-- What `cover` comes to, and that `uncover` takes it back.
pub cover_lem :
    (m : Nodes) (live : ℕ → Bool) (n c : ℕ) (rows : List Row)
    → IsColumn m live n c rows
    → (cover n c m ≡ some (unlinked (over rows []) (hide c m)))
      × (uncover n c (unlinked (over rows []) (hide c m)) ≡ some m)
unfolding cover
cover_lem m live n c rows q =
    let hidden = hide c m in
    let done = over rows [] in
    let (up, down, col) = hide-column c m in
    let v = hide-IsLinked m live c q.linked in
    let h = hide-AreRows m live n c done q.left_apart q.right_apart q.in_rows in
    let few : length done < n = omega (arith, length-over rows [], q.fits) in
    let (at_top, _) = unlinked-column hidden live v n c done c h (rw col q.header) in
    (
      cover-walk hidden live v n c n (hidden.down c) rows [] h (rw down q.down_ring) q.fits,
      uncover_lem n c (unlinked done hidden) hidden m
          (rw at_top (uncover-walk hidden live v n c n (hidden.up c) done h (rw up q.up_ring) few))
          (unhide-hide m c q.left_right q.right_left),
    )

-- `cover` and then `uncover` of a column come to their ends and leave every link and every size as it
-- was, in a matrix whose columns and rows are doubly linked rings with the column's header in a ring,
-- where no other node of the column's rows is in the column, none of them is met twice, and the
-- fuel is above the number of the rows and of the other nodes of each.
pub uncover-cover :
    (m : Nodes) (live : ℕ → Bool) (n c : ℕ) (rows : List Row)
    → IsColumn m live n c rows
    → (u : Nodes) × (cover n c m ≡ some u) × (uncover n c u ≡ some m)
uncover-cover m live n c rows q =
    let (covers, uncovers) = cover_lem m live n c rows q in
    (unlinked (over rows []) (hide c m), covers, uncovers)
