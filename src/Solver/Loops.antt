-- ===== src/Solver/Loops.antt =====
-- sudoku.cc: the loops of `cover` and `uncover`, along the rings that they follow.
use network_lib.Base.{
  backwards, ℕ, zero, suc, ◌<◌, ◌≡◌, ◌≢◌, refl, ap, ◌∙◌, Bool, true, false, some, List, [], ◌∷◌,
  ◌++◌, length, ◌==◌, arith, length-append,
}
use network_lib.Solver.{Nodes, unlink, relink, walk, go_left, go_right, cover_row, uncover_row}
use network_lib.Solver.Links.{IsLinked, without, relink-unlink, unlink-IsLinked}

-- From `p` on, the links `next` lead to the nodes of the list and then to `end`.
abbrev pub Chain : (ℕ → ℕ) → ℕ → ℕ → List ℕ → Type 0
Chain next end p [] = p ≡ end
Chain next end p (x ∷ xs) = (p ≡ x) × (x ≢ end) × Chain next end (next x) xs

-- The nodes of a row are unlinked in order, and linked again in the reverse order.
abbrev pub unlink_all : List ℕ → Nodes → Nodes
unlink_all [] m = m
unlink_all (j ∷ js) m = unlink_all js (unlink j m)

abbrev relink_all : List ℕ → Nodes → Nodes
relink_all [] m = m
relink_all (j ∷ js) m = relink_all js (relink j m)

abbrev relink_back : List ℕ → Nodes → Nodes
relink_back [] m = m
relink_back (j ∷ js) m = relink j (relink_back js m)

-- The nodes of the list are linked, and each is there once.
abbrev pub AllLive : List ℕ → (ℕ → Bool) → Type 0
AllLive [] live = Unit {0}
AllLive (j ∷ js) live = (live j ≡ true) × AllLive js (without live j)

abbrev pub dead : List ℕ → (ℕ → Bool) → ℕ → Bool
dead [] live = live
dead (j ∷ js) live = dead js (without live j)

relink_all-append :
    (ys : List ℕ) (x : ℕ) (m : Nodes) → relink_all (ys ++ x ∷ []) m ≡ relink x (relink_all ys m)
relink_all-append [] x m = refl
relink_all-append (y ∷ ys) x m = relink_all-append ys x (relink y m)

relink_all-backwards : (xs : List ℕ) (m : Nodes) → relink_all (backwards xs) m ≡ relink_back xs m
relink_all-backwards [] m = refl
relink_all-backwards (x ∷ xs) m =
    relink_all-append (backwards xs) x m ∙ ap (relink x) (relink_all-backwards xs m)

relink_back-unlink_all :
    (xs : List ℕ) (m : Nodes) (live : ℕ → Bool)
    → IsLinked m live
    → AllLive xs live
    → relink_back xs (unlink_all xs m) ≡ m
relink_back-unlink_all [] m live v l = refl
relink_back-unlink_all (x ∷ xs) m live v (h, l) =
    ap (relink x)
      (relink_back-unlink_all xs (unlink x m) (without live x) (unlink-IsLinked m live v x h) l)
    ∙ relink-unlink m live v x h

pub unlink_all-IsLinked :
    (xs : List ℕ) (m : Nodes) (live : ℕ → Bool)
    → IsLinked m live
    → AllLive xs live
    → IsLinked (unlink_all xs m) (dead xs live)
unlink_all-IsLinked [] m live v l = v
unlink_all-IsLinked (x ∷ xs) m live v (h, l) =
    unlink_all-IsLinked xs (unlink x m) (without live x) (unlink-IsLinked m live v x h) l

-- The fields that `unlink` does not touch.
pub unlink_all-fields :
    (xs : List ℕ) (m : Nodes)
    → ((unlink_all xs m).left ≡ m.left)
      × ((unlink_all xs m).right ≡ m.right)
      × ((unlink_all xs m).col ≡ m.col)
unfolding unlink
unlink_all-fields [] m = (refl, refl, refl)
unlink_all-fields (x ∷ xs) m = unlink_all-fields xs (unlink x m)

-- The column `c` is not touched by what is done in others.
abbrev pub AllOutside : (ℕ → ℕ) → ℕ → List ℕ → Type 0
AllOutside col c [] = Unit {0}
AllOutside col c (x ∷ xs) = (col x ≢ c) × AllOutside col c xs

pub unlink_all-column :
    (xs : List ℕ) (m : Nodes) (live : ℕ → Bool) (c p : ℕ)
    → IsLinked m live
    → AllLive xs live
    → AllOutside m.col c xs
    → m.col p ≡ c
    → ((unlink_all xs m).up p ≡ m.up p) × ((unlink_all xs m).down p ≡ m.down p)
unfolding unlink
unlink_all-column [] m live c p v l o e = (refl, refl)
unlink_all-column (x ∷ xs) m live c p v (h, l) (ne, o) e =
    let (u, d) =
      unlink_all-column xs (unlink x m) (without live x) c p (unlink-IsLinked m live v x h) l o e in
    (
      u ∙ ground (arith, v.up_col x h, v.down_col x h),
      d ∙ ground (arith, v.up_col x h, v.down_col x h),
    )

cover_row-walk :
    (n row p : ℕ) (xs : List ℕ) (m : Nodes)
    → Chain m.right row p xs
    → length xs < n
    → walk go_right (λ j u. some (unlink j u)) n row p m ≡ some (unlink_all xs m)
unfolding walk unlink
cover_row-walk zero row p xs m e h = absurd (omega arith)
cover_row-walk (suc n) row p [] m e h = ground arith
cover_row-walk (suc n) row p (x ∷ xs) m (e, ne, rest) h =
    let off : (p == row) ≡ false = ground arith in
    ground (arith, off, cover_row-walk n row (m.right x) xs (unlink x m) rest)

uncover_row-walk :
    (n row p : ℕ) (ys : List ℕ) (m : Nodes)
    → Chain m.left row p ys
    → length ys < n
    → walk go_left (λ j u. some (relink j u)) n row p m ≡ some (relink_all ys m)
unfolding walk relink
uncover_row-walk zero row p ys m e h = absurd (omega arith)
uncover_row-walk (suc n) row p [] m e h = ground arith
uncover_row-walk (suc n) row p (y ∷ ys) m (e, ne, rest) h =
    let off : (p == row) ≡ false = ground arith in
    ground (arith, off, uncover_row-walk n row (m.left y) ys (relink y m) rest)

pub cover_row-unlink_all :
    (n row : ℕ) (xs : List ℕ) (m : Nodes)
    → Chain m.right row (m.right row) xs
    → length xs < n
    → cover_row n row m ≡ some (unlink_all xs m)
unfolding cover_row
cover_row-unlink_all n row xs m e h = cover_row-walk n row (m.right row) xs m e h

length-backwards : (xs : List ℕ) → length (backwards xs) ≡ length xs
length-backwards [] = refl
length-backwards (x ∷ xs) =
    omega (arith, length-append (backwards xs) (x ∷ []), length-backwards xs)

-- A row that was unlinked is linked again as it was.
pub uncover_row-unlink_all :
    (n row : ℕ) (xs : List ℕ) (m : Nodes) (live : ℕ → Bool)
    → Chain m.left row (m.left row) (backwards xs)
    → length xs < n
    → IsLinked m live
    → AllLive xs live
    → uncover_row n row (unlink_all xs m) ≡ some m
unfolding uncover_row
uncover_row-unlink_all n row xs m live e h v l =
    let (same, _, _) = unlink_all-fields xs m in
    let chain : Chain (unlink_all xs m).left row ((unlink_all xs m).left row) (backwards xs) =
      rw same e in
    let short : length (backwards xs) < n = omega (arith, length-backwards xs) in
    uncover_row-walk n row ((unlink_all xs m).left row) (backwards xs) (unlink_all xs m) chain short
    ∙ ap some (relink_all-backwards xs (unlink_all xs m) ∙ relink_back-unlink_all xs m live v l)
