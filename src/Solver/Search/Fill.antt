-- ===== src/Solver/Search/Fill.antt =====
-- sudoku.cc: the board, written from the rows on the stack.
use network_lib.Base.{
  ℕ, zero, suc, ◌<◌, ◌≡◌, refl, sym, ◌∙◌, subst, Bool, true, Option, some, none, List, [], ◌∷◌, map,
  length, set, length-set, arith, ltb, if◌then◌else◌, ◌%◌,
}
use network_lib.Solver.{Nodes}
use network_lib.Solver.Loops.{Chain}
use network_lib.Solver.Grid.{Plan, IsPlan, Core}
use network_lib.Solver.Rings.{Chain-agree}
use network_lib.Solver.Search.{find_cell, write_cell, write_board}

-- A cell and a value, as far as they were found.
abbrev pub both : Option ℕ → Option ℕ → Option (ℕ × ℕ)
both (some cell) (some val) = some (cell, val)
both (some cell) none = none
both none val = none

-- The cell and the value that the names of a row's nodes give.
abbrev pub pick : List ℕ → Option ℕ → Option ℕ → Option (ℕ × ℕ)
pick [] cell val = both cell val
pick (a ∷ names) cell val = elim (both cell val) [
  | some r ↦ some r
  | none ↦ if ltb a 100 then pick names (some a) val else pick names cell (some (a % 10))
]

find_cell-pick :
    (n : ℕ) (m : Nodes) (end p : ℕ) (xs : List ℕ) (cell val : Option ℕ) (r : ℕ × ℕ)
    → Chain m.right end p xs
    → length xs < n
    → pick (map m.name xs) cell val ≡ some r
    → find_cell n m p cell val ≡ some r
unfolding find_cell
find_cell-pick zero m end p xs cell val r e h k = absurd (omega arith)
find_cell-pick (suc n) m end p [] (some c) (some v) r e h k = k
find_cell-pick (suc n) m end p [] (some c) none r e h k = absurd (cc)
find_cell-pick (suc n) m end p [] none val r e h k = absurd (cc)
find_cell-pick (suc n) m end p (x ∷ xs) (some c) (some v) r e h k = k
find_cell-pick (suc n) m end p (x ∷ xs) (some c) none r (e, ne, rest) h k = ground (
  arith,
  find_cell-pick n m end (m.right x) xs (some (m.name x)) none r rest,
  find_cell-pick n m end (m.right x) xs (some c) (some (m.name x % 10)) r rest,
)
find_cell-pick (suc n) m end p (x ∷ xs) none (some v) r (e, ne, rest) h k = ground (
  arith,
  find_cell-pick n m end (m.right x) xs (some (m.name x)) (some v) r rest,
  find_cell-pick n m end (m.right x) xs none (some (m.name x % 10)) r rest,
)
find_cell-pick (suc n) m end p (x ∷ xs) none none r (e, ne, rest) h k = ground (
  arith,
  find_cell-pick n m end (m.right x) xs (some (m.name x)) none r rest,
  find_cell-pick n m end (m.right x) xs none (some (m.name x % 10)) r rest,
)

-- The names of each row give a cell of the board and a value.
pub record IsLabelled (p : Plan) (size : ℕ) (cell digit : ℕ → ℕ) : Type 0 where
  pub picked :
      (x : ℕ)
      → p.known x ≡ true
      → pick (map p.label (x ∷ p.mates x)) none none ≡ some (cell x, digit x)
  pub cell_fits : (x : ℕ) → p.known x ≡ true → cell x < size

abbrev pub AllKnown : (ℕ → Bool) → List ℕ → Type 0
AllKnown known [] = Unit {0}
AllKnown known (x ∷ xs) = (known x ≡ true) × AllKnown known xs

-- The board with the rows written on it.
abbrev pub written : (ℕ → ℕ) → (ℕ → ℕ) → List ℕ → List ℕ → List ℕ
written cell digit [] board = board
written cell digit (x ∷ stack) board = set (written cell digit stack board) (cell x) (digit x)

map-agree : (f g : ℕ → ℕ) (xs : List ℕ) → ((x : ℕ) → f x ≡ g x) → map f xs ≡ map g xs
map-agree f g [] same = refl
map-agree f g (x ∷ xs) same = ground (arith, same x, map-agree f g xs same)

module _ (p : Plan) (n : ℕ) (q : IsPlan p n) (m : Nodes) (live : ℕ → Bool) (cols : List ℕ)
    (rows : ℕ → List ℕ) (k : Core p n m live cols rows) (size : ℕ) (cell digit : ℕ → ℕ)
    (l : IsLabelled p size cell digit) where
  ring_here : (x : ℕ) → p.known x ≡ true → Chain m.right x (m.right x) (p.mates x)
  ring_here x kx =
      subst (λ z. Chain m.right x z (p.mates x)) (sym (k.right_same x kx))
        (Chain-agree p.to_right m.right x (p.to_right x) (p.mates x)
          (λ y hy. sym (k.right_same y (q.mates_known x y kx hy))) (q.right_ring x kx))

  find_cell_row :
      (x : ℕ) → p.known x ≡ true → find_cell (suc n) m x none none ≡ some (cell x, digit x)
  unfolding find_cell
  find_cell_row x kx =
      let named : map m.name (p.mates x) ≡ map p.label (p.mates x) =
        map-agree m.name p.label (p.mates x) k.name_same in
      let e : pick (map m.name (x ∷ p.mates x)) none none ≡ some (cell x, digit x) =
        subst (λ z. pick z none none ≡ some (cell x, digit x))
          (sym (map-agree m.name p.label (x ∷ p.mates x) k.name_same)) (l.picked x kx) in
      ground (
        arith,
        q.few x kx,
        find_cell-pick n m x (m.right x) (p.mates x) (some (m.name x)) none (cell x, digit x)
            (ring_here x kx),
        find_cell-pick n m x (m.right x) (p.mates x) none (some (m.name x % 10)) (cell x, digit x)
            (ring_here x kx),
      )

  write_cell_row :
      (x : ℕ) (inout : List ℕ)
      → p.known x ≡ true
      → length inout ≡ size
      → write_cell (suc n) m inout x ≡ some (set inout (cell x) (digit x))
  unfolding write_cell
  write_cell_row x inout kx e = ground (arith, find_cell_row x kx, l.cell_fits x kx)

  length-written : (xs board : List ℕ) → length (written cell digit xs board) ≡ length board
  length-written [] board = refl
  length-written (x ∷ xs) board =
      length-set (written cell digit xs board) (cell x) (digit x) ∙ length-written xs board

  pub write_board-written :
      (xs board : List ℕ)
      → AllKnown p.known xs
      → length board ≡ size
      → write_board (suc n) m xs board ≡ some (written cell digit xs board)
  unfolding write_board
  write_board-written [] board h e = refl
  write_board-written (x ∷ xs) board (kx, h) e =
      rw (write_board-written xs board h e)
        (write_cell_row x (written cell digit xs board) kx (length-written xs board ∙ e))
