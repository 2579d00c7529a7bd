-- ===== src/Solver/Build/Adding.antt =====
-- sudoku.cc: the loop of the constructor that adds the rows.
use network_lib.Base.{
  ℕ, suc, ◌/◌, ◌%◌, ◌<◌, ◌≡◌, sym, subst, some, List, ◌==◌, if◌then◌else◌, arith, Bool-cases, inl,
  inr, ◌||◌, get_elem?,
}
use network_lib.Solver.Build.{Builder, add_row, box_of, place, cell_rows, Used, for_range}
use network_lib.Solver.Build.Ranges.{bind_some, for_range-keeps}
use network_lib.Solver.Build.Rowed.{Rowed, add_row-Parts}
use network_lib.Solver.Build.Growing.{after-Rowed}

abbrev pub SomeRowed : ℕ → Builder → Type 0
SomeRowed k b = (count : ℕ) × (rows : ℕ → List ℕ) × Rowed k count b rows

add_row-Rowed :
    (k i v : ℕ) (b c : Builder)
    → 0 < v
    → v < 10
    → i < 81
    → SomeRowed k b
    → add_row i v b ≡ some c
    → SomeRowed k c
add_row-Rowed k i v b c hv lv li (count, rows, s) e =
    let parts = add_row-Parts i v b c e in
    let (later, r) = after-Rowed i v b c parts k count rows s hv lv li in
    subst (SomeRowed k) (sym parts.result) (suc count, later, r)

place-Rowed :
    (k : ℕ) (u : Used) (i v : ℕ) (b c : Builder)
    → 0 < v
    → v < 10
    → i < 81
    → SomeRowed k b
    → place u i v b ≡ some c
    → SomeRowed k c
unfolding place
place-Rowed k u i v b c hv lv li s e =
    elim (Bool-cases (u.rows (i / 9) v || u.cols (i % 9) v || u.boxes (box_of i) v)) [
      | inl used ↦ subst (SomeRowed k) (ground (arith, used, e)) s
      | inr unused ↦ add_row-Rowed k i v b c hv lv li s (ground (arith, unused, e))
    ]

-- The loop that adds the rows.
pub rows-Rowed :
    (k : ℕ) (u : Used) (inout : List ℕ) (b c : Builder)
    → SomeRowed k b
    → for_range 0 81 (cell_rows u inout) b ≡ some c
    → SomeRowed k c
unfolding cell_rows
rows-Rowed k u inout b c s e =
    for_range-keeps (SomeRowed k) (cell_rows u inout) 0 81 b c
      (λ i x y _ li p f.
        let (val, _, rest) =
          bind_some (get_elem? inout i)
            (λ val. if val == 0 then for_range 1 9 (place u i) x else some x) y f in
        elim (Bool-cases (val == 0)) [
          | inl empty ↦
              for_range-keeps (SomeRowed k) (place u i) 1 9 x y
                (λ v z w h l q g. place-Rowed k u i v z w h l li q g) p
                (ground (arith, empty, rest))
          | inr full ↦ subst (SomeRowed k) (ground (arith, full, rest)) p
        ])
      s e
