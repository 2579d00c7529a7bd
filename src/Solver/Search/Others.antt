-- ===== src/Solver/Search/Others.antt =====
-- sudoku.cc: the columns of a row's other nodes, which are covered and uncovered one by one.
use network_lib.Base.{
  ℕ, zero, suc, ◌+◌, ◌-◌, ◌<◌, ◌≡◌, ◌≢◌, sym, ap, ◌∙◌, subst, Bool, true, Option, some, List, [],
  ◌∷◌, ◌++◌, length, has, remove, has-remove, backwards, arith, append_assoc, append-nil,
}
use network_lib.Solver.{Nodes, walk, go_left, go_right, cover, uncover}
use network_lib.Solver.Loops.{Chain}
use network_lib.Solver.Grid.{Plan, IsPlan, AllApart, Inv}
use network_lib.Solver.Grid.Rows.{AllOutside-ne}
use network_lib.Solver.Grid.Covered.{Inv-Covering}
use network_lib.Solver.Search.{cover_others, uncover_others}

-- The columns that are left when those of the nodes were covered.
abbrev pub remove_all : (ℕ → ℕ) → List ℕ → List ℕ → List ℕ
remove_all col [] cols = cols
remove_all col (x ∷ xs) cols = remove_all col xs (remove (col x) cols)

walk-step :
    (next : Nodes → ℕ → ℕ) (visit : ℕ → Nodes → Option Nodes) (k end x : ℕ) (m u : Nodes)
    → x ≢ end
    → visit x m ≡ some u
    → walk next visit (suc k) end x m ≡ walk next visit k end (next u x) u
unfolding walk
walk-step next visit k end x m u ne e = ground (arith, e)

walk-end :
    (next : Nodes → ℕ → ℕ) (visit : ℕ → Nodes → Option Nodes) (k end x : ℕ) (m : Nodes)
    → 0 < k
    → x ≡ end
    → walk next visit k end x m ≡ some m
unfolding walk
walk-end next visit zero end x m h e = absurd (omega arith)
walk-end next visit (suc k) end x m h e = ground arith

module _ (p : Plan) (n : ℕ) (q : IsPlan p n) (row : ℕ) where
  -- `u` is `m` after the columns of the nodes `xs` were covered, and the way back.
  pub record Follows (m u : Nodes) (xs : List ℕ) : Type 0 where
    pub forward :
        (k pt : ℕ) (rest : List ℕ)
        → Chain p.to_right row pt (xs ++ rest)
        → (pt' : ℕ) × Chain p.to_right row pt' rest
          × (walk go_right (λ j v. cover n (v.col j) v) (k + length xs) row pt m
              ≡ walk go_right (λ j v. cover n (v.col j) v) k row pt' u)
    pub backward :
        (k pt : ℕ) (rest : List ℕ)
        → Chain p.to_left row pt (backwards xs ++ rest)
        → (pt' : ℕ) × Chain p.to_left row pt' rest
          × (walk go_left (λ j v. uncover n (v.col j) v) (k + length xs) row pt u
              ≡ walk go_left (λ j v. uncover n (v.col j) v) k row pt' m)

  abbrev covering : ℕ → Nodes → Option Nodes
  covering j v = cover n (v.col j) v

  abbrev uncovering : ℕ → Nodes → Option Nodes
  uncovering j v = uncover n (v.col j) v

  Follows-cons :
      (x : ℕ) (xs : List ℕ) (m t u : Nodes)
      → t.right x ≡ p.to_right x
      → m.left x ≡ p.to_left x
      → covering x m ≡ some t
      → uncovering x t ≡ some m
      → Follows t u xs
      → Follows m u (x ∷ xs)
  Follows-cons x xs m t u r l covers uncovers f = record {
    forward = λ k pt rest (e, ne, chain).
        let (pt', chain', on) = f.forward k (p.to_right x) rest chain in
        (
          pt',
          chain',
          ap (λ z. walk go_right covering (k + suc (length xs)) row z m) e
              ∙ (ap (λ z. walk go_right covering z row x m) (count k)
                  ∙ (walk-step go_right covering (k + length xs) row x m t ne covers
                      ∙ (ap (λ z. walk go_right covering (k + length xs) row z t) r ∙ on))),
        );
    backward = λ k pt rest chain.
        let (pt', (e, ne, chain'), on) =
          f.backward (suc k) pt (x ∷ rest)
            (subst (Chain p.to_left row pt) (append_assoc (backwards xs) (x ∷ []) rest) chain) in
        (
          p.to_left x,
          chain',
          ap (λ z. walk go_left uncovering z row pt u) (back k)
              ∙ (on
                  ∙ (ap (λ z. walk go_left uncovering (suc k) row z t) e
                      ∙ (walk-step go_left uncovering k row x t m ne uncovers
                          ∙ ap (λ z. walk go_left uncovering k row z m) l))),
        );
  }
    where
      count : (k : ℕ) → k + suc (length xs) ≡ suc (k + length xs)
      count k = omega arith

      back : (k : ℕ) → k + suc (length xs) ≡ suc k + length xs
      back k = omega arith

  pub others-Follows :
      (xs : List ℕ) (m : Nodes) (live : ℕ → Bool) (cols : List ℕ) (rows : ℕ → List ℕ)
      → Inv p n m live cols rows
      → ((x : ℕ) → has x xs ≡ true → p.known x ≡ true)
      → AllApart p.column xs
      → ((x : ℕ) → has x xs ≡ true → has (p.column x) cols ≡ true)
      → (u : Nodes) × (alive : ℕ → Bool) × (left : ℕ → List ℕ) × Inv p n u alive
          (remove_all p.column xs cols)
          left
        × Follows m u xs
  others-Follows [] m live cols rows i known apart there = (
    m,
    live,
    rows,
    i,
    record {
      forward = λ k pt rest chain. (
        pt,
        chain,
        ap (λ z. walk go_right (λ j v. cover n (v.col j) v) z row pt m) (omega arith),
      );
      backward = λ k pt rest chain. (
        pt,
        chain,
        ap (λ z. walk go_left (λ j v. uncover n (v.col j) v) z row pt m) (omega arith),
      );
    },
  )
  others-Follows (x ∷ xs) m live cols rows i known (out, apart) there =
      let c = p.column x in
      let hc : has c cols ≡ true = there x (ground arith) in
      let kx : p.known x ≡ true = known x (ground arith) in
      let cv = Inv-Covering p n q m live cols rows i c hc in
      let left : (y : ℕ) → has y xs ≡ true → has (p.column y) (remove c cols) ≡ true = λ y hy.
        ground (
          arith,
          has-remove (p.column y) c cols,
          there y (ground (arith, hy)),
          AllOutside-ne p.column c y xs out hy,
        ) in
      let (u, alive, later, inv, f) =
        others-Follows xs cv.after cv.live (remove c cols) cv.later cv.inv
          (λ y hy. known y (ground (arith, hy))) apart left in
      let covers : cover n (m.col x) m ≡ some cv.after =
        subst (λ d. cover n d m ≡ some cv.after) (sym (i.core.col_same x)) cv.covers in
      let uncovers : uncover n (cv.after.col x) cv.after ≡ some m =
        subst (λ d. uncover n d cv.after ≡ some m) (sym (cv.inv.core.col_same x)) cv.uncovers in
      (
        u,
        alive,
        later,
        inv,
        Follows-cons x xs m cv.after u (cv.inv.core.right_same x kx) (i.core.left_same x kx) covers
            uncovers f,
      )

  -- The columns of a row's other nodes are covered, and uncovered again.
  pub cover_others_lem :
      (m u : Nodes)
      → p.known row ≡ true
      → m.right row ≡ p.to_right row
      → u.left row ≡ p.to_left row
      → Follows m u (p.mates row)
      → (cover_others n row m ≡ some u) × (uncover_others n row u ≡ some m)
  unfolding cover_others uncover_others
  cover_others_lem m u k r l f =
      let few = q.few row k in
      let (pt, at, on) = f.forward (n - length (p.mates row)) (p.to_right row) [] (
        subst (Chain p.to_right row (p.to_right row)) (sym (append-nil (p.mates row)))
          (q.right_ring row k)) in
      let (pt', at', on') = f.backward (n - length (p.mates row)) (p.to_left row) [] (
        subst (Chain p.to_left row (p.to_left row)) (sym (append-nil (backwards (p.mates row))))
          (q.left_ring row k)) in
      let count : n - length (p.mates row) + length (p.mates row) ≡ n = omega arith in
      let some_left : 0 < n - length (p.mates row) = omega arith in
      (
        ap (λ z. walk go_right covering n row z m) r
            ∙ (ap (λ z. walk go_right covering z row (p.to_right row) m) (sym count)
                ∙ (on
                    ∙ walk-end go_right covering (n - length (p.mates row)) row pt u some_left at)),
        ap (λ z. walk go_left uncovering n row z u) l
            ∙ (ap (λ z. walk go_left uncovering z row (p.to_left row) u) (sym count)
                ∙ (on'
                    ∙ walk-end go_left uncovering (n - length (p.mates row)) row pt' m some_left
                        at')),
      )
