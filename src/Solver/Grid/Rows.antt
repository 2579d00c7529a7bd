-- ===== src/Solver/Grid/Rows.antt =====
-- sudoku.cc: the rows of a column, whose other nodes `cover` unlinks.
use network_lib.Base.{
  ℕ, suc, ◌≡◌, ◌≢◌, inl, inr, refl, sym, ap, ◌∙◌, subst, Bool, true, false, not, ◌&&◌, ◌||◌, List,
  [], ◌∷◌, ◌++◌, length, has, Once, backwards, has-backwards, append_assoc, arith, Bool-cases, ◌==◌,
}
use network_lib.Solver.{Nodes}
use network_lib.Solver.Links.{without}
use network_lib.Solver.Loops.{Chain, AllLive, dead, AllOutside}
use network_lib.Solver.Cover.{Row, nodes_of, gone, AreRows, over}
use network_lib.Solver.Rings.{Chain-agree}
use network_lib.Solver.Grid.{Plan, IsPlan, AllApart}

pub AllOutside-ne :
    (col : ℕ → ℕ) (c x : ℕ) (xs : List ℕ) → AllOutside col c xs → has x xs ≡ true → col x ≢ c
AllOutside-ne col c x [] o h = absurd (cc)
AllOutside-ne col c x (y ∷ ys) (ne, o) h = elim (Bool-cases (y == x)) [
  | inl same ↦ λ e. ne (ground arith)
  | inr other ↦ AllOutside-ne col c x ys o (ground arith)
]

AllOutside-agree :
    (f g : ℕ → ℕ) (c d : ℕ) (xs : List ℕ)
    → ((x : ℕ) → g x ≡ f x)
    → c ≡ d
    → AllOutside f c xs
    → AllOutside g d xs
AllOutside-agree f g c d [] same e o = tt
AllOutside-agree f g c d (x ∷ xs) same e (ne, o) =
    (λ h. ne (ground (arith, same x)), AllOutside-agree f g c d xs same e o)

AllOutside-missing :
    (col : ℕ → ℕ) (x : ℕ) (xs : List ℕ) → AllOutside col (col x) xs → has x xs ≡ false
AllOutside-missing col x xs o = elim (Bool-cases (has x xs)) [
  | inl there ↦ absurd (AllOutside-ne col (col x) x xs o there refl)
  | inr out ↦ out
]

AllApart-Once : (col : ℕ → ℕ) (xs : List ℕ) → AllApart col xs → Once xs
AllApart-Once col [] a = tt
AllApart-Once col (x ∷ xs) (o, a) = (AllOutside-missing col x xs o, AllApart-Once col xs a)

dead_lem : (xs : List ℕ) (live : ℕ → Bool) (x : ℕ) → dead xs live x ≡ (not (has x xs) && live x)
dead_lem [] live x = refl
dead_lem (y ∷ ys) live x = ground (arith, dead_lem ys (without live y) x)

Once-AllLive :
    (xs : List ℕ) (live : ℕ → Bool)
    → Once xs
    → ((x : ℕ) → has x xs ≡ true → live x ≡ true)
    → AllLive xs live
Once-AllLive [] live o h = tt
Once-AllLive (x ∷ xs) live (n, o) h =
    (h x (ground arith), Once-AllLive xs (without live x) o (λ y k. ground (arith, h y, n)))

module _ (p : Plan) (n : ℕ) (q : IsPlan p n) where
  abbrev pub pairs : List ℕ → List Row
  pairs [] = []
  pairs (r ∷ rs) = (r, p.mates r) ∷ pairs rs

  -- Whether a node stands in one of the rows, not counting the rows' own nodes.
  abbrev pub in_mates : List ℕ → ℕ → Bool
  in_mates [] x = false
  in_mates (r ∷ rs) x = has x (p.mates r) || in_mates rs x

  pub in_mates_row :
      (rs : List ℕ) (x : ℕ)
      → in_mates rs x ≡ true
      → (r : ℕ) × (has r rs ≡ true) × (has x (p.mates r) ≡ true)
  in_mates_row [] x h = absurd (cc)
  in_mates_row (r ∷ rs) x h = elim (Bool-cases (has x (p.mates r))) [
    | inl there ↦ (r, ground arith, there)
    | inr not_there ↦
        let (s, hs, hx) = in_mates_row rs x (ground arith) in (s, ground (arith, hs), hx)
  ]

  pub in_mates_lem :
      (rs : List ℕ) (r x : ℕ) → has r rs ≡ true → has x (p.mates r) ≡ true → in_mates rs x ≡ true
  in_mates_lem [] r x h k = absurd (cc)
  in_mates_lem (s ∷ rs) r x h k = elim (Bool-cases (s == r)) [
    | inl same ↦
        let e : s ≡ r = ground arith in
        let at : has x (p.mates s) ≡ true = subst (λ t. has x (p.mates t) ≡ true) (sym e) k in
        ground (arith, at)
    | inr other ↦ ground (arith, in_mates_lem rs r x)
  ]

  pub gone_lem :
      (rs : List ℕ) (live : ℕ → Bool) (x : ℕ)
      → gone (pairs rs) live x ≡ (not (in_mates rs x) && live x)
  gone_lem [] live x = refl
  gone_lem (r ∷ rs) live x =
      ground (arith, dead_lem (p.mates r) (gone (pairs rs) live) x, gone_lem rs live x)

  pub nodes_of-pairs : (rs : List ℕ) → nodes_of (pairs rs) ≡ rs
  nodes_of-pairs [] = refl
  nodes_of-pairs (r ∷ rs) = ap (λ xs. r ∷ xs) (nodes_of-pairs rs)

  pub over-pairs : (rs done : List ℕ) → over (pairs rs) (pairs done) ≡ pairs (backwards rs ++ done)
  over-pairs [] done = refl
  over-pairs (r ∷ rs) done =
      over-pairs rs (r ∷ done) ∙ ap pairs (sym (append_assoc (backwards rs) (r ∷ []) done))

  pub length-pairs : (rs : List ℕ) → length (pairs rs) ≡ length rs
  length-pairs [] = refl
  length-pairs (r ∷ rs) = ap suc (length-pairs rs)

  -- Two rows of a column share no node.
  pub rows_apart :
      (r s x : ℕ)
      → p.known r ≡ true
      → p.known s ≡ true
      → p.column r ≡ p.column s
      → has x (p.mates r) ≡ true
      → has x (p.mates s) ≡ true
      → s ≡ r
  rows_apart r s x kr ks e hr hs = elim (q.mates_trans r x s kr hr (q.mates_sym s x ks hs)) [
    | inl same ↦ same
    | inr mate ↦
        absurd (AllOutside-ne p.column (p.column r) s (p.mates r) (q.apart r kr).0 mate (sym e))
  ]

  module _ (m : Nodes) (live : ℕ → Bool)
      (left_same : (x : ℕ) → p.known x ≡ true → m.left x ≡ p.to_left x)
      (right_same : (x : ℕ) → p.known x ≡ true → m.right x ≡ p.to_right x)
      (col_same : (x : ℕ) → m.col x ≡ p.column x)
      (whole : (x y : ℕ)
        → live x ≡ true
        → p.known x ≡ true
        → has y (p.mates x) ≡ true
        → live y ≡ true)
      (c : ℕ) where
    -- The nodes of the list are linked nodes of rows in the column `c`.
    abbrev pub AllOf : List ℕ → Type 0
    AllOf rs = (r : ℕ) → has r rs ≡ true → (live r ≡ true) × (p.known r ≡ true) × (p.column r ≡ c)

    pub pairs-AreRows : (rs : List ℕ) → Once rs → AllOf rs → AreRows m live n c (pairs rs)
    pairs-AreRows [] o a = tt
    pairs-AreRows (r ∷ rs) (out, o) a =
        let (l, k, e) = a r (ground arith) in
        let later : AllOf rs = λ s h. a s (ground (arith, h)) in
        let right_at : (x : ℕ) → has x (p.mates r) ≡ true → p.to_right x ≡ m.right x =
          λ x h. sym (right_same x (q.mates_known r x k h)) in
        let left_at : (x : ℕ) → has x (backwards (p.mates r)) ≡ true → p.to_left x ≡ m.left x =
          λ x h. sym (left_same x (q.mates_known r x k (sym (has-backwards x (p.mates r)) ∙ h))) in
        let apart : (x : ℕ) → has x (p.mates r) ≡ true → in_mates rs x ≡ false = λ x h.
          elim (Bool-cases (in_mates rs x)) [
            | inl there ↦
                let (s, hs, hx) = in_mates_row rs x there in
                let (_, ks, es) = later s hs in
                let same = rows_apart r s x k ks (e ∙ sym es) h hx in absurd (ground arith)
            | inr free ↦ free
          ] in
        (
          ground (arith, col_same r, e),
          q.few r k,
          AllOutside-agree p.column m.col (p.column r) c (p.mates r) col_same e (q.apart r k).0,
          Once-AllLive (p.mates r) (gone (pairs rs) live)
              (AllApart-Once p.column (p.mates r) (q.apart r k).1)
              (λ x h. ground (arith, gone_lem rs live x, whole r x, apart x)),
          subst (λ z. Chain m.right r z (p.mates r)) (sym (right_same r k))
              (Chain-agree p.to_right m.right r (p.to_right r) (p.mates r) right_at
                (q.right_ring r k)),
          subst (λ z. Chain m.left r z (backwards (p.mates r))) (sym (left_same r k))
              (Chain-agree p.to_left m.left r (p.to_left r) (backwards (p.mates r)) left_at
                (q.left_ring r k)),
          pairs-AreRows rs o later,
        )
