-- ===== src/Solver/Build/Vertical.antt =====
-- sudoku.cc: the rings of the columns' rows while the constructor adds nodes.
use network_lib.Base.{
  ℕ, suc, ◌+◌, ◌<◌, ◌≤◌, ◌≡◌, ◌≢◌, sym, ◌∙◌, subst, Bool, true, List, [], ◌∷◌, ◌++◌, has,
  has-append, Once, Once-append, update, length, length-append, ◌==◌, ltb, if◌then◌else◌, arith,
  Bool-cases, inl, inr, ◌&&◌,
}
use network_lib.Solver.{Nodes, put_up}
use network_lib.Solver.Links.{IsLinked, put_up-IsLinked}
use network_lib.Solver.Loops.{Chain}
use network_lib.Solver.Rings.{Chain-agree, Chain-append}
use network_lib.Solver.Build.{fresh}
use network_lib.Solver.Build.Flat.{Flat}

-- The nodes that are linked up and down: the columns and the rows.
abbrev pub placed : ℕ → ℕ → Bool
placed cur x = ltb 0 x && ltb x cur

-- The columns are the nodes from 1 to `k`, and the nodes from `k + 1` to `cur - 1` are in the rings.
pub record Vertical (k cur : ℕ) (m : Nodes) (rows : ℕ → List ℕ) : Type 0 where
  pub above : k < cur
  pub linked : IsLinked m (placed cur)
  pub col_is : (c : ℕ) → c ≤ k → m.col c ≡ c
  pub col_in : (x : ℕ) → k < x → x < cur → (0 < m.col x) × (m.col x ≤ k)
  pub ring : (c : ℕ) → 0 < c → c ≤ k → Chain m.down c (m.down c) (rows c)
  pub once : (c : ℕ) → 0 < c → c ≤ k → Once (rows c)
  pub members : (c x : ℕ) → 0 < c → c ≤ k → has x (rows c) ≡ (ltb k x && ltb x cur && m.col x == c)
  pub short : (c : ℕ) → 0 < c → c ≤ k → length (rows c) + suc k ≤ cur

pub Flat-Vertical : (k : ℕ) (m : Nodes) → Flat k m → Vertical k (suc k) m (λ c. [])
Flat-Vertical k m f = record {
  above = omega arith;
  linked = record {
    up_live = λ x h. ground (arith, f.up_is x);
    down_live = λ x h. ground (arith, f.down_is x);
    down_up = λ x h. ground (arith, f.up_is x, f.down_is x);
    up_down = λ x h. ground (arith, f.up_is x, f.down_is x);
    up_col = λ x h. ground (arith, f.up_is x);
    down_col = λ x h. ground (arith, f.down_is x);
    sized = f.sized;
  };
  col_is = f.col_is;
  col_in = λ x h l. absurd (omega arith);
  ring = λ c h l. f.down_is c l;
  once = λ c h l. tt;
  members = λ c x h l. ground arith;
  short = λ c h l. omega arith;
}

IsLinked-agree : (m : Nodes) (a b : ℕ → Bool) → ((x : ℕ) → a x ≡ b x) → IsLinked m a → IsLinked m b
IsLinked-agree m a b e l = record {
  up_live = λ x h. sym (e (m.up x)) ∙ l.up_live x (e x ∙ h);
  down_live = λ x h. sym (e (m.down x)) ∙ l.down_live x (e x ∙ h);
  down_up = λ x h. l.down_up x (e x ∙ h);
  up_down = λ x h. l.up_down x (e x ∙ h);
  up_col = λ x h. l.up_col x (e x ∙ h);
  down_col = λ x h. l.down_col x (e x ∙ h);
  sized = l.sized;
}

module _ (k cur : ℕ) (m : Nodes) (rows : ℕ → List ℕ) (v : Vertical k cur m rows) (c n : ℕ)
    (pos : 0 < c) (low : c ≤ k) where
  abbrev cleared : Nodes
  cleared = fresh cur c n m

  abbrev added : Nodes
  added = put_up c cur cleared

  abbrev pub more : ℕ → List ℕ
  more = update rows c (rows c ++ cur ∷ [])

  cleared-IsLinked : IsLinked cleared (placed cur)
  cleared-IsLinked =
      let l = v.linked in
      record {
        up_live = λ x h. ground (arith, l.up_live x);
        down_live = λ x h. ground (arith, l.down_live x);
        down_up = λ x h. ground (arith, l.up_live x, l.down_up x);
        up_down = λ x h. ground (arith, l.down_live x, l.up_down x);
        up_col = λ x h. ground (arith, l.up_live x, l.up_col x);
        down_col = λ x h. ground (arith, l.down_live x, l.down_col x);
        sized = λ x. ground (arith, l.sized x);
      }

  added-IsLinked : IsLinked added (placed (suc cur))
  added-IsLinked =
      let above = v.above in
      IsLinked-agree added (update (placed cur) cur true) (placed (suc cur))
        (λ x. ground (arith, above))
        (put_up-IsLinked cleared (placed cur) c cur cleared-IsLinked (ground (arith, above))
          (ground (arith, above, v.col_is c low)) (ground arith))

  -- The links down of the column itself, and of the others.
  added-down :
      (x : ℕ) → placed cur x ≡ true → added.down x ≡ (if m.down x == c then cur else m.down x)
  unfolding put_up
  added-down x h =
      let l = v.linked in
      let above = v.above in
      let here : placed cur c ≡ true = ground (arith, above) in
      ground (arith, above, here, l.up_down x h, l.down_up c here, l.up_live c here)

  added-last : added.down cur ≡ c
  unfolding put_up
  added-last = let above = v.above in ground (arith, above, v.linked.up_live c)

  added-col : (x : ℕ) → added.col x ≡ (if x == cur then c else m.col x)
  unfolding put_up
  added-col x = ground arith

  more_ring : (d : ℕ) → 0 < d → d ≤ k → Chain added.down d (added.down d) (more d)
  more_ring d pd ld = elim (Bool-cases (d == c)) [
    | inl own ↦
        let e : d ≡ c = ground arith in
        rw own (
          subst (λ z. Chain added.down z (added.down z) (rows c ++ cur ∷ [])) (sym e)
            (subst (λ q. Chain added.down c q (rows c ++ cur ∷ []))
              (sym (added-down c (ground (arith, v.above))))
              (Chain-append m.down added.down c cur (m.down c) (rows c)
                (λ x hx. added-down x (ground (arith, v.members c x pos low))) added-last
                (λ same. omega (arith, v.above, same)) (v.ring c pos low))))
    | inr other ↦
        let ne : (x : ℕ) → placed cur x ≡ true → m.col x ≡ d → m.down x ≢ c =
          λ x h e same. absurd (ground (arith, v.linked.down_col x h, v.col_is c low, same)) in
        let at : (x : ℕ) → placed cur x ≡ true → m.col x ≡ d → m.down x ≡ added.down x =
          λ x h e. ground (arith, added-down x h, ne x h e) in
        let top = at d (ground (arith, v.above)) (v.col_is d ld) in
        rw other (
          subst (λ q. Chain added.down d q (rows d)) top
            (Chain-agree m.down added.down d (m.down d) (rows d)
              (λ x hx.
                at x (ground (arith, v.members d x pd ld)) (ground (arith, v.members d x pd ld)))
              (v.ring d pd ld)))
  ]

  -- A node more in the column.
  pub put_up-Vertical : Vertical k (suc cur) added more
  put_up-Vertical = record {
    above = omega (arith, v.above);
    linked = added-IsLinked;
    col_is = λ d l. ground (arith, v.above, added-col d, v.col_is d l);
    col_in = λ x h l. ground (arith, added-col x, v.col_in x);
    ring = more_ring;
    once = λ d h l. elim (Bool-cases (d == c)) [
      | inl own ↦
          rw own
            (Once-append (rows c) cur (v.once c pos low) (ground (arith, v.members c cur pos low)))
      | inr other ↦ rw other (v.once d h l)
    ];
    members = λ d x h l. ground (
      arith,
      v.above,
      added-col x,
      v.members d x h l,
      v.members c x pos low,
      has-append x (rows c) (cur ∷ []),
    );
    short = λ d h l.
        ground (arith, v.short d h l, v.short c pos low, length-append (rows c) (cur ∷ []));
  }
