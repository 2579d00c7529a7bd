-- ===== src/Solver/Rings.antt =====
-- sudoku.cc: rings of links, and a ring without one of its nodes.
use network_lib.Base.{
  ℕ, ◌≡◌, ◌≢◌, refl, sym, ap, subst, ◌∙◌, true, List, [], ◌∷◌, ◌++◌, ◌==◌, if◌then◌else◌, has,
  remove, backwards, arith, Bool-cases, inl, inr, append_assoc,
}
use network_lib.Solver.Loops.{Chain}

pub Chain-agree :
    (f g : ℕ → ℕ) (end p : ℕ) (xs : List ℕ)
    → ((x : ℕ) → has x xs ≡ true → f x ≡ g x)
    → Chain f end p xs
    → Chain g end p xs
Chain-agree f g end p [] same e = e
Chain-agree f g end p (x ∷ xs) same (e, ne, rest) = (
  e,
  ne,
  rw (← same x (ground arith))
      (Chain-agree f g end (f x) xs (λ y h. same y (ground (arith, h))) rest),
)

-- A node that leads to itself leads nowhere else.
pub Chain-stuck : (f : ℕ → ℕ) (end j : ℕ) (xs : List ℕ) → f j ≡ j → j ≢ end → ¬ Chain f end j xs
Chain-stuck f end j [] loop ne e = ne e
Chain-stuck f end j (x ∷ xs) loop ne (e, _, rest) =
    let next : f x ≡ j = cc in Chain-stuck f end j xs loop ne (rw (← next) rest)

pub Chain-moves :
    (f : ℕ → ℕ) (end p j : ℕ) (xs : List ℕ) → Chain f end p xs → has j xs ≡ true → j ≢ end → f j ≢ j
Chain-moves f end p j [] chain h ne loop = absurd (cc)
Chain-moves f end p j (x ∷ xs) (e, off, rest) h ne loop = elim (Bool-cases (x == j)) [
  | inl same ↦
      let next : f x ≡ j = ground arith in
      Chain-stuck f end j xs loop ne (subst (λ q. Chain f end q xs) next rest)
  | inr other ↦ Chain-moves f end (f x) j xs rest (ground arith) ne loop
]

-- The node that follows `p` if `j` is left out.
abbrev pub skip : (ℕ → ℕ) → ℕ → ℕ → ℕ
skip f j p = if p == j then f j else p

pub Chain-remove :
    (f g : ℕ → ℕ) (end j p : ℕ) (xs : List ℕ)
    → j ≢ end
    → f j ≢ j
    → ((x : ℕ) → has x xs ≡ true → x ≢ j → g x ≡ skip f j (f x))
    → Chain f end p xs
    → Chain g end (skip f j p) (remove j xs)
Chain-remove f g end j p [] ne loop same e = ground arith
Chain-remove f g end j p (x ∷ xs) ne loop same (e, off, rest) =
    let later : (y : ℕ) → has y xs ≡ true → y ≢ j → g y ≡ skip f j (f y) =
      λ y h k. same y (ground (arith, h)) k in
    let more = Chain-remove f g end j (f x) xs ne loop later rest in
    elim (Bool-cases (x == j)) [
      | inl gone ↦
          let from : skip f j (f x) ≡ skip f j p = ground arith in
          rw gone (subst (λ q. Chain g end q (remove j xs)) from more)
      | inr kept ↦
          let other : x ≢ j = ground arith in
          let here : skip f j p ≡ x = ground arith in
          let on = same x (ground arith) other in
          rw kept (here, off, subst (λ q. Chain g end q (remove j xs)) (sym on) more)
    ]

-- The links back, where `g` leads back from each node.
pub Chain-backwards :
    (f g : ℕ → ℕ) (end p q : ℕ) (xs done : List ℕ)
    → ((x : ℕ) → has x xs ≡ true → g (f x) ≡ x)
    → g p ≡ q
    → Chain f end p xs
    → Chain g end q done
    → Chain g end (g end) (backwards xs ++ done)
Chain-backwards f g end p q [] done back e c d = subst (λ r. Chain g end r done) (sym e ∙ ap g c) d
Chain-backwards f g end p q (x ∷ xs) done back e (at, ne, rest) d =
    rw (append_assoc (backwards xs) (x ∷ []) done) (
      Chain-backwards f g end (f x) x xs (x ∷ done) (λ y h. back y (ground (arith, h)))
        (back x (ground arith)) rest
        (refl, ne, subst (λ r. Chain g end r done) (sym e ∙ ap g at) d))

-- A ring with one node more at its end.
pub Chain-append :
    (f g : ℕ → ℕ) (end j p : ℕ) (xs : List ℕ)
    → ((x : ℕ) → has x xs ≡ true → g x ≡ (if f x == end then j else f x))
    → g j ≡ end
    → j ≢ end
    → Chain f end p xs
    → Chain g end (if p == end then j else p) (xs ++ j ∷ [])
Chain-append f g end j p [] at last ne e = (ground (arith, e), ne, last)
Chain-append f g end j p (x ∷ xs) at last ne (e, off, rest) = (
  ground arith,
  off,
  subst (λ q. Chain g end q (xs ++ j ∷ [])) (sym (at x (ground arith)))
      (Chain-append f g end j (f x) xs (λ y h. at y (ground (arith, h))) last ne rest),
)
