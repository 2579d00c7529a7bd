-- ===== src/Sudoku/Lines.antt =====
-- server_basic.cc: the lines of a stream of requests, and the first line end of a part of it.
use network_lib.Base.{
  ℕ, zero, suc, ◌+◌, ◌≤◌, ◌<◌, ◌≡◌, refl, some, List, [], ◌∷◌, ◌++◌, length, take, drop, arith,
  get_elem?, Lacks, inl, inr, Option-cases,
}
use network_lib.Buffer.Search.{CrlfAt}
use network_lib.Sudoku.{cells, at_colon, parts}

-- A request that the server takes: with a puzzle of 81 bytes, and short enough to be waited for.
pub record IsRequest (r : List ℕ) : Type 0 where
  pub lacks : Lacks 0x0d r
  pub sized : length (parts r).1 ≡ cells
  pub short : length r ≤ 99

abbrev pub AreRequests : List (List ℕ) → Type 0
AreRequests [] = Unit {0}
AreRequests (r ∷ rs) = IsRequest r × AreRequests rs

-- The requests, each with its line end.
abbrev pub join : List (List ℕ) → List ℕ
join [] = []
join (r ∷ rs) = r ++ 0x0d ∷ 0x0a ∷ join rs

at_colon-le : (r id puzzle : List ℕ) → at_colon r ≡ some (id, puzzle) → length puzzle ≤ length r
unfolding at_colon
at_colon-le [] id puzzle h = absurd (ground arith)
at_colon-le (x ∷ xs) id puzzle h = elim (Option-cases (at_colon xs)) [
  | inl missing ↦ ground arith
  | inr ((id', puzzle'), there) ↦ ground (arith, at_colon-le xs id' puzzle' there)
]

pub cells-le-length : (r : List ℕ) → IsRequest r → cells ≤ length r
unfolding parts
cells-le-length r q = elim (Option-cases (at_colon r)) [
  | inl missing ↦ ground (arith, q.sized)
  | inr ((id, puzzle), there) ↦ ground (arith, q.sized, at_colon-le r id puzzle there)
]

-- A part `c` of a stream that starts with the text `r`.
pub take-front :
    (c future r more : List ℕ)
    → c ++ future ≡ r ++ more
    → length r ≤ length c
    → (take (length r) c ≡ r) × (drop (length r) c ++ future ≡ more)
take-front c future [] more e h = (refl, e)
take-front [] future (y ∷ r) more e h = absurd (omega arith)
take-front (x ∷ c) future (y ∷ r) more e h =
    let first : x ≡ y = cc in
    let (front, back) = take-front c future r more (cc) (omega arith) in
    (ground (arith, first, front), back)

-- No carriage return stands before the end of a text that has none.
pub length-le :
    (c future r more : List ℕ) (j : ℕ)
    → c ++ future ≡ r ++ more
    → Lacks 0x0d r
    → get_elem? c j ≡ some 0x0d
    → length r ≤ j
length-le c future [] more j e l h = omega arith
length-le [] future (y ∷ r) more j e l h = absurd (cc)
length-le (x ∷ c) future (y ∷ r) more zero e l h = absurd (l.0 (cc))
length-le (x ∷ c) future (y ∷ r) more (suc j) e l h =
    omega (arith, length-le c future r more j (cc) l.1 h)

pub CrlfAt-length :
    (c future r more : List ℕ)
    → c ++ future ≡ r ++ 0x0d ∷ 0x0a ∷ more
    → length r + 2 ≤ length c
    → CrlfAt c (length r)
CrlfAt-length [] future r more e h = absurd (omega arith)
CrlfAt-length (x ∷ []) future r more e h = absurd (omega arith)
CrlfAt-length (x ∷ x' ∷ c) future [] more e h = (cc, cc)
CrlfAt-length (x ∷ x' ∷ c) future (y ∷ r) more e h =
    CrlfAt-length (x' ∷ c) future r more (cc) (omega arith)

pub lt-length : (xs : List ℕ) (j x : ℕ) → get_elem? xs j ≡ some x → j < length xs
lt-length [] j x h = absurd (cc)
lt-length (y ∷ ys) zero x h = omega arith
lt-length (y ∷ ys) (suc j) x h = omega (arith, lt-length ys j x h)
