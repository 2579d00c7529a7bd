-- ===== src/LoopPool/RoundRobin.antt =====
-- EventLoopThreadPool.cc: getNextLoop takes the loops in turn.
use network_lib.Base.{
  if◌then◌else◌, ℕ, zero, suc, ◌+◌, ◌%◌, ◌<◌, ◌≡◌, refl, sym, ap, ◌∙◌, Option, some, List, [], ◌∷◌,
  arith, length, get_or, get_elem?-get_or, ◌>>=◌, leb, Bool-cases, inl, inr,
}
use native.Mathlib.Nat.{mod-add-mod, mod-lt, mod-eq_of_lt}
use network_lib.LoopPool.{LoopPool, get_next_loop}

-- The answers to so many calls in a row.
abbrev pub choices : ℕ → LoopPool → Option (List ℕ)
choices zero p = some []
choices (suc n) p = get_next_loop p >>= λ r. choices n r.1 >>= λ rest. some (r.0 ∷ rest)

-- The loops from a number on, in turn.
abbrev pub in_turn : ℕ → List ℕ → ℕ → List ℕ
in_turn zero loops i = []
in_turn (suc n) loops i = get_or loops (i % length loops) 0 ∷ in_turn n loops (suc i)

suc_mod : (i n : ℕ) → suc i % n ≡ (i % n + 1) % n
suc_mod i n = let e : suc i ≡ i + 1 = omega arith in ap (λ k. k % n) e ∙ sym (mod-add-mod i n 1)

next_mod : (i n : ℕ) → 0 < n → i % n + 1 < n → suc i % n ≡ i % n + 1
next_mod i n h k = suc_mod i n ∙ mod-eq_of_lt k

next_mod_end : (i n : ℕ) → 0 < n → i % n + 1 ≡ n → suc i % n ≡ 0
next_mod_end i n h k = suc_mod i n ∙ ap (λ m. m % n) k ∙ grind arith

next_choice :
    (p : LoopPool) (i : ℕ)
    → p.next ≡ i % length p.loops
    → 0 < length p.loops
    → get_next_loop p
      ≡ some (get_or p.loops (i % length p.loops) 0, record p { next = suc i % length p.loops })
unfolding get_next_loop
next_choice p i e h =
    let n = length p.loops in
    let inside : i % n < n = mod-lt i h in
    elim (Bool-cases (leb n (i % n + 1))) [
      | inl wraps ↦
          let turn : suc i % n ≡ 0 = next_mod_end i n h (ground arith) in
          ground (arith, e, turn, get_elem?-get_or p.loops (i % n) 0 inside)
      | inr goes ↦
          let turn : suc i % n ≡ i % n + 1 = next_mod i n h (ground arith) in
          ground (arith, e, turn, get_elem?-get_or p.loops (i % n) 0 inside)
    ]

-- In a pool with loops of its own, whose next one is at a given place in the turn, the calls of
-- getNextLoop return the loops one after another from there, and begin again at the end.
pub choices-in_turn :
    (n : ℕ) (p : LoopPool) (i : ℕ)
    → p.next ≡ i % length p.loops
    → 0 < length p.loops
    → choices n p ≡ some (in_turn n p.loops i)
choices-in_turn zero p i e h = refl
choices-in_turn (suc n) p i e h = rw (
  next_choice p i e h,
  choices-in_turn n (record p { next = suc i % length p.loops }) (suc i) refl h,
)

-- The next loop is one that the pool has.
abbrev pub HasNext : LoopPool → Type 0
HasNext p = 0 < length p.loops → p.next < length p.loops

-- A loop of a pool, or the base loop where the pool has none.
abbrev pub IsChoice : LoopPool → ℕ → Type 0
IsChoice p l =
    (length p.loops ≡ 0 → l ≡ p.base_loop) × (0 < length p.loops → get_or p.loops p.next 0 ≡ l)

pub get_next_loop-HasNext :
    (p : LoopPool)
    → HasNext p
    → (l : ℕ) × (r : LoopPool) × (get_next_loop p ≡ some (l, r)) × HasNext r × IsChoice p l
unfolding get_next_loop
get_next_loop-HasNext p h = elim (Bool-cases (leb (length p.loops) 0)) [
  | inl empty ↦ (p.base_loop, p, ground arith, h, (λ e. refl, λ k. absurd (ground arith)))
  | inr filled ↦
      let inside : 0 < length p.loops = ground arith in
      let e = get_elem?-get_or p.loops p.next 0 (h inside) in
      let after = if leb (length p.loops) (p.next + 1) then 0 else p.next + 1 in
      (
        get_or p.loops p.next 0,
        record p { next = after },
        ground (arith, e),
        λ k. ground arith,
        (λ z. absurd (omega arith), λ k. refl),
      )
]
