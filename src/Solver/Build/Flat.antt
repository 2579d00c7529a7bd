-- ===== src/Solver/Build/Flat.antt =====
-- sudoku.cc: the ring of the columns that the constructor makes: the nodes from 1 to `k`, in order.
use network_lib.Base.{
  ℕ, zero, suc, ◌+◌, ◌-◌, ◌<◌, ◌≤◌, ◌≡◌, refl, ap, subst, List, [], ◌∷◌, has, Once, length, ◌==◌,
  ltb, leb, if◌then◌else◌, arith, ◌&&◌,
}
use network_lib.Solver.{Nodes, int_size, put_left}
use network_lib.Solver.Loops.{Chain}
use network_lib.Solver.Grid.{Head}
use network_lib.Solver.Build.{fresh}

-- The nodes up to `k` before any row is there.
pub record Flat (k : ℕ) (m : Nodes) : Type 0 where
  pub right_is : (x : ℕ) → x ≤ k → m.right x ≡ (if x == k then 0 else suc x)
  pub left_is : (x : ℕ) → x ≤ k → m.left x ≡ (if x == 0 then k else x - 1)
  pub up_is : (x : ℕ) → x ≤ k → m.up x ≡ x
  pub down_is : (x : ℕ) → x ≤ k → m.down x ≡ x
  pub col_is : (x : ℕ) → x ≤ k → m.col x ≡ x
  pub sized : (x : ℕ) → m.size x < int_size

pub put_left-Flat :
    (k n : ℕ) (m : Nodes) → Flat k m → Flat (suc k) (put_left 0 (suc k) (fresh (suc k) (suc k) n m))
unfolding put_left
put_left-Flat k n m f = record {
  right_is = λ x l. ground (arith, f.right_is x, f.left_is 0 (omega arith));
  left_is = λ x l. ground (arith, f.left_is x, f.left_is 0 (omega arith));
  up_is = λ x l. ground (arith, f.up_is x);
  down_is = λ x l. ground (arith, f.down_is x);
  col_is = λ x l. ground (arith, f.col_is x);
  sized = λ x. ground (arith, f.sized x);
}

-- The numbers from `i` on, `k` of them
abbrev pub range : ℕ → ℕ → List ℕ
range i zero = []
range i (suc k) = i ∷ range (suc i) k

pub has-range : (x i k : ℕ) → has x (range i k) ≡ (leb i x && ltb x (i + k))
has-range x i zero = ground arith
has-range x i (suc k) = ground (arith, has-range x (suc i) k)

pub Once-range : (i k : ℕ) → Once (range i k)
Once-range i zero = tt
Once-range i (suc k) = (ground (arith, has-range i (suc i) k), Once-range (suc i) k)

pub length-range : (i k : ℕ) → length (range i k) ≡ k
length-range i zero = refl
length-range i (suc k) = ap suc (length-range (suc i) k)

module _ (k : ℕ) (left right : ℕ → ℕ)
    (r : (x : ℕ) → x ≤ k → right x ≡ (if x == k then 0 else suc x))
    (l : (x : ℕ) → x ≤ k → left x ≡ (if x == 0 then k else x - 1)) where
  range-Chain :
      (i j : ℕ) → 0 < i → i + j ≡ suc k → Chain right 0 (if i == suc k then 0 else i) (range i j)
  range-Chain i zero h e = ground arith
  range-Chain i (suc j) h e = (
    ground arith,
    λ z. omega (arith, z),
    subst (λ q. Chain right 0 q (range (suc i) j)) (ground (arith, r i (omega arith)))
        (range-Chain (suc i) j (omega arith) (omega arith)),
  )

  pub range-Head : Head 0 left right (range 1 k)
  range-Head = record {
    head_ring =
        subst (λ q. Chain right 0 q (range 1 k)) (ground (arith, r 0 (omega arith)))
          (range-Chain 1 k (omega arith) (omega arith));
    head_once = Once-range 1 k;
    root_out = ground (arith, has-range 0 1 k);
    left_right = λ x h. ground (arith, has-range x 1 k, r x, l (right x));
    right_left = λ x h. ground (arith, has-range x 1 k, l x, r (left x));
    left_in = λ x h. ground (arith, has-range x 1 k, l x, has-range (left x) 1 k);
    right_in = λ x h. ground (arith, has-range x 1 k, r x, has-range (right x) 1 k);
  }
