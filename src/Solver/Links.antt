-- ===== src/Solver/Links.antt =====
-- sudoku.cc: a node that is unlinked from its column, and linked again.
use network_lib.Base.{ℕ, ◌<◌, ◌≡◌, refl, Bool, true, false, update, arith}
use network_lib.Solver.{Nodes, int_size, unlink, relink, put_up}

-- The columns of the nodes that are linked are closed double rings, and the sizes are ints.
pub record IsLinked (m : Nodes) (live : ℕ → Bool) : Type 0 where
  pub up_live : (x : ℕ) → live x ≡ true → live (m.up x) ≡ true
  pub down_live : (x : ℕ) → live x ≡ true → live (m.down x) ≡ true
  pub down_up : (x : ℕ) → live x ≡ true → m.down (m.up x) ≡ x
  pub up_down : (x : ℕ) → live x ≡ true → m.up (m.down x) ≡ x
  pub up_col : (x : ℕ) → live x ≡ true → m.col (m.up x) ≡ m.col x
  pub down_col : (x : ℕ) → live x ≡ true → m.col (m.down x) ≡ m.col x
  pub sized : (x : ℕ) → m.size x < int_size

-- The nodes that are left after one was unlinked.
abbrev pub without : (ℕ → Bool) → ℕ → ℕ → Bool
without live j = update live j false

pub Nodes_ext :
    (m n : Nodes)
    → ((x : ℕ) → m.left x ≡ n.left x)
    → ((x : ℕ) → m.right x ≡ n.right x)
    → ((x : ℕ) → m.up x ≡ n.up x)
    → ((x : ℕ) → m.down x ≡ n.down x)
    → ((x : ℕ) → m.col x ≡ n.col x)
    → ((x : ℕ) → m.name x ≡ n.name x)
    → ((x : ℕ) → m.size x ≡ n.size x)
    → m ≡ n
Nodes_ext m n l r u d c a s = λ i. record {
  left = λ x. l x i;
  right = λ x. r x i;
  up = λ x. u x i;
  down = λ x. d x i;
  col = λ x. c x i;
  name = λ x. a x i;
  size = λ x. s x i;
}

module _ (m : Nodes) (live : ℕ → Bool) (v : IsLinked m live) (j : ℕ) (h : live j ≡ true) where
  pub relink-unlink : relink j (unlink j m) ≡ m
  unfolding relink unlink
  relink-unlink =
      Nodes_ext (relink j (unlink j m)) m (λ x. refl) (λ x. refl)
        (λ x. ground (arith, v.down_up j h, v.up_down j h))
        (λ x. ground (arith, v.down_up j h, v.up_down j h)) (λ x. refl) (λ x. refl)
        (λ x. ground (arith, v.sized x))

  pub unlink-IsLinked : IsLinked (unlink j m) (without live j)
  unfolding unlink
  unlink-IsLinked = record {
    up_live = λ x k.
        ground (arith, v.down_up j h, v.up_down j h, v.up_live x, v.up_live j h, v.down_up x);
    down_live = λ x k. ground (
      arith,
      v.down_up j h,
      v.up_down j h,
      v.up_live j h,
      v.down_live j h,
      v.up_live x,
      v.down_live x,
      v.down_up x,
      v.up_down x,
    );
    down_up = λ x k. ground (
      arith,
      v.down_up j h,
      v.up_down j h,
      v.up_live j h,
      v.down_live j h,
      v.up_live x,
      v.down_live x,
      v.down_up x,
      v.up_down x,
      v.down_up (m.down j),
      v.up_down (m.up j),
    );
    up_down = λ x k. ground (
      arith,
      v.down_up j h,
      v.up_down j h,
      v.up_live j h,
      v.down_live j h,
      v.up_live x,
      v.down_live x,
      v.down_up x,
      v.up_down x,
      v.down_up (m.down j),
      v.up_down (m.up j),
    );
    up_col = λ x k. ground (
      arith,
      v.down_up j h,
      v.up_down j h,
      v.up_live j h,
      v.down_live j h,
      v.up_live x,
      v.down_live x,
      v.down_up x,
      v.up_down x,
      v.up_col x,
      v.up_col j h,
      v.down_col j h,
    );
    down_col = λ x k. ground (
      arith,
      v.down_up j h,
      v.up_down j h,
      v.up_live j h,
      v.down_live j h,
      v.up_live x,
      v.down_live x,
      v.down_up x,
      v.up_down x,
      v.down_col x,
      v.up_col j h,
      v.down_col j h,
    );
    sized = λ x. ground (arith, v.sized x);
  }

-- Putting a new node into a column links it, and takes nothing out of its ring: what was linked in a
-- matrix of doubly linked columns is linked in the new one.
pub put_up-IsLinked :
    (m : Nodes) (live : ℕ → Bool) (old p : ℕ)
    → IsLinked m live
    → live old ≡ true
    → m.col old ≡ old
    → live p ≡ false
    → IsLinked (put_up old p m) (update live p true)
unfolding put_up
put_up-IsLinked m live old p v h head new =
    let top = v.up_live old h in
    let a = v.down_up old h in
    let b = v.up_down old h in
    let e = v.up_col old h in
    record {
      up_live = λ x k. ground (arith, a, b, v.up_live x, top);
      down_live = λ x k. ground (arith, a, b, v.down_live x, top);
      down_up = λ x k. ground (arith, a, b, v.down_up x, v.up_live x, top);
      up_down = λ x k. ground (arith, a, b, v.up_down x, v.down_live x, top);
      up_col = λ x k. ground (arith, a, b, v.up_col x, v.up_live x, e, top);
      down_col = λ x k. ground (arith, a, b, v.down_col x, v.down_live x, e, top);
      sized = λ x. ground (arith, v.sized x);
    }
