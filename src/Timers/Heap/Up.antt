-- ===== src/Timers/Heap/Up.antt =====
-- TimerQueue.cc: UpHeap restores a heap in which one entry may stand too low.
use network_lib.Base.{
  ℕ, zero, suc, ◌<◌, ◌≤◌, ◌≡◌, ◌≢◌, refl, Option, arith, length, ltb, Bool-cases, inl, inr, ◌==◌,
  if◌then◌else◌,
}
use network_lib.Timers.{TimerQueue}
use network_lib.Timers.Heap.{parent, up_loop, up_heap}
use network_lib.Timers.Heap.Swap.{
  key, entry_at, Linked, Reordered-refl, load-entry_at, swap_heap-Linked,
}
use network_lib.Timers.Heap.Order.{Sifts, Sifts-trans}

-- Only the entry at `i` may expire before its parent.
pub record UpReady (q : TimerQueue) (i : ℕ) : Type 0 where
  pub inside : i < length q.heap
  pub edges : (c : ℕ) → 0 < c → c < length q.heap → c ≢ i → key q (parent c) ≤ key q c
  pub bridge :
      (c : ℕ) → 0 < c → c < length q.heap → parent c ≡ i → 0 < i → key q (parent i) ≤ key q c

rise-UpReady :
    (q r : TimerQueue) (i : ℕ)
    → UpReady q i
    → 0 < i
    → key q i < key q (parent i)
    → length r.heap ≡ length q.heap
    → ((c : ℕ)
        → entry_at r c ≡ (
            if parent i == c
            then entry_at q i
            else if i == c
            then entry_at q (parent i)
            else entry_at q c))
    → UpReady r (parent i)
rise-UpReady q r i v pos below size at = record {
  inside = omega (arith, v.inside);
  edges = λ c p h ne.
      ground (
        arith,
        at c,
        at (parent c),
        v.edges c,
        v.bridge c,
        v.edges i,
        v.edges (parent i),
        v.inside,
      );
  bridge = λ c p h e z.
      ground
        (arith, at c, at (parent (parent i)), v.edges c, v.edges (parent i), v.bridge c, v.inside);
}

up_loop-Sifts :
    (k : ℕ) (removed : Option ℕ) (q : TimerQueue) (i : ℕ)
    → i < k
    → Linked removed q
    → UpReady q i
    → Sifts removed q (up_loop k q i)
unfolding up_loop
up_loop-Sifts zero removed q i f l v = absurd (omega arith)
up_loop-Sifts (suc k) removed q i f l v = elim (Bool-cases (ltb 0 i)) [
  | inr root ↦ rw root (q, refl, λ c p h. v.edges c p h (ground arith), l, Reordered-refl q)
  | inl pos ↦
      rw (pos, load-entry_at q i v.inside, load-entry_at q (parent i) (omega (arith, v.inside)))
        (elim (Bool-cases (ltb (key q i) (key q (parent i)))) [
          | inr settled ↦
              rw settled (q, refl, λ c p h. ground (arith, v.edges c), l, Reordered-refl q)
          | inl below ↦
              let (r, e, m, same, at) =
                swap_heap-Linked removed q i (parent i) l v.inside (omega (arith, v.inside))
                  (ground arith) in
              rw (below, e)
                (Sifts-trans removed (up_loop k r (parent i)) same (
                  up_loop-Sifts k removed r (parent i) (ground arith) m
                    (rise-UpReady q r i v (ground arith) (ground arith) same.size at)))
        ])
]

-- On a heap whose entries and timers are linked, but for a timer that is being removed, and from an
-- entry inside it that is the only one that may expire before its parent, with its children no earlier
-- than that parent, UpHeap ends, with the heap in order and the same timers, linked.
pub up_heap-Sifts :
    (removed : Option ℕ) (q : TimerQueue) (i : ℕ)
    → Linked removed q
    → UpReady q i
    → Sifts removed q (up_heap q i)
unfolding up_heap
up_heap-Sifts removed q i l v = up_loop-Sifts (suc i) removed q i (omega arith) l v
