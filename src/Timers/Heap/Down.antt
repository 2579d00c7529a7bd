-- ===== src/Timers/Heap/Down.antt =====
-- TimerQueue.cc: DownHeap restores a heap in which one entry may stand too high.
use network_lib.Base.{
  ℕ, zero, suc, ◌+◌, ◌-◌, ◌*◌, ◌<◌, ◌≤◌, ◌≡◌, ◌≢◌, refl, Option, some, arith, length, ltb,
  Bool-cases, ◌⊎◌, inl, inr, ◌==◌, if◌then◌else◌,
}
use network_lib.Timers.{TimerQueue}
use network_lib.Timers.Heap.{parent, min_child, down_loop, down_heap}
use network_lib.Timers.Heap.Swap.{
  key, entry_at, Linked, Reordered-refl, load-entry_at, swap_heap-Linked,
}
use network_lib.Timers.Heap.Order.{Sifts, Sifts-trans}

-- Only the entry at `i` may expire after its children.
pub record DownReady (q : TimerQueue) (i : ℕ) : Type 0 where
  pub edges : (c : ℕ) → 0 < c → c < length q.heap → parent c ≢ i → key q (parent c) ≤ key q c
  pub bridge :
      (c : ℕ) → 0 < c → c < length q.heap → parent c ≡ i → 0 < i → key q (parent i) ≤ key q c

record IsMinChild (q : TimerQueue) (i m : ℕ) : Type 0 where
  inside : m < length q.heap
  above : i < m
  child : parent m ≡ i
  least : (c : ℕ) → 0 < c → c < length q.heap → parent c ≡ i → key q m ≤ key q c

children : (c i : ℕ) → 0 < c → parent c ≡ i → (c ≡ i * 2 + 1) ⊎ (c ≡ i * 2 + 1 + 1)
children c i p e = omega arith

min_child-IsMinChild :
    (q : TimerQueue) (i : ℕ)
    → i * 2 + 1 < length q.heap
    → (m : ℕ) × (min_child q (i * 2 + 1) ≡ some m) × IsMinChild q i m
unfolding min_child
min_child-IsMinChild q i h = elim (Bool-cases (i * 2 + 1 + 1 == length q.heap)) [
  | inl only ↦ (
    i * 2 + 1,
    rw only,
    record {
      inside = h;
      above = omega arith;
      child = omega arith;
      least = λ c p k e. ground arith;
    },
  )
  | inr both ↦
      let two : i * 2 + 1 + 1 < length q.heap = ground arith in
      rw (both, load-entry_at q (i * 2 + 1) h, load-entry_at q (i * 2 + 1 + 1) two)
        (elim (Bool-cases (ltb (key q (i * 2 + 1)) (key q (i * 2 + 1 + 1)))) [
          | inl left ↦ (
            i * 2 + 1,
            rw left,
            record {
              inside = h;
              above = omega arith;
              child = omega arith;
              least = λ c p k e. ground (arith, children c i p e);
            },
          )
          | inr right ↦ (
            i * 2 + 1 + 1,
            rw right,
            record {
              inside = two;
              above = omega arith;
              child = omega arith;
              least = λ c p k e. ground (arith, children c i p e);
            },
          )
        ])
]

sink-DownReady :
    (q r : TimerQueue) (i m : ℕ)
    → DownReady q i
    → IsMinChild q i m
    → key q m ≤ key q i
    → length r.heap ≡ length q.heap
    → ((c : ℕ)
        → entry_at r c
          ≡ (if m == c then entry_at q i else if i == c then entry_at q m else entry_at q c))
    → DownReady r m
sink-DownReady q r i m v s below size at = record {
  edges = λ c p h ne.
      ground
        (arith, at c, at (parent c), v.edges c, v.bridge m, s.least c, s.inside, s.above, s.child);
  bridge = λ c p h e z. ground (arith, at c, at (parent m), v.edges c, s.inside, s.above, s.child);
}

down_loop-Sifts :
    (k : ℕ) (removed : Option ℕ) (q : TimerQueue) (i : ℕ)
    → length q.heap - i < k
    → Linked removed q
    → DownReady q i
    → Sifts removed q (down_loop k q i)
unfolding down_loop
down_loop-Sifts zero removed q i f l v = absurd (omega arith)
down_loop-Sifts (suc k) removed q i f l v = elim (Bool-cases (ltb (i * 2 + 1) (length q.heap))) [
  | inr leaf ↦ rw leaf (q, refl, λ c p h. ground (arith, v.edges c), l, Reordered-refl q)
  | inl inner ↦
      let (m, e, s) = min_child-IsMinChild q i (ground arith) in
      let hi : i < length q.heap = omega (arith, s.inside, s.above) in
      rw (inner, e, load-entry_at q i hi, load-entry_at q m s.inside)
        (elim (Bool-cases (ltb (key q i) (key q m))) [
          | inl settled ↦
              rw settled
                (q, refl, λ c p h. ground (arith, v.edges c, s.least c), l, Reordered-refl q)
          | inr below ↦
              let (r, f', n, same, at) =
                swap_heap-Linked removed q i m l hi s.inside (omega (arith, s.above)) in
              rw (below, f')
                (Sifts-trans removed (down_loop k r m) same (
                  down_loop-Sifts k removed r m (omega (arith, same.size, s.above)) n
                    (sink-DownReady q r i m v s (ground arith) same.size at)))
        ])
]

-- On a heap whose entries and timers are linked, but for a timer that is being removed, and from an
-- entry that is the only one that may expire after its children, with these no earlier than its
-- parent, DownHeap ends, with the heap in order and the same timers, linked.
pub down_heap-Sifts :
    (removed : Option ℕ) (q : TimerQueue) (i : ℕ)
    → Linked removed q
    → DownReady q i
    → Sifts removed q (down_heap q i)
unfolding down_heap
down_heap-Sifts removed q i l v =
    down_loop-Sifts (suc (length q.heap)) removed q i (omega arith) l v
