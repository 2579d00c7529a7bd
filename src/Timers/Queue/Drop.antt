-- ===== src/Timers/Queue/Drop.antt =====
-- TimerQueue.cc: the heap without its last entry, and with another entry in the place of one.
use network_lib.Base.{
  ℕ, ◌-◌, ◌<◌, ◌≤◌, ◌≡◌, ◌≢◌, Option, none, some, arith, length, length-take, get_or-take,
}
use network_lib.Timers.{TimerQueue}
use network_lib.Timers.Heap.{parent}
use network_lib.Timers.Heap.Swap.{Linked, Reordered, timer_at, key, entry_at, null_entry}
use network_lib.Timers.Heap.Order.{IsHeap}
use network_lib.Timers.Heap.Up.{UpReady}
use network_lib.Timers.Heap.Down.{DownReady}
use network_lib.Timers.Queue.{pop_back}

-- No timer stands at two positions.
pub timer_at_injective :
    (removed : Option ℕ) (q : TimerQueue) (i j : ℕ)
    → Linked removed q
    → i < length q.heap
    → j < length q.heap
    → timer_at q i ≡ timer_at q j
    → i ≡ j
timer_at_injective removed q i j l hi hj e =
    let (t, et, it, kt) = l.forward i hi in let (u, eu, ju, ku) = l.forward j hj in ground arith

-- The heap without its last entry.
module _ (q : TimerQueue) (some_there : 0 < length q.heap) where
  pub size-pop_back : length (pop_back q).heap ≡ length q.heap - 1
  unfolding pop_back
  size-pop_back = omega (arith, length-take (length q.heap - 1) q.heap)

  pub entry_at-pop_back : (c : ℕ) → c < length q.heap - 1 → entry_at (pop_back q) c ≡ entry_at q c
  unfolding pop_back
  entry_at-pop_back c h = get_or-take (length q.heap - 1) q.heap c null_entry h

  pub pop_back-Linked :
      (p : ℕ) → timer_at q (length q.heap - 1) ≡ p → Linked none q → Linked (some p) (pop_back q)
  unfolding pop_back
  pop_back-Linked p last l = record {
    forward = λ c h.
        let lt : c < length q.heap - 1 = omega (arith, size-pop_back) in
        let (t, e, m, k) = l.forward c (omega arith) in
        (t, ground (arith, entry_at-pop_back c lt), m, ground (arith, entry_at-pop_back c lt));
    backward = λ x c t n e m.
        let (h, k) = l.backward x c t (λ z. cc) e m in
        let lt : c < length q.heap - 1 = ground arith in
        (omega (arith, size-pop_back), ground (arith, entry_at-pop_back c lt));
    absent = λ c h e.
        let lt : c < length q.heap - 1 = omega (arith, size-pop_back) in
        let same : timer_at q c ≡ timer_at q (length q.heap - 1) =
          ground (arith, entry_at-pop_back c lt) in
        omega (
          arith,
          timer_at_injective none q c (length q.heap - 1) l (omega arith) (omega arith) same,
        );
  }

pub Reordered-pop_back :
    (q r : TimerQueue) → 0 < length q.heap → Reordered q r → Reordered (pop_back q) (pop_back r)
unfolding pop_back
Reordered-pop_back q r h same = record {
  size = omega (arith, size-pop_back q h, size-pop_back r (omega (arith, same.size)), same.size);
  timers = same.timers;
  calling = same.calling;
  canceling = same.canceling;
  armed = same.armed;
}

-- `r` is `q` with the entry at `i` replaced by the last one, and without the last.
module _ (q r : TimerQueue) (i : ℕ) (h : IsHeap q) (inside : i < length q.heap - 1)
    (size : length r.heap ≡ length q.heap - 1)
    (here : entry_at r i ≡ entry_at q (length q.heap - 1))
    (others : (c : ℕ) → c < length q.heap - 1 → c ≢ i → entry_at r c ≡ entry_at q c) where
  pub replaced-UpReady : 0 < i → key r i < key r (parent i) → UpReady r i
  replaced-UpReady pos below = record {
    inside = omega (arith, size);
    edges = λ c z k ne.
        ground (arith, size, here, others c, others (parent c), others (parent i), h c, h i);
    bridge = λ c z k e y. ground (arith, size, others c, others (parent i), h c, h i);
  }

  pub replaced-DownReady : (0 < i → key r (parent i) ≤ key r i) → DownReady r i
  replaced-DownReady above = record {
    edges = λ c z k ne. ground (arith, size, here, others c, others (parent c), h c, above);
    bridge = λ c z k e y. ground (arith, size, others c, others (parent i), h c, h i);
  }
