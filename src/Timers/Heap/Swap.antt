-- ===== src/Timers/Heap/Swap.antt =====
-- TimerQueue.cc: the links between heap entries and timers, and SwapHeap, which keeps them.
use network_lib.Base.{
  Bool-cases, inl, inr, ℕ, ◌<◌, ◌≡◌, ◌≢◌, refl, ◌∙◌, Option, none, some, List, arith, length,
  get_or, set, length-set, get_or-set, get_elem?-get_or, ◌==◌, if◌then◌else◌, update,
}
use network_lib.Timers.{Timer, HeapEntry, TimerQueue, load}
use network_lib.Timers.Heap.{swap_heap}

abbrev pub null_entry : HeapEntry
null_entry = record { expiration_time = 0; timer = 0 }

-- `heap_[i]`, for a position inside the heap.
abbrev pub entry_at : TimerQueue → ℕ → HeapEntry
entry_at q i = get_or q.heap i null_entry

abbrev pub timer_at : TimerQueue → ℕ → ℕ
timer_at q i = (entry_at q i).timer

abbrev pub key : TimerQueue → ℕ → ℕ
key q i = (entry_at q i).expiration_time

-- The entry at position `i` is of a timer that is alive, knows `i` and expires at the entry's time.
abbrev pub PointsBack : TimerQueue → ℕ → Type 0
PointsBack q i =
    (t : Timer) × (q.timers (timer_at q i) ≡ some t)
    × (t.heap_index ≡ some i)
    × (t.expiration ≡ key q i)

-- Entries point to timers and timers back to their entries, but for a timer `removed` that was just
-- taken off the heap.
pub record Linked (removed : Option ℕ) (q : TimerQueue) : Type 0 where
  pub forward : (i : ℕ) → i < length q.heap → PointsBack q i
  pub backward :
      (p i : ℕ) (t : Timer)
      → some p ≢ removed
      → q.timers p ≡ some t
      → t.heap_index ≡ some i
      → (i < length q.heap) × (timer_at q i ≡ p)
  pub absent : (i : ℕ) → i < length q.heap → some (timer_at q i) ≢ removed

-- What a timer is, apart from where it stands in the heap.
abbrev pub placeless : Timer → Timer
placeless t = record t { heap_index = elim t.heap_index [ none ↦ none | some i ↦ some 0 ] }

abbrev pub placeless? : Option Timer → Option Timer
placeless? none = none
placeless? (some t) = some (placeless t)

-- Only the order of the heap and the timers' positions differ.
pub record Reordered (q r : TimerQueue) : Type 0 where
  pub size : length r.heap ≡ length q.heap
  pub timers : (p : ℕ) → placeless? (r.timers p) ≡ placeless? (q.timers p)
  pub calling : r.calling_expired_timers ≡ q.calling_expired_timers
  pub canceling : r.canceling_timers ≡ q.canceling_timers
  pub armed : r.armed ≡ q.armed

pub Reordered-refl : (q : TimerQueue) → Reordered q q
Reordered-refl q = record {
  size = refl;
  timers = λ p. refl;
  calling = refl;
  canceling = refl;
  armed = refl;
}

pub Reordered-trans : {q r s : TimerQueue} → Reordered q r → Reordered r s → Reordered q s
Reordered-trans a b = record {
  size = b.size ∙ a.size;
  timers = λ p. b.timers p ∙ a.timers p;
  calling = b.calling ∙ a.calling;
  canceling = b.canceling ∙ a.canceling;
  armed = b.armed ∙ a.armed;
}

pub load-entry_at : (q : TimerQueue) (i : ℕ) → i < length q.heap → load q i ≡ some (entry_at q i)
load-entry_at q i h = get_elem?-get_or q.heap i null_entry h

module _ (q : TimerQueue) (i j : ℕ) (hi : i < length q.heap) (hj : j < length q.heap) where
  abbrev swapped_heap : List HeapEntry
  swapped_heap = set (set q.heap i (entry_at q j)) j (entry_at q i)

  length-swapped_heap : length swapped_heap ≡ length q.heap
  length-swapped_heap =
      length-set (set q.heap i (entry_at q j)) j (entry_at q i) ∙ length-set q.heap i (entry_at q j)

  entry_at-swapped_heap :
      (c : ℕ)
      → get_or swapped_heap c null_entry
        ≡ (if j == c then entry_at q i else if i == c then entry_at q j else entry_at q c)
  entry_at-swapped_heap c = ground (
    arith,
    length-set q.heap i (entry_at q j),
    get_or-set (set q.heap i (entry_at q j)) j c (entry_at q i) null_entry,
    get_or-set q.heap i c (entry_at q j) null_entry,
  )

  -- What SwapHeap leaves, given the two timers.
  abbrev swapped : Timer → Timer → TimerQueue
  swapped a b = record q {
    heap = swapped_heap;
    timers =
        update (update q.timers (timer_at q j) (some (record b { heap_index = some i })))
          (timer_at q i) (some (record a { heap_index = some j }));
  }

  module _ (a b : Timer) (ne : i ≢ j) (at_i : q.timers (timer_at q i) ≡ some a)
      (at_j : q.timers (timer_at q j) ≡ some b) (ia : a.heap_index ≡ some i)
      (jb : b.heap_index ≡ some j) where
    apart : timer_at q i ≢ timer_at q j
    apart e = ground arith

    swap_heap-swapped : swap_heap q i j ≡ some (swapped a b)
    unfolding swap_heap
    swap_heap-swapped =
        rw (load-entry_at q i hi, load-entry_at q j hj)
          (ground (
            arith,
            apart,
            length-swapped_heap,
            entry_at-swapped_heap i,
            entry_at-swapped_heap j,
            get_elem?-get_or swapped_heap i null_entry,
            get_elem?-get_or swapped_heap j null_entry,
          ))

    swapped-Reordered : Reordered q (swapped a b)
    swapped-Reordered = record {
      size = length-swapped_heap;
      timers = λ p. ground (arith, apart);
      calling = refl;
      canceling = refl;
      armed = refl;
    }

    swapped-forward :
        a.expiration ≡ key q i
        → b.expiration ≡ key q j
        → (c : ℕ) → PointsBack q c
        → PointsBack (swapped a b) c
    swapped-forward ta tb c (t, e, m, k) =
        let seen = entry_at-swapped_heap c in
        elim (Bool-cases (j == c)) [
          | inl at_end ↦ (
            record a { heap_index = some j },
            ground (arith, seen),
            ground arith,
            ground (arith, seen),
          )
          | inr other ↦ elim (Bool-cases (i == c)) [
            | inl at_start ↦ (
              record b { heap_index = some i },
              ground (arith, seen, apart),
              ground arith,
              ground (arith, seen),
            )
            | inr elsewhere ↦ (t, ground (arith, seen), m, ground (arith, seen))
          ]
        ]

    swapped-backward :
        (p c : ℕ) (t : Timer)
        → ((u : Timer)
            → q.timers p ≡ some u
            → u.heap_index ≡ some c
            → (c < length q.heap) × (timer_at q c ≡ p))
        → (swapped a b).timers p ≡ some t
        → t.heap_index ≡ some c
        → (c < length q.heap) × (timer_at (swapped a b) c ≡ p)
    swapped-backward p c t old e m =
        let seen = entry_at-swapped_heap c in
        elim (Bool-cases (p == timer_at q i)) [
          | inl first ↦ (ground arith, ground (arith, seen))
          | inr other ↦ elim (Bool-cases (p == timer_at q j)) [
            | inl second ↦ (ground arith, ground (arith, seen))
            | inr third ↦
                let before : q.timers p ≡ some t = ground arith in
                let (h, k) = old t before m in (h, ground (arith, seen))
          ]
        ]

-- SwapHeap at two positions of the heap exchanges their entries and keeps the links.
pub swap_heap-Linked :
    (removed : Option ℕ) (q : TimerQueue) (i j : ℕ)
    → Linked removed q
    → i < length q.heap
    → j < length q.heap
    → i ≢ j
    → (r : TimerQueue) × (swap_heap q i j ≡ some r)
      × Linked removed r
      × Reordered q r
      × ((c : ℕ)
          → entry_at r c
            ≡ (if j == c then entry_at q i else if i == c then entry_at q j else entry_at q c))
swap_heap-Linked removed q i j l hi hj ne =
    let (a, ea, ia, ka) = l.forward i hi in
    let (b, eb, jb, kb) = l.forward j hj in
    let size = length-swapped_heap q i j hi hj in
    (
      swapped q i j hi hj a b,
      swap_heap-swapped q i j hi hj a b ne ea eb ia jb,
      record {
        forward = λ c h.
            swapped-forward q i j hi hj a b ne ea eb ia jb ka kb c
              (l.forward c (omega (arith, size)));
        backward = λ p c t n e m.
            let (h, k) =
              swapped-backward q i j hi hj a b ne ea eb ia jb p c t (λ u. l.backward p c u n) e m in
            (omega (arith, size), k);
        absent = λ c h. ground (
          arith,
          entry_at-swapped_heap q i j hi hj c,
          l.absent i hi,
          l.absent j hj,
          l.absent c,
          size,
        );
      },
      swapped-Reordered q i j hi hj a b ne ea eb ia jb,
      entry_at-swapped_heap q i j hi hj,
    )
