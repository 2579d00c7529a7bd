-- ===== src/Timers/Queue/Active.antt =====
-- TimerQueue.cc: the queue as its client sees it, a set of timers, each with its expiration.
use network_lib.Base.{
  Bool, List, ℕ, ◌<◌, ◌≤◌, ◌≡◌, refl, sym, ap, ◌∙◌, Option, none, some, inl, inr, Option-cases,
  arith, length,
}
use network_lib.Timers.{Timer, TimerQueue}
use network_lib.Timers.Heap.Swap.{Linked, Reordered, placeless?, timer_at, key}
use network_lib.Timers.Heap.Order.{IsHeap, key_root-le}

-- When a timer will expire, if it is alive and stands in the heap.
abbrev pub deadline : Option Timer → Option ℕ
deadline none = none
deadline (some t) = elim t.heap_index [ none ↦ none | some i ↦ some t.expiration ]

abbrev pub active : TimerQueue → ℕ → Option ℕ
active q p = deadline (q.timers p)

deadline-placeless? : (o : Option Timer) → deadline (placeless? o) ≡ deadline o
deadline-placeless? none = refl
deadline-placeless? (some t) = ground arith

pub Reordered-active : {q r : TimerQueue} → Reordered q r → (p : ℕ) → active r p ≡ active q p
Reordered-active {q} {r} same p =
    sym (deadline-placeless? (r.timers p))
    ∙ ap deadline (same.timers p)
    ∙ deadline-placeless? (q.timers p)

-- What a timer is, without its place.
abbrev pub details? : Option Timer → Option Timer
details? none = none
details? (some t) = some (record t { heap_index = none })

details?-placeless? : (o : Option Timer) → details? (placeless? o) ≡ details? o
details?-placeless? none = refl
details?-placeless? (some t) = refl

pub Reordered-details? :
    {q r : TimerQueue} → Reordered q r → (p : ℕ) → details? (r.timers p) ≡ details? (q.timers p)
Reordered-details? {q} {r} same p =
    sym (details?-placeless? (r.timers p))
    ∙ ap details? (same.timers p)
    ∙ details?-placeless? (q.timers p)

-- A memory with the same details has a timer wherever the other has one.
pub alive_of_details? :
    (o : Option Timer) (t : Timer) → details? o ≡ details? (some t) → (u : Timer) × (o ≡ some u)
alive_of_details? none t e = absurd (ground arith)
alive_of_details? (some u) t e = (u, refl)

-- The heap is in order, and its entries and the timers point to each other.
pub record IsSound (q : TimerQueue) : Type 0 where
  pub ordered : IsHeap q
  pub linked : Linked none q

-- Each entry is of an active timer, at its expiration.
pub active-timer_at :
    (q : TimerQueue) (i : ℕ)
    → IsSound q
    → i < length q.heap
    → active q (timer_at q i) ≡ some (key q i)
active-timer_at q i s h = let (t, e, m, k) = s.linked.forward i h in ground arith

-- Each active timer has its entry.
pub active_entry :
    (q : TimerQueue) (p d : ℕ)
    → IsSound q
    → active q p ≡ some d
    → (i : ℕ) × (i < length q.heap) × (timer_at q i ≡ p) × (key q i ≡ d)
active_entry q p d s a = elim (Option-cases (q.timers p)) [
  | inl dead ↦ absurd (ground arith)
  | inr (t, alive) ↦ elim (Option-cases t.heap_index) [
    | inl idle ↦ absurd (ground arith)
    | inr (i, placed) ↦
        let (h, at) = s.linked.backward p i t (λ e. cc) alive placed in
        let (u, e, m, k) = s.linked.forward i h in (i, h, at, ground arith)
  ]
]

-- The first entry expires no later than any active timer.
pub key_root-le-active : (q : TimerQueue) (p d : ℕ) → IsSound q → active q p ≡ some d → key q 0 ≤ d
key_root-le-active q p d s a =
    let (i, h, at, k) = active_entry q p d s a in omega (arith, key_root-le q i s.ordered h)

-- Only the heap and the memory count.
pub IsSound-fields :
    (q : TimerQueue) (calling : Bool) (canceling : List ℕ) (armed : Option ℕ)
    → IsSound q
    → IsSound
        (record q { calling_expired_timers = calling; canceling_timers = canceling; armed = armed })
IsSound-fields q calling canceling armed s = record {
  ordered = s.ordered;
  linked = record {
    forward = s.linked.forward;
    backward = s.linked.backward;
    absent = s.linked.absent;
  };
}
