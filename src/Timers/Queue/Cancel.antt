-- ===== src/Timers/Queue/Cancel.antt =====
-- TimerQueue.cc: cancelInLoop.
use network_lib.Base.{
  ℕ, ◌≡◌, ◌≢◌, refl, ap, ◌∙◌, Option, none, some, [], ◌∷◌, ◌++◌, arith, ◌==◌, if◌then◌else◌, update,
  Bool-cases, Option-cases, inl, inr,
}
use network_lib.Timers.{Timer, TimerQueue}
use network_lib.Timers.Heap.Swap.{Linked, timer_at}
use network_lib.Timers.Queue.{cancel_in_loop, cancel_at, delete}
use network_lib.Timers.Queue.Active.{active, deadline, IsSound, details?, alive_of_details?}
use network_lib.Timers.Queue.Remove.{remove_timer-Removed}

-- Neither has a place in the heap.
abbrev pub IsIdle : Option Timer → Type 0
IsIdle none = Unit {0}
IsIdle (some t) = t.heap_index ≡ none

pub active-none-IsIdle : (o : Option Timer) → deadline o ≡ none → IsIdle o
active-none-IsIdle none e = tt
active-none-IsIdle (some t) e = elim (Option-cases t.heap_index) [
  | inl idle ↦ idle
  | inr (i, place) ↦ absurd (ground arith)
]

-- Writing over a timer that has no place in the heap leaves the heap linked.
pub touch-IsSound :
    (q : TimerQueue) (p : ℕ) (o : Option Timer)
    → IsSound q
    → IsIdle (q.timers p)
    → IsIdle o
    → IsSound (record q { timers = update q.timers p o })
touch-IsSound q p o s old new = record {
  ordered = s.ordered;
  linked = record {
    forward = λ c h.
        let (t, e, m, k) = s.linked.forward c h in
        let ne : timer_at q c ≢ p = λ z. ground (arith, ap q.timers z) in
        (t, ground (arith, ne), m, k);
    backward = λ x c t n e m.
        let ne : x ≢ p = λ z. ground arith in s.linked.backward x c t n (ground (arith, ne)) m;
    absent = λ c h e. cc;
  };
}

-- What became of a cancelled timer: one in the heap was deleted; one that had left it is noted for
-- `reset`, if that is under way, and otherwise kept.
abbrev pub Cancelled : TimerQueue → ℕ → TimerQueue → Option ℕ → Type 0
Cancelled q p r (some d) = (r.timers p ≡ none) × (r.canceling_timers ≡ q.canceling_timers)
Cancelled q p r none =
    (r.timers p ≡ q.timers p)
    × (r.canceling_timers
        ≡ (if q.calling_expired_timers then q.canceling_timers ++ p ∷ [] else q.canceling_timers))

cancel_active :
    (q : TimerQueue) (p d : ℕ) (t : Timer)
    → IsSound q
    → q.timers p ≡ some t
    → active q p ≡ some d
    → (r : TimerQueue) × (cancel_in_loop q p ≡ some r)
      × IsSound r
      × ((j : ℕ) → active r j ≡ (if j == p then none else active q j))
      × Cancelled q p r (some d)
unfolding cancel_in_loop cancel_at delete
cancel_active q p d t s alive a =
    let (r, e, m) = remove_timer-Removed q p d s a in
    let (u, there) = alive_of_details? (r.timers p) t (m.details p ∙ ap details? alive) in
    let idle : IsIdle (r.timers p) =
      active-none-IsIdle (r.timers p) (ground (arith, m.deadlines p)) in
    (
      record r { timers = update r.timers p none },
      ground (arith, e, there),
      touch-IsSound r p none m.sound idle tt,
      λ j. ground (arith, m.deadlines j),
      (ground arith, m.canceling),
    )

cancel_idle :
    (q : TimerQueue) (p : ℕ) (t : Timer)
    → IsSound q
    → q.timers p ≡ some t
    → active q p ≡ none
    → (r : TimerQueue) × (cancel_in_loop q p ≡ some r)
      × IsSound r
      × ((j : ℕ) → active r j ≡ (if j == p then none else active q j))
      × Cancelled q p r none
unfolding cancel_in_loop cancel_at
cancel_idle q p t s alive a =
    let idle : t.heap_index ≡ none = rw alive at (active-none-IsIdle (q.timers p) a) in
    elim (Bool-cases q.calling_expired_timers) [
      | inl calling ↦ (
        record q { canceling_timers = q.canceling_timers ++ p ∷ [] },
        ground arith,
        record { ordered = s.ordered; linked = noted },
        λ j. ground arith,
        (refl, ground arith),
      )
      | inr quiet ↦ (q, ground arith, s, λ j. ground arith, (refl, ground arith))
    ]
  where
    noted : Linked none (record q { canceling_timers = q.canceling_timers ++ p ∷ [] })
    noted = record {
      forward = s.linked.forward;
      backward = s.linked.backward;
      absent = s.linked.absent;
    }

-- In a queue in order and linked, cancelling a timer that is alive succeeds: it is active no more,
-- every other timer is as before, and the queue stays in order and linked. If the timer was active
-- it is deleted; if not, it is noted as cancelled while callbacks are running.
pub cancel_in_loop-Cancelled :
    (q : TimerQueue) (p : ℕ) (t : Timer)
    → IsSound q
    → q.timers p ≡ some t
    → (r : TimerQueue) × (cancel_in_loop q p ≡ some r)
      × IsSound r
      × ((j : ℕ) → active r j ≡ (if j == p then none else active q j))
      × Cancelled q p r (active q p)
cancel_in_loop-Cancelled q p t s alive = elim (Option-cases (active q p)) [
  | inl idle ↦ rw idle (cancel_idle q p t s alive idle)
  | inr (d, a) ↦ rw a (cancel_active q p d t s alive a)
]
