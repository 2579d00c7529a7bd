-- ===== src/Timers/Queue/Remove.antt =====
-- TimerQueue.cc: removeTimer.
use native.Mathlib.Decide.{ℕ_discrete}
use network_lib.Base.{
  ℕ, suc, ◌-◌, ◌<◌, ◌≡◌, ◌≢◌, refl, sym, ap, ◌∙◌, none, some, arith, length, update, ◌==◌,
  if◌then◌else◌, ◌&&◌, ltb, Bool-cases, inl, inr,
}
use network_lib.Timers.{Timer, TimerQueue}
use network_lib.Timers.Heap.{parent}
use network_lib.Timers.Heap.Swap.{
  Linked, Reordered-refl, Reordered-trans, timer_at, key, entry_at, load-entry_at, swap_heap-Linked,
}
use network_lib.Timers.Heap.Order.{Sifts}
use network_lib.Timers.Heap.Up.{up_heap-Sifts}
use network_lib.Timers.Heap.Down.{down_heap-Sifts}
use network_lib.Timers.Queue.{remove_timer, remove_index, remove_at, pop_back}
use network_lib.Timers.Queue.Active.{
  active, Reordered-active, IsSound, active_entry, details?, alive_of_details?, Reordered-details?,
}
use network_lib.Timers.Queue.Drop.{
  size-pop_back, entry_at-pop_back, pop_back-Linked, Reordered-pop_back, replaced-UpReady,
  replaced-DownReady,
}

module _ (q : TimerQueue) (i : ℕ) (s : IsSound q) (inside : i < length q.heap) where
  abbrev last : ℕ
  last = length q.heap - 1

  remove_last : i ≡ last → Sifts (some (timer_at q i)) (pop_back q) (remove_at q i)
  unfolding remove_at
  remove_last e = (
    pop_back q,
    ground arith,
    λ c z h.
        let lt : c < last = omega (arith, size-pop_back q (omega arith)) in
        ground (
          arith,
          entry_at-pop_back q (omega arith) c lt,
          entry_at-pop_back q (omega arith) (parent c) (omega arith),
          s.ordered c,
        ),
    pop_back-Linked q (omega arith) (timer_at q i) (ap (timer_at q) (sym e)) s.linked,
    Reordered-refl (pop_back q),
  )

  remove_inner : i ≢ last → Sifts (some (timer_at q i)) (pop_back q) (remove_at q i)
  unfolding remove_at
  remove_inner ne =
      let (r, e, l, same, at) = swap_heap-Linked none q i last s.linked inside (omega arith) ne in
      let some_there : 0 < length r.heap = omega (arith, same.size) in
      let lt : i < last = omega arith in
      let size : length (pop_back r).heap ≡ last =
        omega (arith, size-pop_back r some_there, same.size) in
      let here : entry_at (pop_back r) i ≡ entry_at q last =
        ground (arith, entry_at-pop_back r some_there i, at i, same.size) in
      let popped =
        pop_back-Linked r some_there (timer_at q i) (ground (arith, at last, same.size)) l in
      let others = λ (c : ℕ) (h : c < last) (z : c ≢ i).
        let seen : entry_at (pop_back r) c ≡ entry_at r c =
          entry_at-pop_back r some_there c (omega (arith, same.size)) in
        let kept : entry_at r c ≡ entry_at q c = ground (arith, at c) in seen ∙ kept in
      rw
        (
          e,
          load-entry_at (pop_back r) i (omega (arith, size)),
          load-entry_at (pop_back r) (parent i) (omega (arith, size)),
        )
        (elim (Bool-cases (ltb 0 i && ltb (key (pop_back r) i) (key (pop_back r) (parent i)))) [
          | inl rises ↦
              let (u, f, h, m, again) = up_heap-Sifts (some (timer_at q i)) (pop_back r) i popped (
                replaced-UpReady q (pop_back r) i s.ordered lt size here others (ground arith)
                  (ground arith)) in
              (
                u,
                ground (arith, f),
                h,
                m,
                Reordered-trans {s = u} (Reordered-pop_back q r (omega arith) same) again,
              )
          | inr sinks ↦
              let (u, f, h, m, again) =
                down_heap-Sifts (some (timer_at q i)) (pop_back r) i popped (
                  replaced-DownReady q (pop_back r) i s.ordered lt size here others
                    (λ pos. ground arith)) in
              (
                u,
                ground (arith, f),
                h,
                m,
                Reordered-trans {s = u} (Reordered-pop_back q r (omega arith) same) again,
              )
        ])

remove_at-Sifts :
    (q : TimerQueue) (i : ℕ)
    → IsSound q
    → i < length q.heap
    → Sifts (some (timer_at q i)) (pop_back q) (remove_at q i)
remove_at-Sifts q i s inside = elim (ℕ_discrete i (length q.heap - 1)) [
  | yes is_last ↦ remove_last q i s inside is_last
  | no before ↦ remove_inner q i s inside before
]

some_injective : (a b : ℕ) → some a ≡ some b → a ≡ b
some_injective a b e = cc

-- What removeTimer and the cancelling of a timer leave unchanged: everything but `p`'s place.
pub record Removed (q : TimerQueue) (p : ℕ) (r : TimerQueue) : Type 0 where
  pub sound : IsSound r
  pub deadlines : (j : ℕ) → active r j ≡ (if j == p then none else active q j)
  pub details : (j : ℕ) → details? (r.timers j) ≡ details? (q.timers j)
  pub size : suc (length r.heap) ≡ length q.heap
  pub calling : r.calling_expired_timers ≡ q.calling_expired_timers
  pub canceling : r.canceling_timers ≡ q.canceling_timers
  pub armed : r.armed ≡ q.armed

-- Taking the removed timer's place away links the heap fully again.
unlinked-Linked :
    (q : TimerQueue) (p : ℕ) (u : Timer)
    → q.timers p ≡ some u
    → Linked (some p) q
    → Linked none (record q { timers = update q.timers p (some (record u { heap_index = none })) })
unlinked-Linked q p u alive l = record {
  forward = λ c h.
      let (t, e, m, k) = l.forward c h in
      let ne : timer_at q c ≢ p = λ z. l.absent c h (ap some z) in (t, ground (arith, ne), m, k);
  backward = λ x c t n e m.
      let ne : x ≢ p = λ z. ground arith in
      let before : q.timers x ≡ some t = ground (arith, ne) in
      l.backward x c t (λ z. ne (some_injective x p z)) before m;
  absent = λ c h e. cc;
}

-- In a queue in order and linked, `removeTimer` of an active timer succeeds: it is active no more,
-- every other timer is as before, and the queue stays in order and linked.
pub remove_timer-Removed :
    (q : TimerQueue) (p d : ℕ)
    → IsSound q
    → active q p ≡ some d
    → (r : TimerQueue) × (remove_timer q p ≡ some r) × Removed q p r
unfolding remove_timer remove_index pop_back
remove_timer-Removed q p d s a =
    let (i, inside, at, k) = active_entry q p d s a in
    let (t, alive, place, w) = s.linked.forward i inside in
    let alive_p : q.timers p ≡ some t = ap q.timers (sym at) ∙ alive in
    let (r, e, h, l, same) = remove_at-Sifts q i s inside in
    let kept : details? (r.timers p) ≡ details? (some t) =
      Reordered-details? same p ∙ popped_timers p ∙ ap details? alive_p in
    let (u, alive_r) = alive_of_details? (r.timers p) t kept in
    let l' : Linked (some p) r = rw (ap some at) at l in
    (
      record r { timers = update r.timers p (some (record u { heap_index = none })) },
      ground (arith, alive_p, e, alive_r),
      record {
        sound = record { ordered = h; linked = unlinked-Linked r p u alive_r l' };
        deadlines = λ j. ground (arith, Reordered-active same j, popped_active j);
        details = λ j. ground (arith, Reordered-details? same j, popped_timers j, alive_r);
        size = omega (arith, same.size, size-pop_back q (omega arith));
        calling = same.calling ∙ refl;
        canceling = same.canceling;
        armed = same.armed;
      },
    )
  where
    popped_timers : (j : ℕ) → details? ((pop_back q).timers j) ≡ details? (q.timers j)
    popped_timers j = refl

    popped_active : (j : ℕ) → active (pop_back q) j ≡ active q j
    popped_active j = refl
