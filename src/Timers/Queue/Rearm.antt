-- ===== src/Timers/Queue/Rearm.antt =====
-- TimerQueue.cc: reset sets the timerfd for the next expiration, and handleRead as a whole.
use network_lib.Base.{
  ℕ, ◌<◌, ◌≤◌, ◌≡◌, refl, sym, ap, ◌∙◌, true, false, Option, none, some, List, [], ◌∷◌, arith,
  length, ◌==◌, if◌then◌else◌, ltb, Option-cases, inl, inr, get_or,
}
use network_lib.Timers.{Timer, HeapEntry, TimerQueue}
use network_lib.Timers.Heap.Swap.{key, entry_at, timer_at, null_entry}
use network_lib.Timers.Queue.{
  reset, reset_all, next_expire, reset_timerfd, contains, run_all, handle_read,
}
use network_lib.Timers.Queue.Active.{
  active, IsSound, active-timer_at, active_entry, IsSound-fields, details?, alive_of_details?,
  key_root-le-active,
}
use network_lib.Timers.Queue.Expire.{Distinct, Expired, get_expired-Expired}
use network_lib.Timers.Queue.Cancel.{active-none-IsIdle}
use network_lib.Timers.Queue.Reset.{Renewed, reset_all-Renewed, AreIdle}

-- The expiration for which the timerfd is set: the first entry's, 0 for an empty heap.
abbrev pub next : TimerQueue → ℕ
next q = if length q.heap == 0 then 0 else key q 0

next_expire-next : (q : TimerQueue) → IsSound q → next_expire q q.heap ≡ some (next q)
unfolding next_expire
next_expire-next q s = go q.heap refl
  where
    go : (es : List HeapEntry) → q.heap ≡ es → next_expire q es ≡ some (next q)
    go [] e = ground (arith, ap length e)
    go (x ∷ xs) e =
        let h : 0 < length q.heap = omega (arith, ap length e) in
        let (t, alive, place, k) = s.linked.forward 0 h in
        let here : entry_at q 0 ≡ x = ap (λ es. get_or es 0 null_entry) e in
        ground (arith, h, here, alive, k)

-- The queue after `reset`, given the one in which the expired timers are renewed.
abbrev pub rearmed : TimerQueue → ℕ → TimerQueue
rearmed r settime_now = if ltb 0 (next r) then reset_timerfd r settime_now (next r) else r

reset-rearmed :
    (q r : TimerQueue) (now settime_now : ℕ) (ps : List ℕ)
    → reset_all q now ps ≡ some r
    → IsSound r
    → reset q ps now settime_now ≡ some (rearmed r settime_now)
unfolding reset
reset-rearmed q r now settime_now ps e s = ground (arith, e, next_expire-next r s)

active-next :
    (r : TimerQueue) (p d : ℕ) → IsSound r → active r p ≡ some d → (next r ≡ key r 0) × (next r ≤ d)
active-next r p d s a =
    let (i, inside, at, k) = active_entry r p d s a in
    (ground arith, ground (arith, key_root-le-active r p d s a))

-- In a queue in order and linked, for distinct timers that are alive and not in the heap, `reset`
-- succeeds. If a timer is then active, it sets the timerfd to fire no later than that one expires,
-- if every active timer's expiration is still to come when `fromNow` reads the clock. If the
-- timer's expiration is not still to come, a timerfd that was disarmed stays so although the timer
-- waits.
pub reset-armed :
    (q : TimerQueue) (now settime_now : ℕ) (ps : List ℕ)
    → IsSound q
    → Distinct ps
    → AreIdle q ps
    → (r : TimerQueue) × (reset q ps now settime_now ≡ some r)
      × ((p d : ℕ)
          → active r p ≡ some d
          → (((j x : ℕ) → active r j ≡ some x → settime_now < x)
              → (e : ℕ) × (r.armed ≡ some e) × (e ≤ d))
            × (d ≤ settime_now → q.armed ≡ none → r.armed ≡ none))
unfolding reset_timerfd
reset-armed q now settime_now ps s d w =
    let (r, e, m) = reset_all-Renewed q now ps s d w in
    (
      rearmed r settime_now,
      reset-rearmed q r now settime_now ps e m.sound,
      λ p x a'.
          let a : active r p ≡ some x = ground arith in
          let (n, k) = active-next r p x m.sound a in
          (
            λ later.
                let (i, inside, at, z) = active_entry r p x m.sound a in
                let there : active (rearmed r settime_now) (timer_at r 0) ≡ some (key r 0) =
                  ground (arith, active-timer_at r 0 m.sound (omega arith)) in
                let soon = later (timer_at r 0) (key r 0) there in
                (next r, ground (arith, soon, n), k),
            λ past unarmed. ground (arith, n, k, m.armed),
          ),
    )

-- What a timer's callback may do: it leaves the heap in order and linked, and does not touch the
-- timers that are just being expired. (Cancelling one of those only notes it.)
pub record Keeps (ps : List ℕ) (q r : TimerQueue) : Type 0 where
  pub sound : IsSound r
  pub idle : (j : ℕ) → contains ps j ≡ true → active r j ≡ active q j
  pub details : (j : ℕ) → contains ps j ≡ true → details? (r.timers j) ≡ details? (q.timers j)

AreIdle-Keeps : (ps : List ℕ) (q r : TimerQueue) → AreIdle q ps → Keeps ps q r → AreIdle r ps
AreIdle-Keeps ps q r w k j h =
    let (t, alive, idle) = w j h in
    let (u, there) = alive_of_details? (r.timers j) t (k.details j h ∙ ap details? alive) in
    let none_active : active r j ≡ none = ground (arith, k.idle j h, alive, idle) in
    (u, there, rw there at (active-none-IsIdle (r.timers j) none_active))

AreIdle-Expired :
    (q r : TimerQueue) (now : ℕ) (ps : List ℕ) → IsSound q → Expired q now ps r → AreIdle r ps
AreIdle-Expired q r now ps s x j h = elim (Option-cases (q.timers j)) [
  | inl dead ↦ absurd (ground (arith, x.due j))
  | inr (t, alive) ↦
      let (u, there) = alive_of_details? (r.timers j) t (x.details j ∙ ap details? alive) in
      let none_active : active r j ≡ none = ground (arith, x.left j, x.due j) in
      (u, there, rw there at (active-none-IsIdle (r.timers j) none_active))
]

callback_of_details? :
    (a b : Timer) → details? (some a) ≡ details? (some b) → a.callback ≡ b.callback
callback_of_details? a b e = ground (arith, e)

module _ (callback : ℕ → TimerQueue → Option TimerQueue) where
  -- For each of the timers, in order, the callback that it had in `q` runs, and leads from `s` to `t`.
  abbrev pub Runs : TimerQueue → List ℕ → TimerQueue → TimerQueue → Type 0
  Runs q [] s t = s ≡ t
  Runs q (p ∷ ps) s t =
      (timer : Timer) × (between : TimerQueue) × (q.timers p ≡ some timer)
      × (callback timer.callback s ≡ some between)
      × Runs q ps between t

module _ (callback : ℕ → TimerQueue → Option TimerQueue)
    (calm : (ps : List ℕ) (c : ℕ) (q : TimerQueue)
      → IsSound q
      → AreIdle q ps
      → (r : TimerQueue) × (callback c q ≡ some r) × Keeps ps q r) where
  -- The timers that are being expired still have the details that they have in `q`.
  abbrev Same : TimerQueue → List ℕ → TimerQueue → Type 0
  Same q ps s = (j : ℕ) → contains ps j ≡ true → details? (s.timers j) ≡ details? (q.timers j)

  run_all-AreIdle :
      (q : TimerQueue) (ps todo : List ℕ) (s : TimerQueue)
      → ((j : ℕ) → contains todo j ≡ true → contains ps j ≡ true)
      → IsSound s
      → AreIdle s ps
      → Same q ps s
      → (r : TimerQueue) × (run_all callback s todo ≡ some r)
        × Runs callback q todo s r
        × IsSound r
        × AreIdle r ps
  unfolding run_all contains
  run_all-AreIdle q ps [] s sub sound w same = (s, refl, refl, sound, w)
  run_all-AreIdle q ps (p ∷ todo) s sub sound w same =
      let inside = sub p (ground arith) in
      let (t, alive, idle) = w p inside in
      let (orig, there) =
        alive_of_details? (q.timers p) t (sym (same p inside) ∙ ap details? alive) in
      let called : orig.callback ≡ t.callback =
        callback_of_details? orig t
          (sym (ap details? there) ∙ (sym (same p inside) ∙ ap details? alive)) in
      let (r, e, k) = calm ps t.callback s sound w in
      let (u, f, runs, su, wu) =
        run_all-AreIdle q ps todo r (λ j h. sub j (ground arith)) k.sound (AreIdle-Keeps ps s r w k)
          (λ j h. k.details j h ∙ same j h) in
      (
        u,
        ground (arith, alive, e, f),
        (orig, r, there, ap (λ c. callback c s) called ∙ e, runs),
        su,
        wu,
      )

  -- On a queue in order and linked, with callbacks that complete, keep it so and leave the timers
  -- being expired as they are, the timerfd's handler completes. Exactly the due timers leave the heap,
  -- once each and the earliest first, and all others stay. Then the callback of each of these runs, in
  -- this order, from a queue that is marked as calling and has no cancelled timers; after that each
  -- of them is restarted or deleted, and the timerfd is set.
  pub handle_read-Renewed :
      (q : TimerQueue) (now settime_now : ℕ)
      → IsSound q
      → (expired : List ℕ) × (due called r : TimerQueue) × Expired
          (record q { armed = none })
          now
          expired
          due
        × Runs callback q expired
            (record due { calling_expired_timers = true; canceling_timers = [] })
            called
        × Renewed (record called { calling_expired_timers = false }) now expired r
        × (handle_read callback q now settime_now ≡ some (rearmed r settime_now))
  unfolding handle_read
  handle_read-Renewed q now settime_now s =
      let quiet : TimerQueue = record q { armed = none } in
      let sq : IsSound quiet =
        IsSound-fields q q.calling_expired_timers q.canceling_timers none s in
      let (expired, due, e, x) = get_expired-Expired quiet now sq in
      let calling : TimerQueue = record due {
        calling_expired_timers = true;
        canceling_timers = [];
      } in
      let (called, f, runs, sc, w) =
        run_all-AreIdle q expired expired calling (λ j h. h)
          (IsSound-fields due true [] due.armed x.sound)
          (AreIdle-Expired quiet due now expired sq x) (λ j h. x.details j) in
      let after : TimerQueue = record called { calling_expired_timers = false } in
      let sa : IsSound after =
        IsSound-fields called false called.canceling_timers called.armed sc in
      let (r, g, m) = reset_all-Renewed after now expired sa x.distinct w in
      (
        expired,
        due,
        called,
        r,
        x,
        runs,
        m,
        ground (arith, e, f, reset-rearmed after r now settime_now expired g m.sound),
      )
