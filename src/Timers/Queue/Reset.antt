-- ===== src/Timers/Queue/Reset.antt =====
-- TimerQueue.cc: reset, which restarts the repeating timers and deletes the others.
use network_lib.Base.{
  ℕ, ◌≡◌, refl, ap, ◌∙◌, true, false, not, ◌&&◌, Option, none, some, List, [], ◌∷◌, arith,
  if◌then◌else◌, update, Bool-cases, inl, inr,
}
use network_lib.Timers.{Timer, TimerQueue, restart}
use network_lib.Timers.Queue.{delete, contains, reset_one, reset_all}
use network_lib.Timers.Queue.Active.{
  active, IsSound, details?, Reordered-details?, alive_of_details?,
}
use network_lib.Timers.Queue.Insert.{insert-active}
use network_lib.Timers.Queue.Expire.{Distinct}
use network_lib.Timers.Queue.Cancel.{IsIdle, touch-IsSound, active-none-IsIdle}

-- What `reset` makes of an expired timer: a repeating one that was not cancelled runs again, any
-- other is deleted.
abbrev pub renewed : List ℕ → ℕ → ℕ → Option Timer → Option Timer
renewed canceling now p none = none
renewed canceling now p (some t) =
    if t.repeat && not (contains canceling p) then some (restart t now) else none

abbrev pub expiration? : Option Timer → Option ℕ
expiration? none = none
expiration? (some t) = some t.expiration

-- The timers `ps` were reset at `now`, and nothing else changed.
pub record Renewed (q : TimerQueue) (now : ℕ) (ps : List ℕ) (r : TimerQueue) : Type 0 where
  pub sound : IsSound r
  pub deadlines :
      (j : ℕ)
      → active r j ≡ (
          if contains ps j
          then expiration? (renewed q.canceling_timers now j (q.timers j))
          else active q j)
  pub details :
      (j : ℕ)
      → details? (r.timers j) ≡ (
          if contains ps j
          then details? (renewed q.canceling_timers now j (q.timers j))
          else details? (q.timers j))
  pub calling : r.calling_expired_timers ≡ q.calling_expired_timers
  pub canceling : r.canceling_timers ≡ q.canceling_timers
  pub armed : r.armed ≡ q.armed

module _ (q : TimerQueue) (now p : ℕ) (t : Timer) (s : IsSound q) (alive : q.timers p ≡ some t)
    (idle : t.heap_index ≡ none) where
  idle? : IsIdle (q.timers p)
  idle? = rw alive idle

  restarted-idle : (restart t now).heap_index ≡ none
  unfolding restart
  restarted-idle = ground arith

  reset_again :
      (t.repeat && not (contains q.canceling_timers p)) ≡ true
      → (r : TimerQueue) × (reset_one q now p ≡ some r) × Renewed q now (p ∷ []) r
  unfolding reset_one contains
  reset_again again =
      let ready = touch-IsSound q p (some (restart t now)) s idle? restarted-idle in
      let q' : TimerQueue = record q { timers = update q.timers p (some (restart t now)) } in
      let (changed, r, e, sound, at, early, same) =
        insert-active q' p (restart t now) ready (ground arith) restarted-idle in
      (
        r,
        ground (arith, alive, again, e),
        record {
          sound = sound;
          deadlines = λ j. ground (arith, at j, alive, again);
          details = λ j. ground (arith, Reordered-details? same j, alive, again);
          calling = same.calling;
          canceling = same.canceling;
          armed = same.armed;
        },
      )

  reset_gone :
      (t.repeat && not (contains q.canceling_timers p)) ≡ false
      → (r : TimerQueue) × (reset_one q now p ≡ some r) × Renewed q now (p ∷ []) r
  unfolding reset_one contains delete
  reset_gone gone = (
    record q { timers = update q.timers p none },
    ground (arith, alive, gone),
    record {
      sound = touch-IsSound q p none s idle? tt;
      deadlines = λ j. ground (arith, alive, gone);
      details = λ j. ground (arith, alive, gone);
      calling = refl;
      canceling = refl;
      armed = refl;
    },
  )

  pub reset_one-Renewed : (r : TimerQueue) × (reset_one q now p ≡ some r) × Renewed q now (p ∷ []) r
  reset_one-Renewed = elim (Bool-cases (t.repeat && not (contains q.canceling_timers p))) [
    | inl again ↦ reset_again again
    | inr over ↦ reset_gone over
  ]

renewed-details? :
    (canceling : List ℕ) (now j : ℕ) (o u : Option Timer)
    → details? o ≡ details? u
    → (details? (renewed canceling now j o) ≡ details? (renewed canceling now j u))
      × (expiration? (renewed canceling now j o) ≡ expiration? (renewed canceling now j u))
unfolding restart
renewed-details? c now j none none e = (refl, refl)
renewed-details? c now j none (some u) e = absurd (ground arith)
renewed-details? c now j (some t) none e = absurd (ground arith)
renewed-details? c now j (some t) (some u) e = (ground arith, ground arith)

-- Each of the timers is alive and has no place in the heap.
abbrev pub AreIdle : TimerQueue → List ℕ → Type 0
AreIdle q ps =
    (j : ℕ) → contains ps j ≡ true → (t : Timer) × (q.timers j ≡ some t) × (t.heap_index ≡ none)

Renewed-nil : (q : TimerQueue) (now : ℕ) → IsSound q → Renewed q now [] q
unfolding contains
Renewed-nil q now s = record {
  sound = s;
  deadlines = λ j. refl;
  details = λ j. refl;
  calling = refl;
  canceling = refl;
  armed = refl;
}

module _ (q r : TimerQueue) (now p : ℕ) (ps : List ℕ) (d : contains ps p ≡ false)
    (m : Renewed q now (p ∷ []) r) where
  still : (j : ℕ) → contains ps j ≡ true → details? (r.timers j) ≡ details? (q.timers j)
  unfolding contains
  still j h = ground (arith, m.details j)

  AreIdle-tail : AreIdle q (p ∷ ps) → AreIdle r ps
  unfolding contains
  AreIdle-tail w j h =
      let (t, alive, idle) = w j (ground arith) in
      let (u, there) = alive_of_details? (r.timers j) t (still j h ∙ ap details? alive) in
      let none_active : active r j ≡ none = ground (arith, m.deadlines j, alive, idle) in
      (u, there, rw there at (active-none-IsIdle (r.timers j) none_active))

  Renewed-cons : {u : TimerQueue} → Renewed r now ps u → Renewed q now (p ∷ ps) u
  unfolding contains
  Renewed-cons {u} n = record {
    sound = n.sound;
    deadlines = λ j. ground (
      arith,
      n.deadlines j,
      m.deadlines j,
      m.canceling,
      still j,
      renewed-details? q.canceling_timers now j (r.timers j) (q.timers j),
    );
    details = λ j. ground (
      arith,
      n.details j,
      m.details j,
      m.canceling,
      still j,
      renewed-details? q.canceling_timers now j (r.timers j) (q.timers j),
    );
    calling = n.calling ∙ m.calling;
    canceling = n.canceling ∙ m.canceling;
    armed = n.armed ∙ m.armed;
  }

contains_head : (x : ℕ) (xs : List ℕ) → contains (x ∷ xs) x ≡ true
unfolding contains
contains_head x xs = ground arith

-- In a queue in order and linked, the loop of `reset` succeeds on distinct timers that are alive
-- and not in the heap: those that repeat and were not cancelled in the meantime are active again,
-- an interval after `now`, the others are deleted, and no other timer changes.
pub reset_all-Renewed :
    (q : TimerQueue) (now : ℕ) (ps : List ℕ)
    → IsSound q
    → Distinct ps
    → AreIdle q ps
    → (r : TimerQueue) × (reset_all q now ps ≡ some r) × Renewed q now ps r
unfolding reset_all
reset_all-Renewed q now [] s d w = (q, refl, Renewed-nil q now s)
reset_all-Renewed q now (p ∷ ps) s d w =
    let (t, alive, idle) = w p (contains_head p ps) in
    let (r, e, m) = reset_one-Renewed q now p t s alive idle in
    let (u, f, n) = reset_all-Renewed r now ps m.sound d.1 (AreIdle-tail q r now p ps d.0 m w) in
    (u, rw e f, Renewed-cons q r now p ps d.0 m n)
