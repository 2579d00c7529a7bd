-- ===== src/Timers/Tests.antt =====
-- TimerQueue.cc: the operations on queues of two timers.
use network_lib.Base.{
  ℕ, zero, suc, ◌<◌, ◌≤◌, ◌≡◌, refl, Bool, true, false, Option, none, some, List, [], ◌∷◌, ◌==◌,
  if◌then◌else◌, arith, update,
}
use network_lib.Timers.{Timer, TimerQueue}
use network_lib.Timers.Heap.{up_heap, down_heap}
use network_lib.Timers.Heap.Swap.{Linked, PointsBack, Reordered}
use network_lib.Timers.Heap.Order.{Sifts}
use network_lib.Timers.Heap.Up.{UpReady, up_heap-Sifts}
use network_lib.Timers.Heap.Down.{DownReady, down_heap-Sifts}
use network_lib.Timers.Queue.{
  insert, earlier_than_first, remove_timer, cancel_in_loop, get_expired, reset, handle_read,
  contains,
}
use network_lib.Timers.Queue.Active.{IsSound, IsSound-fields, active}
use network_lib.Timers.Queue.Insert.{pushed, insert-active}
use network_lib.Timers.Queue.Remove.{Removed, remove_timer-Removed}
use network_lib.Timers.Queue.Cancel.{Cancelled, cancel_in_loop-Cancelled}
use network_lib.Timers.Queue.Expire.{Expired, get_expired-Expired}
use network_lib.Timers.Queue.Reset.{AreIdle, Renewed}
use network_lib.Timers.Queue.Rearm.{Runs, Keeps, rearmed, reset-armed, handle_read-Renewed}

abbrev repeating : Timer
repeating = record {
  callback = 0;
  expiration = 5;
  interval = 2;
  repeat = true;
  sequence = 1;
  heap_index = some 0;
}

abbrev once : Timer
once = record {
  callback = 1;
  expiration = 2;
  interval = 0;
  repeat = false;
  sequence = 2;
  heap_index = none;
}

-- Timer 1 waits, and timer 3 is not yet in the heap.
abbrev waiting : TimerQueue
waiting = record {
  heap = record { expiration_time = 5; timer = 1 } ∷ [];
  timers = update (update (λ p. none) 1 (some repeating)) 3 (some once);
  calling_expired_timers = false;
  canceling_timers = [];
  armed = none;
}

waiting-PointsBack : (i : ℕ) → i < 1 → PointsBack waiting i
waiting-PointsBack zero h = (repeating, refl, refl, refl)
waiting-PointsBack (suc i) h = absurd (omega arith)

waiting-IsSound : IsSound waiting
waiting-IsSound = record {
  ordered = λ c h k. absurd (omega arith);
  linked = record {
    forward = waiting-PointsBack;
    backward = λ p i t h e k. ground arith;
    absent = λ i h e. absurd (ground arith);
  };
}

waiting-AreIdle : AreIdle waiting (3 ∷ [])
unfolding contains
waiting-AreIdle j h = (once, ground arith, refl)

-- Both timers are in the heap, the later one first.
abbrev tilted : TimerQueue
tilted = record {
  heap = record { expiration_time = 5; timer = 1 } ∷ record { expiration_time = 2; timer = 3 } ∷ [];
  timers =
      update (update (λ p. none) 1 (some repeating)) 3 (some (record once { heap_index = some 1 }));
  calling_expired_timers = false;
  canceling_timers = [];
  armed = none;
}

tilted-PointsBack : (i : ℕ) → i < 2 → PointsBack tilted i
tilted-PointsBack zero h = (repeating, refl, refl, refl)
tilted-PointsBack (suc zero) h = (record once { heap_index = some 1 }, refl, refl, refl)
tilted-PointsBack (suc (suc i)) h = absurd (omega arith)

tilted-Linked : Linked none tilted
tilted-Linked = record {
  forward = tilted-PointsBack;
  backward = λ p i t h e k. ground arith;
  absent = λ i h e. absurd (ground arith);
}

tilted-UpReady : UpReady tilted 1
tilted-UpReady = record {
  inside = omega arith;
  edges = λ c h k e. absurd (omega arith);
  bridge = λ c h k e i. absurd (omega arith);
}

tilted-DownReady : DownReady tilted 0
tilted-DownReady = record {
  edges = λ c h k e. absurd (omega arith);
  bridge = λ c h k e i. absurd (omega arith);
}

up_heap-Sifts_example : Sifts none tilted (up_heap tilted 1)
up_heap-Sifts_example = up_heap-Sifts none tilted 1 tilted-Linked tilted-UpReady

down_heap-Sifts_example : Sifts none tilted (down_heap tilted 0)
down_heap-Sifts_example = down_heap-Sifts none tilted 0 tilted-Linked tilted-DownReady

insert-active_example :
    (changed : Bool) × (r : TimerQueue) × (insert waiting 3 ≡ some (changed, r))
    × IsSound r
    × ((j : ℕ) → active r j ≡ (if j == 3 then some 2 else active waiting j))
    × (changed ≡ earlier_than_first waiting.heap 2)
    × Reordered (pushed waiting 3 once) r
insert-active_example = insert-active waiting 3 once waiting-IsSound refl refl

remove_timer-Removed_example :
    (r : TimerQueue) × (remove_timer waiting 1 ≡ some r) × Removed waiting 1 r
remove_timer-Removed_example = remove_timer-Removed waiting 1 5 waiting-IsSound refl

cancel_in_loop-Cancelled_example :
    (r : TimerQueue) × (cancel_in_loop waiting 1 ≡ some r)
    × IsSound r
    × ((j : ℕ) → active r j ≡ (if j == 1 then none else active waiting j))
    × Cancelled waiting 1 r (some 5)
cancel_in_loop-Cancelled_example = cancel_in_loop-Cancelled waiting 1 repeating waiting-IsSound refl

get_expired-Expired_example :
    (expired : List ℕ) × (r : TimerQueue) × (get_expired waiting 6 ≡ some (expired, r))
    × Expired waiting 6 expired r
get_expired-Expired_example = get_expired-Expired waiting 6 waiting-IsSound

-- Timer 1 expires at 5, and the clock reads 9 when the timerfd is set.
reset-armed_example :
    (r : TimerQueue) × (reset waiting (3 ∷ []) 4 9 ≡ some r)
    × ((p d : ℕ)
        → active r p ≡ some d
        → (((j x : ℕ) → active r j ≡ some x → 9 < x) → (e : ℕ) × (r.armed ≡ some e) × (e ≤ d))
          × (d ≤ 9 → waiting.armed ≡ none → r.armed ≡ none))
unfolding contains
reset-armed_example = reset-armed waiting 4 9 (3 ∷ []) waiting-IsSound (refl, tt) waiting-AreIdle

-- A callback that sets the timerfd, as adding an earlier timer does.
abbrev sets : ℕ → TimerQueue → Option TimerQueue
sets c q = some (record q { armed = some 9 })

sets-Keeps :
    (ps : List ℕ) (c : ℕ) (q : TimerQueue)
    → IsSound q
    → AreIdle q ps
    → (r : TimerQueue) × (sets c q ≡ some r) × Keeps ps q r
sets-Keeps ps c q s w = (
  record q { armed = some 9 },
  refl,
  record {
    sound = IsSound-fields q q.calling_expired_timers q.canceling_timers (some 9) s;
    idle = λ j h. refl;
    details = λ j h. refl;
  },
)

handle_read-Renewed_example :
    (expired : List ℕ) × (due called r : TimerQueue) × Expired
      (record waiting { armed = none })
      6
      expired
      due
    × Runs sets waiting expired
        (record due { calling_expired_timers = true; canceling_timers = [] })
        called
    × Renewed (record called { calling_expired_timers = false }) 6 expired r
    × (handle_read sets waiting 6 7 ≡ some (rearmed r 7))
handle_read-Renewed_example = handle_read-Renewed sets sets-Keeps waiting 6 7 waiting-IsSound
