-- ===== src/Timers/Queue.antt =====
-- lotus_project/lotus/net/TimerQueue.cc: adding, cancelling and expiring timers. Each reading of the
-- clock, the result of reading it once more in `fromNow` among them, is an argument, and so is what
-- a timer's callback does to the queue.
pub mod Active
pub mod Insert
pub mod Drop
pub mod Remove
pub mod Expire
pub mod Cancel
pub mod Reset
pub mod Rearm
use network_lib.Base.{
  ℕ, zero, suc, ◌+◌, ◌-◌, ◌/◌, Bool, true, false, Option, none, some, List, [], ◌∷◌, ◌++◌, length,
  take, ltb, leb, ◌==◌, ◌&&◌, not, if◌then◌else◌, ◌>>=◌, update,
}
use network_lib.Timers.{Timer, HeapEntry, TimerQueue, new_timer, restart, load, deref, store_index}
use network_lib.Timers.Heap.{parent, swap_heap, up_heap, down_heap}

-- `fromNow` and timerfd_settime: a difference of zero disarms the timer, and a negative one is
-- refused with EINVAL, which is only logged.
pub reset_timerfd : TimerQueue → ℕ → ℕ → TimerQueue
reset_timerfd q now expiration =
    if ltb expiration now
    then q
    else if expiration == now
    then record q { armed = none }
    else record q { armed = some expiration }

pub earlier_than_first : List HeapEntry → ℕ → Bool
earlier_than_first [] when = true
earlier_than_first (e ∷ es) when = ltb when e.expiration_time

-- Whether the new timer is the earliest, and the queue with it.
pub insert : TimerQueue → ℕ → Option (Bool × TimerQueue)
insert q p = do
  t ← deref q p
  let earliest_changed = earlier_than_first q.heap t.expiration
  marked ← store_index q p (some (length q.heap))
  u ← deref marked p
  let entry : HeapEntry = record { expiration_time = u.expiration; timer = p }
  let pushed = record marked { heap = q.heap ++ entry ∷ [] }
  r ← up_heap pushed (length pushed.heap - 1)
  some (earliest_changed, r)

pub pop_back : TimerQueue → TimerQueue
pop_back q = record q { heap = take (length q.heap - 1) q.heap }

-- The heap's part of `removeTimer`, at a position inside the heap.
pub remove_at : TimerQueue → ℕ → Option TimerQueue
remove_at q index =
    let inner : Option TimerQueue = do
      swapped ← swap_heap q index (length q.heap - 1)
      let popped = pop_back swapped
      here ← load popped index
      above ← load popped (parent index)
      if ltb 0 index && ltb here.expiration_time above.expiration_time
          then up_heap popped index
          else down_heap popped index
    in if index == length q.heap - 1 then some (pop_back q) else inner

-- An index of -1 becomes the largest `size_t`, which is outside.
pub remove_index : TimerQueue → Option ℕ → Option TimerQueue
remove_index q none = some q
remove_index q (some index) =
    let inside = remove_at q index in if ltb index (length q.heap) then inside else some q

pub remove_timer : TimerQueue → ℕ → Option TimerQueue
remove_timer q p = do t ← deref q p; r ← remove_index q t.heap_index; store_index r p none

-- `delete timer`: deleting what is not alive is a fault.
pub delete : TimerQueue → ℕ → Option TimerQueue
delete q p = do t ← deref q p; some (record q { timers = update q.timers p none })

pub add_timer_in_loop : TimerQueue → ℕ → ℕ → Option TimerQueue
add_timer_in_loop q p now = do
  (earliest_changed, r) ← insert q p
  t ← deref r p
  some (if earliest_changed then reset_timerfd r now t.expiration else r)

-- `addTimer`, called in the loop's thread: the new Timer is at `p`. The TimerId's pointer is `p`, and
-- its sequence and the static counter are returned.
unfoldable pub add_timer : TimerQueue → ℕ → ℕ → ℕ → ℕ → ℕ → ℕ → Option (ℕ × ℕ × TimerQueue)
add_timer q p callback when interval count now = do
  let (timer, next_count) = new_timer callback when interval count
  r ← add_timer_in_loop (record q { timers = update q.timers p (some timer) }) p now
  some (timer.sequence, next_count, r)

pub cancel_at : TimerQueue → ℕ → Option ℕ → Option TimerQueue
cancel_at q p (some index) = remove_timer q p >>= λ r. delete r p
cancel_at q p none = some (
    if q.calling_expired_timers
    then record q { canceling_timers = q.canceling_timers ++ p ∷ [] }
    else q)

-- The `sequence_` of the TimerId is not looked at.
pub cancel_in_loop : TimerQueue → ℕ → Option TimerQueue
cancel_in_loop q p = do t ← deref q p; cancel_at q p t.heap_index

-- The `while` of `getExpired`: each round takes one entry off the heap.
pub expire_loop : ℕ → TimerQueue → ℕ → List ℕ → Option (List ℕ × TimerQueue)
expire_loop zero q now expired = none
expire_loop (suc k) q now expired = elim q.heap [
  | [] ↦ some (expired, q)
  | e ∷ es ↦
      let rest = remove_timer q e.timer >>= λ r. expire_loop k r now (expired ++ e.timer ∷ []) in
      if leb e.expiration_time now then rest else some (expired, q)
]

pub get_expired : TimerQueue → ℕ → Option (List ℕ × TimerQueue)
get_expired q now = expire_loop (suc (length q.heap)) q now []

-- `std::find` in `cancelingTimers_`
unfoldable pub contains : List ℕ → ℕ → Bool
contains [] p = false
contains (x ∷ xs) p = if x == p then true else contains xs p

pub reset_one : TimerQueue → ℕ → ℕ → Option TimerQueue
reset_one q now p = do
  t ← deref q p
  let again : Option TimerQueue = do
    (changed, r) ← insert (record q { timers = update q.timers p (some (restart t now)) }) p
    some r
  let gone = delete q p
  if t.repeat && not (contains q.canceling_timers p) then again else gone

pub reset_all : TimerQueue → ℕ → List ℕ → Option TimerQueue
reset_all q now [] = some q
reset_all q now (p ∷ ps) = reset_one q now p >>= λ r. reset_all r now ps

-- The expiration that the queue waits for next, 0 (the epoch) for an empty heap.
pub next_expire : TimerQueue → List HeapEntry → Option ℕ
next_expire q [] = some 0
next_expire q (e ∷ es) = deref q e.timer >>= λ t. some t.expiration

pub reset : TimerQueue → List ℕ → ℕ → ℕ → Option TimerQueue
reset q expired now settime_now = do
  r ← reset_all q now expired
  next ← next_expire r r.heap
  some (if ltb 0 next then reset_timerfd r settime_now next else r)

module _ (callback : ℕ → TimerQueue → Option TimerQueue) where
  pub run_all : TimerQueue → List ℕ → Option TimerQueue
  run_all q [] = some q
  run_all q (p ∷ ps) = do t ← deref q p; r ← callback t.callback q; run_all r ps

  -- Reading the timerfd takes its expiry away; it is armed for one shot.
  pub handle_read : TimerQueue → ℕ → ℕ → Option TimerQueue
  handle_read q now settime_now = do
    (expired, due) ← get_expired (record q { armed = none }) now
    let calling = record due { calling_expired_timers = true; canceling_timers = [] }
    called ← run_all calling expired
    reset (record called { calling_expired_timers = false }) expired now settime_now
