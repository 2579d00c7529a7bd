-- ===== src/Timers.antt =====
-- lotus_project/lotus/net/Timer.h, Timer.cc, and the state of TimerQueue.h. A pointer to a Timer is
-- a number, and `timers` the memory behind the pointers: `none` where no Timer is alive. Reading
-- there is a fault, as is an access past the end of the heap vector.
pub mod Heap
pub mod Queue
mod Tests
use network_lib.Base.{
  ℕ, suc, ◌+◌, ◌*◌, Bool, Option, none, some, List, get_elem?, if◌then◌else◌, ltb, update, ◌>>=◌,
}

-- A Timestamp counts the nanoseconds of `system_clock` since the epoch, an interval milliseconds.
-- In `heap_index` `none` is the source's -1.
pub record Timer : Type 0 where
  pub callback : ℕ
  pub expiration : ℕ
  pub interval : ℕ
  pub repeat : Bool
  pub sequence : ℕ
  pub heap_index : Option ℕ

pub record HeapEntry : Type 0 where
  pub expiration_time : ℕ
  pub timer : ℕ

-- `armed` is the kernel's side of `timerfd_`: when it will fire.
pub record TimerQueue : Type 0 where
  pub heap : List HeapEntry
  pub timers : ℕ → Option Timer
  pub calling_expired_timers : Bool
  pub canceling_timers : List ℕ
  pub armed : Option ℕ

-- `Timer::Timer`; `count` is the static counter `id`.
unfoldable pub new_timer : ℕ → ℕ → ℕ → ℕ → Timer × ℕ
new_timer callback when interval count = (
  record {
    callback = callback;
    expiration = when;
    interval = interval;
    repeat = ltb 0 interval;
    sequence = suc count;
    heap_index = none;
  },
  suc count,
)

pub restart : Timer → ℕ → Timer
restart t now =
    if t.repeat
    then record t { expiration = now + t.interval * 1_000_000 }
    else record t { expiration = 0 }

abbrev pub load : TimerQueue → ℕ → Option HeapEntry
load q i = get_elem? q.heap i

abbrev pub deref : TimerQueue → ℕ → Option Timer
deref q p = q.timers p

-- `timer->heapIndex_ = index`
abbrev pub store_index : TimerQueue → ℕ → Option ℕ → Option TimerQueue
store_index q p index = do
  t ← deref q p
  some (record q { timers = update q.timers p (some (record t { heap_index = index })) })
