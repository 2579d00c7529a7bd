-- ===== src/ThreadPool.antt =====
-- lotus_project/lotus/net/Threadpool.h and Threadpool.cc: a bounded queue of tasks between the
-- threads that call `run` and the pool's workers. A task is a number. What a thread does while it
-- holds `mutex_`, up to its next wait, is one function.
pub mod Waiting
mod Tests
use network_lib.Base.{
  ℕ, suc, ◌+◌, ◌-◌, Bool, true, false, ◌&&◌, Option, none, some, List, [], ◌∷◌, ◌++◌, length, ltb,
  leb, ◌==◌, if◌then◌else◌, assert, ◌>>=◌, ◌>>◌,
}

-- The threads at a condition variable: those that sleep, and those that a notification has woken
-- and that have yet to get the mutex again.
pub record Waiters : Type 0 where
  pub sleeping : ℕ
  pub woken : ℕ

-- `threads` is the size of `threads_`. The last three fields record the tasks that were put into
-- the queue, those that `take` returned, and those that `run` called itself, in order.
pub record ThreadPool : Type 0 where
  pub not_empty : Waiters
  pub not_full : Waiters
  pub threads : ℕ
  pub queue : List ℕ
  pub max_queue_size : ℕ
  pub running : Bool
  pub added : List ℕ
  pub taken : List ℕ
  pub called : List ℕ

pub make : ThreadPool
make = record {
  not_empty = record { sleeping = 0; woken = 0 };
  not_full = record { sleeping = 0; woken = 0 };
  threads = 0;
  queue = [];
  max_queue_size = 0;
  running = false;
  added = [];
  taken = [];
  called = [];
}

pub set_max_queue_size : ThreadPool → ℕ → ThreadPool
set_max_queue_size p n = record p { max_queue_size = n }

-- Nothing happens where no thread sleeps.
pub notify_one : Waiters → Waiters
notify_one w =
    if ltb 0 w.sleeping then record { sleeping = w.sleeping - 1; woken = suc w.woken } else w

pub notify_all : Waiters → Waiters
notify_all w = record { sleeping = 0; woken = w.sleeping + w.woken }

pub wait : Waiters → Waiters
wait w = record w { sleeping = suc w.sleeping }

-- A woken thread has the mutex again.
pub resume : Waiters → Waiters
resume w = record w { woken = w.woken - 1 }

pub is_full : ThreadPool → Bool
is_full p = ltb 0 p.max_queue_size && leb p.max_queue_size (length p.queue)

pub start : ThreadPool → ℕ → Option ThreadPool
start p num_threads = do
  assert (p.threads == 0)
  some (record p { running = true; threads = num_threads })

-- The part of `stop` under the mutex; the joins follow.
pub stop : ThreadPool → ThreadPool
stop p = record p { running = false; not_empty = notify_all p.not_empty }

-- A test of the `while` of `run`, and then the wait, or the rest of the body.
pub put : ThreadPool → ℕ → ThreadPool
put p f = if is_full p then record p { not_full = wait p.not_full } else record p {
  queue = p.queue ++ f ∷ [];
  not_empty = notify_one p.not_empty;
  added = p.added ++ f ∷ [];
}

-- Without threads the caller runs the task.
pub run : ThreadPool → ℕ → ThreadPool
run p f = if p.threads == 0 then record p { called = p.called ++ f ∷ [] } else put p f

-- `pop_front`, and the notification.
pub pop_front : ThreadPool → ℕ → List ℕ → ThreadPool
pop_front p task rest = record p {
  queue = rest;
  taken = p.taken ++ task ∷ [];
  not_full = if ltb 0 p.max_queue_size then notify_one p.not_full else p.not_full;
}

-- A test of the `while` of `take`, and then the wait, or the rest of the body. What `take` returns
-- is the next entry of `taken`, or an empty task where the queue is empty.
pub take : ThreadPool → ThreadPool
take p = elim p.queue [
  | [] ↦ if p.running then record p { not_empty = wait p.not_empty } else p
  | task ∷ rest ↦ pop_front p task rest
]
