-- ===== src/EventLoopThread.antt =====
-- lotus_project/lotus/net/EventLoopThread.h and EventLoopThread.cc: a thread that makes an EventLoop,
-- and the thread that starts it and waits for the loop. A loop is a number. What a thread does while
-- it holds `mutex_`, up to its next wait, is one function.
pub mod Handover
mod Tests
use network_lib.Base.{
  ℕ, suc, ◌+◌, Bool, true, false, Option, none, some, if◌then◌else◌, assert, ◌>>=◌, ◌>>◌,
}

-- Where the thread in startLoop is: outside of it, before a test of its `while`, asleep on `cond_`, or
-- back with a loop.
pub data Starter : Type 0 where
  outside testing asleep : Starter
  returned : ℕ → Starter

-- Where threadFunc is: not begun, making its loop and calling the callback, before the publication
-- of the loop, in `loop.loop()`, or at its end, where the loop is gone.
pub data Worker : Type 0 where
  absent : Worker
  initialising initialised running finished : ℕ → Worker

-- `called` counts the calls of `callback_`, and `quit` is whether the loop was asked to quit.
pub record EventLoopThread : Type 0 where
  pub loop : Option ℕ
  pub exiting : Bool
  pub has_callback : Bool
  pub starter : Starter
  pub worker : Worker
  pub called : ℕ
  pub quit : Bool

pub make : Bool → EventLoopThread
make has_callback = record {
  loop = none;
  exiting = false;
  has_callback = has_callback;
  starter = outside;
  worker = absent;
  called = 0;
  quit = false;
}

abbrev pub is_absent : Worker → Bool
is_absent absent = true
is_absent _ = false

-- `startLoop` up to its `while`; `l` is the loop that the new thread makes. A std::thread that runs
-- cannot be assigned to.
pub start_loop : EventLoopThread → ℕ → Option EventLoopThread
start_loop t l =
    assert (is_absent t.worker) >> some (record t { worker = initialising l; starter = testing })

-- A test of the `while`, and then the wait, or the return.
pub test : EventLoopThread → EventLoopThread
test t = elim t.loop [
  | none ↦ record t { starter = asleep }
  | some l ↦ record t { starter = returned l }
]

-- `callback_(&loop)`
pub initialise : EventLoopThread → ℕ → EventLoopThread
initialise t l = record t {
  called = if t.has_callback then suc t.called else t.called;
  worker = initialised l;
}

-- `cond_.notify_one()` wakes the starter where it sleeps.
abbrev pub notified : Starter → Starter
notified asleep = testing
notified s = s

pub publish : EventLoopThread → ℕ → EventLoopThread
publish t l = record t { loop = some l; starter = notified t.starter; worker = running l }

-- `~EventLoopThread` up to the join: `quit` through a null pointer, or through that of a loop that is
-- gone, is a fault.
quit_through : Worker → EventLoopThread → Option EventLoopThread
quit_through (running l) t = some (record t { quit = true })
quit_through _ t = none

pub destroy : EventLoopThread → Option EventLoopThread
unfolding quit_through
destroy t = elim t.loop [
  | none ↦ none
  | some l ↦ quit_through t.worker (record t { exiting = true })
]
