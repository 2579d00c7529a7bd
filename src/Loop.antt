-- ===== src/Loop.antt =====
-- lotus_project/lotus/net/EventLoop.cc: the functors that threads hand to a loop, and the loop's
-- rounds. A functor is a number; `run` says what functors it queues itself when it runs.
pub mod Wakeup
pub mod Rounds
mod Tests
use network_lib.Base.{ℕ, suc, ◌+◌, Bool, true, false, not, ◌||◌, List, [], ◌∷◌, ◌++◌, if◌then◌else◌}

-- `wakeups` is the counter of the eventfd, and `ran` the functors that have run, in order.
pub record EventLoop : Type 0 where
  pub quit : Bool
  pub calling_pending_functors : Bool
  pub pending_functors : List ℕ
  pub wakeups : ℕ
  pub ran : List ℕ

pub make : EventLoop
make = record {
  quit = false;
  calling_pending_functors = false;
  pending_functors = [];
  wakeups = 0;
  ran = [];
}

pub wakeup : EventLoop → EventLoop
wakeup l = record l { wakeups = suc l.wakeups }

-- Reading the eventfd sets its counter to 0.
pub handle_read : EventLoop → EventLoop
handle_read l = record l { wakeups = 0 }

pub queue_in_loop : Bool → EventLoop → ℕ → EventLoop
unfolding wakeup
queue_in_loop in_loop_thread l f =
    let queued = record l { pending_functors = l.pending_functors ++ f ∷ [] } in
    if not in_loop_thread || l.calling_pending_functors then wakeup queued else queued

pub quit_loop : Bool → EventLoop → EventLoop
unfolding wakeup
quit_loop in_loop_thread l =
    let stopped = record l { quit = true } in if not in_loop_thread then wakeup stopped else stopped

module _ (run : ℕ → List ℕ) where
  pub queue_all : EventLoop → List ℕ → EventLoop
  queue_all l [] = l
  queue_all l (f ∷ fs) = queue_all (queue_in_loop true l f) fs

  -- A functor runs in the loop's thread.
  pub call : EventLoop → ℕ → EventLoop
  call l f = queue_all (record l { ran = l.ran ++ f ∷ [] }) (run f)

  pub run_in_loop : Bool → EventLoop → ℕ → EventLoop
  run_in_loop in_loop_thread l f = if in_loop_thread then call l f else queue_in_loop false l f

  pub call_all : EventLoop → List ℕ → EventLoop
  call_all l [] = l
  call_all l (f ∷ fs) = call_all (call l f) fs

  pub do_pending_functors : EventLoop → EventLoop
  do_pending_functors l =
      let swapped = record l { calling_pending_functors = true; pending_functors = [] } in
      let called = call_all swapped l.pending_functors in
      record called { calling_pending_functors = false }
