-- ===== src/ThreadPool/Tests.antt =====
-- Threadpool.cc: a pool of two workers with room for one task.
use network_lib.Base.{◌+◌, ◌≤◌, ◌<◌, ◌≡◌, refl, true, some, [], ◌++◌, length}
use network_lib.ThreadPool.{ThreadPool, make, set_max_queue_size, start, run}
use network_lib.ThreadPool.Waiting.{Step, Reach, Reach-taken, Reach-woken}

abbrev pool : ThreadPool
pool = record {
  not_empty = record { sleeping = 0; woken = 0 };
  not_full = record { sleeping = 0; woken = 0 };
  threads = 2;
  queue = [];
  max_queue_size = 1;
  running = true;
  added = [];
  taken = [];
  called = [];
}

pool-started : start (set_max_queue_size make 1) 2 ≡ some pool
unfolding start set_max_queue_size make
pool-started = refl

-- The second caller has to wait.
abbrev busy : ThreadPool
busy = run (run pool 5) 6

busy-Reach : Reach pool busy
busy-Reach = Reach.next (Reach.next Reach.here (Step.runs 5)) (Step.runs 6)

Reach-taken_example :
    (busy.added ≡ busy.taken ++ busy.queue)
    × (0 < busy.max_queue_size → length busy.queue ≤ busy.max_queue_size)
Reach-taken_example = Reach-taken 1 2 pool pool-started busy busy-Reach

Reach-woken_example :
    (0 < busy.not_empty.sleeping → length busy.queue ≤ busy.not_empty.woken)
    × (0 < busy.not_full.sleeping → busy.max_queue_size ≤ length busy.queue + busy.not_full.woken)
Reach-woken_example = Reach-woken 1 2 pool pool-started busy busy-Reach
