-- ===== src/Loop/Tests.antt =====
-- EventLoop.cc: a loop with pending functors.
use network_lib.Base.{ℕ, ◌≡◌, refl, true, false, List, [], ◌∷◌, ◌==◌, if◌then◌else◌}
use network_lib.Loop.{EventLoop, make, queue_in_loop, do_pending_functors}
use network_lib.Loop.Rounds.{do_pending_functors_lem}
use network_lib.Loop.Wakeup.{Running, polling}

-- Functor 1 queues functors 2 and 3.
abbrev run : ℕ → List ℕ
run f = if f == 1 then 2 ∷ 3 ∷ [] else []

abbrev pending : EventLoop
pending = record {
  quit = false;
  calling_pending_functors = false;
  pending_functors = 1 ∷ 4 ∷ [];
  wakeups = 1;
  ran = [];
}

do_pending_functors_lem_example :
    let m = do_pending_functors run pending in
    (m.ran ≡ 1 ∷ 4 ∷ [])
    × (m.pending_functors ≡ 2 ∷ 3 ∷ [])
    × (m.calling_pending_functors ≡ false)
    × (m.wakeups ≡ 3)
do_pending_functors_lem_example = do_pending_functors_lem run pending

-- The loop's thread has queued functor 4 before `loop`, and another thread functor 5 since.
abbrev alone : Running
alone = record { loop = queue_in_loop true make 4; phase = polling; early = 4 ∷ [] }

abbrev queued : Running
queued = record alone { loop = queue_in_loop false alone.loop 5 }

-- The functor that was queued before `loop` may wait: the eventfd's counter is 0.
alone_lem : (alone.loop.pending_functors ≡ 4 ∷ []) × (alone.loop.wakeups ≡ 0)
unfolding make queue_in_loop
alone_lem = (refl, refl)
