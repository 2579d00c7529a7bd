-- ===== src/EventLoopThread/Tests.antt =====
-- EventLoopThread.cc: a thread whose starter has to wait.
use network_lib.Base.{◌≡◌, ◌≢◌, refl, true, false, some}
use network_lib.EventLoopThread.{
  EventLoopThread, asleep, returned, running, make, start_loop, test, initialise, publish,
}
use network_lib.EventLoopThread.Handover.{Step, Reach, Reach-make-returned}

abbrev ready : EventLoopThread
ready = record {
  loop = some 5;
  exiting = false;
  has_callback = true;
  starter = returned 5;
  worker = running 5;
  called = 1;
  quit = false;
}

ready-Reach : Reach (make true) ready
unfolding make start_loop test initialise publish
ready-Reach =
    Reach.next
      (Reach.next
        (Reach.next (Reach.next (Reach.next Reach.here (Step.starts 5 refl)) (Step.tests refl))
          (Step.initialises 5 refl))
        (Step.publishes 5 refl))
      (Step.tests refl)

Reach-make-returned_example :
    (returned 5 ≡ returned 5 → (ready.loop ≡ some 5) × (ready.called ≡ 1))
    × (ready.loop ≡ some 5 → ready.starter ≢ asleep)
Reach-make-returned_example = Reach-make-returned true ready 5 ready-Reach
