-- ===== src/Acceptor/Tests.antt =====
-- Acceptor.cc: an acceptor that runs out of descriptors.
use network_lib.Base.{none, some}
use network_lib.Channels.{Epoll}
use network_lib.Acceptor.{
  Acceptor, accepted, emfile, make, handle_read, set_new_connection_callback,
}
use network_lib.Acceptor.Descriptors.{Accounted, Step, Reach, Reach-make-Accounted}

abbrev empty : Epoll
empty = record { interest = λ fd. none; capacity = 16 }

abbrev exhausted : Acceptor
exhausted =
    handle_read
      (handle_read (set_new_connection_callback (make 3 (some 4) empty)) (accepted 5) none none)
      emfile (some 4) (some 4)

exhausted-Reach : Reach (make 3 (some 4) empty) exhausted
exhausted-Reach =
    Reach.next (Reach.next (Reach.next Reach.here Step.hears) (Step.reads (accepted 5) none none))
      (Step.reads emfile (some 4) (some 4))

Reach-make-Accounted_example : Accounted exhausted
Reach-make-Accounted_example = Reach-make-Accounted 3 (some 4) empty exhausted exhausted-Reach
