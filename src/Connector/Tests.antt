-- ===== src/Connector/Tests.antt =====
-- Connector.cc: a connector that has just been made, and one that waits.
use network_lib.Base.{◌≡◌, refl, true, Option, none, some, [], ◌∷◌}
use network_lib.Channels
use network_lib.Channels.{Epoll, enable_writing, disable_all, remove}
use network_lib.Connector.{
  Connector, make, disconnected, connecting, einprogress, econnrefused, start, stop, start_in_loop,
  stop_in_loop, connect, connect_result, connecting_to, retry, close, init_retry_delay_ms,
  remove_and_reset_channel,
}
use network_lib.Connector.Backoff.{retries, retries-delays}
use network_lib.Connector.Sockets.{InOrder, Reach, Step, Reach-make-InOrder}
use network_lib.Connector.Restart.{start-stop}

abbrev empty : Epoll
empty = record { interest = λ fd. none; capacity = 16 }

abbrev fresh : Connector
fresh = record {
  connect = true;
  state = disconnected;
  channel = none;
  epoll = empty;
  retry_delay_ms = init_retry_delay_ms;
  timers = [];
  resets = 0;
  opened = [];
  closed = [];
  handed = [];
}

-- The connector after its `start`, and that one after its `stop`.
abbrev unwrap : Option Connector → Connector
unwrap none = fresh
unwrap (some c) = c

waiting : Connector
unfolding start start_in_loop connect connect_result connecting_to Channels.make
waiting = unwrap (start fresh 7 einprogress)

stopped : Connector
unfolding stop stop_in_loop remove_and_reset_channel retry close remove waiting
stopped = unwrap (stop waiting)

stopped_lem : stop waiting ≡ some stopped
unfolding stop stop_in_loop remove_and_reset_channel retry close remove waiting stopped start
    start_in_loop connect connect_result connecting_to Channels.make enable_writing disable_all
stopped_lem = refl

retries-delays_example :
    ((retries fresh (4 ∷ 5 ∷ [])).timers ≡ 1000 ∷ 500 ∷ [])
    × ((retries fresh (4 ∷ 5 ∷ [])).retry_delay_ms ≡ 2000)
retries-delays_example = retries-delays fresh (4 ∷ 5 ∷ []) refl refl

-- The first attempt is refused, the second one waits.
abbrev refused : Connector
refused = record fresh {
  timers = 500 ∷ [];
  retry_delay_ms = 1000;
  opened = 4 ∷ [];
  closed = 4 ∷ [];
}

refused-Reach : Reach (make empty) refused
unfolding make start start_in_loop connect connect_result retry close
refused-Reach = Reach.next Reach.here (Step.starts 4 econnrefused refl)

Reach-make-InOrder_example : InOrder refused
Reach-make-InOrder_example = Reach-make-InOrder empty refused refused-Reach

waiting-connecting : waiting.state ≡ connecting
unfolding waiting start start_in_loop connect connect_result connecting_to
waiting-connecting = refl

start-stop_example : start stopped 8 einprogress ≡ none
start-stop_example = start-stop waiting stopped 8 waiting-connecting stopped_lem
