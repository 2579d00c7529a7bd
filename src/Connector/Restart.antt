-- ===== src/Connector/Restart.antt =====
-- Connector.cc: calls that come too early for the assertions of startInLoop and connecting.
use network_lib.Base.{ℕ, ◌≡◌, none, some, arith}
use network_lib.Connector.{
  Connector, connecting, Errno, einprogress, start, stop, start_in_loop, stop_in_loop, connect,
  connect_result, connecting_to, remove_and_reset_channel, retry, close,
}

-- A connector that is stopped while it waits, and started again before the loop has run the queued
-- resetChannel, fails the assertion that it has no channel, if connect(2) returns EINPROGRESS in the
-- new start.
pub start-stop :
    (c d : Connector) (fd : ℕ)
    → c.state ≡ connecting
    → stop c ≡ some d
    → start d fd einprogress ≡ none
unfolding start stop stop_in_loop start_in_loop connect connect_result connecting_to
    remove_and_reset_channel retry close
start-stop c d fd w e = ground arith

-- A retry timer is not cancelled: once the connector has been started again and waits, the timer's
-- call of startInLoop fails its assertion.
start_in_loop-start :
    (c d : Connector) (fd later : ℕ) (errno : Errno)
    → start c fd einprogress ≡ some d
    → start_in_loop d later errno ≡ none
unfolding start start_in_loop connect connect_result connecting_to
start_in_loop-start c d fd later errno e = ground arith
