-- ===== src/Udp/Server/Restart.antt =====
-- UdpServer.cc: `start` and `stop`.
use network_lib.Base.{ℕ, ◌≡◌, Bool, false, none, some, List, arith}
use network_lib.LoopPool
use network_lib.Udp.Server.{UdpServer, start, stop}

-- A server that was started and stopped does not start again: its pool fails the assertion that it
-- has not been started.
start-stop-start :
    (s t u : UdpServer) (has_callback : Bool) (new_loops later_loops : List ℕ) (sockfd later : ℕ)
    → s.running ≡ false
    → start s has_callback new_loops sockfd ≡ some t
    → stop t ≡ some u
    → start u has_callback later_loops later ≡ none
unfolding start stop LoopPool.start
start-stop-start s t u has_callback new_loops later_loops sockfd later idle h k = ground arith
