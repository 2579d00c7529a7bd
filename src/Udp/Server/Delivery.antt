-- ===== src/Udp/Server/Delivery.antt =====
-- UdpServer.cc: handleRead.
use network_lib.Base.{ℕ, ◌<◌, ◌≤◌, ◌≡◌, refl, none, some, List, [], ◌∷◌, ◌++◌, length, arith, Lacks}
use network_lib.InetAddress.{InetAddress, af_inet, from_sockaddr}
use network_lib.LoopPool.RoundRobin.{HasNext, IsChoice, get_next_loop-HasNext}
use network_lib.Udp.{got, buff_size}
use network_lib.Udp.Texts.{c_string-filled}
use network_lib.Udp.Server.{UdpServer, message_callback, handle_read}

-- A datagram of fewer than 1024 bytes without a zero, from an address of AF_INET, is given whole and
-- with its sender to the loop whose turn it is; one whose first zero stands among its first 1024
-- bytes is cut off there; and one of 1024 bytes or more without a zero is a fault.
pub handle_read-delivers :
    (s : UdpServer) (front rest : List ℕ) (from : InetAddress)
    → HasNext s.thread_pool
    → from.sin_family ≡ af_inet
    → Lacks 0 front
    → (io_loop : ℕ) × IsChoice s.thread_pool io_loop
      × (length front < buff_size
          → (t : UdpServer) × (handle_read s (got front) from ≡ some t)
            × (handle_read s (got (front ++ 0 ∷ rest)) from ≡ some t)
            × (t.given ≡ s.given ++ (io_loop, message_callback front from) ∷ []))
      × (buff_size ≤ length front → handle_read s (got front) from ≡ none)
unfolding handle_read
handle_read-delivers s front rest from turn inet h =
    let (l, pool, e, after, choice) = get_next_loop-HasNext s.thread_pool turn in
    let (short, long) = c_string-filled front rest h in
    let after_one : UdpServer = record s {
      thread_pool = pool;
      given = s.given ++ (l, message_callback front from) ∷ [];
    } in
    let known : from_sockaddr from ≡ some from = unfold from_sockaddr in ground arith in
    (
      l,
      choice,
      λ small. (
        after_one,
        ground (arith, e, (short small).0, known),
        ground (arith, e, (short small).1, known),
        refl,
      ),
      λ large. ground (arith, e, long large),
    )
