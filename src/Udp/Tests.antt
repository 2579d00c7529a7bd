-- ===== src/Udp/Tests.antt =====
-- UdpServer.cc: a server without threads of its own.
use network_lib.Base.{ℕ, ◌≤◌, ◌<◌, ◌≡◌, refl, false, none, some, [], ◌∷◌, arith}
use network_lib.Channels.{Epoll}
use network_lib.InetAddress.{InetAddress}
use network_lib.LoopPool.RoundRobin.{IsChoice}
use network_lib.Udp.{got, buff_size}
use network_lib.Udp.Server.{UdpServer, handle_read, message_callback}
use network_lib.Udp.Server.Delivery.{handle_read-delivers}

abbrev local : InetAddress
local = record { sin_family = 2; sin_port = 0xb822; s_addr = 0x0100007f }

abbrev empty : Epoll
empty = record { interest = λ fd. none; capacity = 16 }

abbrev fresh : UdpServer
fresh = record {
  loop = 1;
  addr = local;
  running = false;
  thread_pool = record { base_loop = 1; started = false; num_threads = 0; next = 0; loops = [] };
  channel = none;
  epoll = empty;
  given = [];
  sent = [];
  closed = [];
}

-- "hi", and "hi" with a zero and another byte after it.
handle_read-delivers_example :
    (io_loop : ℕ) × IsChoice fresh.thread_pool io_loop
    × (2 < buff_size
        → (t : UdpServer) × (handle_read fresh (got (b'h' ∷ b'i' ∷ [])) local ≡ some t)
          × (handle_read fresh (got (b'h' ∷ b'i' ∷ 0 ∷ b'!' ∷ [])) local ≡ some t)
          × (t.given ≡ (io_loop, message_callback (b'h' ∷ b'i' ∷ []) local) ∷ []))
    × (buff_size ≤ 2 → handle_read fresh (got (b'h' ∷ b'i' ∷ [])) local ≡ none)
handle_read-delivers_example =
    handle_read-delivers fresh (b'h' ∷ b'i' ∷ []) (b'!' ∷ []) local (λ h. absurd (omega arith)) refl
      (omega arith)
