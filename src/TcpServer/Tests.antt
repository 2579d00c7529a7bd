-- ===== src/TcpServer/Tests.antt =====
-- TcpServer.cc: a server of two loops, and one with a long address.
use network_lib.Base.{
  ℕ, ◌≡◌, refl, true, false, none, some, [], ◌∷◌, update, length, arith, digits, decimal,
}
use network_lib.Acceptor.{Acceptor}
use network_lib.Channels.{none_event, new}
use network_lib.InetAddress.{InetAddress, to_ip_port}
use network_lib.LoopPool.RoundRobin.{IsChoice}
use network_lib.TcpServer.{
  Connection, conn_name, connect_established, connect_destroyed, TcpServer, make, newest,
  new_connection, remove_connection_in_loop,
}
use network_lib.TcpServer.Serving.{Live, Serves, new_connection-Serves}
use network_lib.TcpServer.Events.{opens, closes, serve, make-Serves, serve-Serves}
use network_lib.TcpServer.Collision.{remove_connection_in_loop_collision}

abbrev any : InetAddress
any = record { sin_family = 2; sin_port = 0xb822; s_addr = 0 }

abbrev listener : Acceptor
listener = record {
  fd = 3;
  accept_channel = record {
    fd = 3;
    events = none_event;
    index = new;
    tied = false;
    event_handling = false;
    has_read = true;
    has_write = false;
    has_close = false;
    has_error = false;
  };
  epoll = record { interest = λ fd. none; capacity = 16 };
  listening = false;
  idle_fd = some 4;
  has_callback = false;
  opened = 4 ∷ [];
  closed = [];
  handed = [];
}

abbrev none_alive : Live
none_alive n = none

serve-Serves_example :
    (t : TcpServer) × (alive : Live) × (serve
        (make 1 any [] listener)
        none_alive
        (opens 7 ∷ opens 8 ∷ closes 1 ∷ [])
      ≡ some (t, alive))
    × Serves t alive
unfolding make
serve-Serves_example =
    serve-Serves (opens 7 ∷ opens 8 ∷ closes 1 ∷ []) (make 1 any [] listener) none_alive
      (make-Serves 1 any [] listener) (omega arith)

new_connection-Serves_example :
    (io_loop : ℕ) × (t : TcpServer) × (new_connection (make 1 any [] listener) 7 ≡ some t)
    × Serves t (update none_alive 1 (some (newest (make 1 any [] listener) io_loop 7)))
    × (t.given ≡ (io_loop, connect_established (newest (make 1 any [] listener) io_loop 7)) ∷ [])
    × IsChoice (make 1 any [] listener).thread_pool io_loop
unfolding make
new_connection-Serves_example =
    new_connection-Serves (make 1 any [] listener) none_alive 7 (make-Serves 1 any [] listener)
      (omega arith)

-- 255.255.255.255:65535
abbrev longest : InetAddress
longest = record { sin_family = 2; sin_port = 0xffff; s_addr = 0xffffffff }

abbrev numbered : ℕ → Connection
numbered n = record {
  serial = n;
  name = conn_name [] (to_ip_port longest) n;
  io_loop = 1;
  sockfd = 7;
}

-- The second of the two connections has taken the place of the first one.
abbrev crowded : TcpServer
crowded = record {
  loop = 1;
  serv_addr = longest;
  serv_name = [];
  acceptor = listener;
  thread_pool = record { base_loop = 1; started = true; num_threads = 0; next = 0; loops = [] };
  started = true;
  next_conn_id = 100000002;
  connections = ((numbered 100000001).name, numbered 100000001) ∷ [];
  given = [];
}

abbrev emptied : TcpServer
emptied = record crowded {
  connections = [];
  given = (1, connect_destroyed (numbered 100000000)) ∷ [];
}

longest_lem : length (to_ip_port longest) ≡ 21
unfolding to_ip_port decimal digits
longest_lem = refl

emptied_lem : remove_connection_in_loop crowded (numbered 100000000) ≡ some emptied
unfolding remove_connection_in_loop conn_name to_ip_port decimal digits
emptied_lem = refl

remove_connection_in_loop_collision_example :
    remove_connection_in_loop emptied (numbered 100000001) ≡ none
remove_connection_in_loop_collision_example =
    remove_connection_in_loop_collision crowded emptied (numbered 100000000) (numbered 100000001)
      longest_lem (omega arith) (omega arith) (omega arith) (omega arith) (omega arith) refl refl
      emptied_lem
