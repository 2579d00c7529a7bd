-- ===== src/TcpServer.antt =====
-- lotus_project/lotus/net/TcpServer.h and TcpServer.cc: the server's map of connections, in the base
-- loop's thread. A TcpConnection is known by the number it was made with, which stands for the
-- pointer to it. What the server gives to the loops to run is noted in `given`, in order.
pub mod Names
pub mod Serving
pub mod Events
pub mod Collision
mod Tests
use network_lib.Base.{
  map, ℕ, suc, ◌+◌, ◌-◌, ◌^◌, Bool, true, false, not, Option, none, some, List, [], ◌∷◌, ◌++◌, take,
  ltb, if◌then◌else◌, assert, ◌>>=◌, ◌>>◌, decimal,
}
use network_lib.Base.Dict.{lookup, insert, erase}
use network_lib.InetAddress.{InetAddress, to_ip_port}
use network_lib.Acceptor.{Acceptor, Accepted, accepted, handle_read, set_new_connection_callback}
use network_lib.LoopPool
use network_lib.LoopPool.{LoopPool, get_next_loop, set_thread_num}

pub record Connection : Type 0 where
  pub serial : ℕ
  pub name : List ℕ
  pub io_loop : ℕ
  pub sockfd : ℕ

-- What a loop is given: Acceptor::listen, connectEstablished and connectDestroyed of a connection,
-- removeConnectionInLoop, and the thread callback that the pool calls for its base loop.
pub data Functor : Type 0 where
  listen thread_init : Functor
  connect_established connect_destroyed remove : Connection → Functor

pub record TcpServer : Type 0 where
  pub loop : ℕ
  pub serv_addr : InetAddress
  pub serv_name : List ℕ
  pub acceptor : Acceptor
  pub thread_pool : LoopPool
  pub started : Bool
  pub next_conn_id : ℕ
  pub connections : List (List ℕ × Connection)
  pub given : List (ℕ × Functor)

-- `acceptor` is a new one.
pub make : ℕ → InetAddress → List ℕ → Acceptor → TcpServer
unfolding LoopPool.make set_new_connection_callback
make loop addr name acceptor = record {
  loop = loop;
  serv_addr = addr;
  serv_name = name;
  acceptor = set_new_connection_callback acceptor;
  thread_pool = LoopPool.make loop;
  started = false;
  next_conn_id = 1;
  connections = [];
  given = [];
}

abbrev pub give : TcpServer → ℕ → Functor → TcpServer
give s loop f = record s { given = s.given ++ (loop, f) ∷ [] }

unfoldable pub set_num_threads : TcpServer → ℕ → TcpServer
unfolding set_thread_num
set_num_threads s n = record s { thread_pool = set_thread_num s.thread_pool n }

-- `has_callback` says whether a thread callback was set, and `new_loops` are the loops of the threads
-- that the pool starts.
pub start : TcpServer → Bool → List ℕ → Option TcpServer
unfolding LoopPool.start
start s has_callback new_loops =
    let run : Option TcpServer = LoopPool.start s.thread_pool has_callback new_loops >>= λ r.
    some (record s {
      thread_pool = r.1;
      started = true;
      given = s.given ++ map (λ l. (l, thread_init)) r.0;
    }) in
    ((if s.started then some s else run) >>= λ up.
    some (if up.acceptor.listening then up else give up up.loop listen))

-- snprintf into `char buf[32]`, which keeps 31 characters.
pub conn_name : List ℕ → List ℕ → ℕ → List ℕ
conn_name serv_name ip_port id = serv_name ++ take 31 (b':' ∷ (ip_port ++ b'#' ∷ decimal id))

abbrev pub int_max : ℕ
int_max = 2 ^ 31 - 1

-- The connection that `newConnection` makes for a descriptor in a loop.
abbrev pub newest : TcpServer → ℕ → ℕ → Connection
newest s io_loop connfd = record {
  serial = s.next_conn_id;
  name = conn_name s.serv_name (to_ip_port s.serv_addr) s.next_conn_id;
  io_loop = io_loop;
  sockfd = connfd;
}

-- `++nextConnId_` overflows at `int_max`.
unfoldable pub new_connection : TcpServer → ℕ → Option TcpServer
new_connection s connfd = do
  (io_loop, pool) ← get_next_loop s.thread_pool
  assert (ltb s.next_conn_id int_max)
  let conn = newest s io_loop connfd
  let stored = record s {
    thread_pool = pool;
    next_conn_id = suc s.next_conn_id;
    connections = insert conn.name conn s.connections;
  }
  some (give stored io_loop (connect_established conn))

-- The acceptor's `handleRead`, which calls `newConnection` with the descriptor that it accepted.
unfoldable pub accept_one : TcpServer → Accepted → Option ℕ → Option ℕ → Option TcpServer
unfolding handle_read
accept_one s (accepted connfd) second reopened =
    new_connection
      (record s { acceptor = handle_read s.acceptor (accepted connfd) second reopened }) connfd
accept_one s x second reopened =
    some (record s { acceptor = handle_read s.acceptor x second reopened })

-- Called in the connection's loop.
unfoldable pub remove_connection : TcpServer → Connection → TcpServer
remove_connection s conn = give s s.loop (remove conn)

abbrev pub is_some : Option Connection → Bool
is_some none = false
is_some (some c) = true

-- `erase` returns 1 exactly for a key that the map has.
pub remove_connection_in_loop : TcpServer → Connection → Option TcpServer
remove_connection_in_loop s conn = do
  assert (is_some (lookup conn.name s.connections))
  let erased = record s { connections = erase conn.name s.connections }
  some (give erased conn.io_loop (connect_destroyed conn))

-- `~TcpServer`
abbrev pub destroy_all : List (List ℕ × Connection) → List (ℕ × Functor)
destroy_all [] = []
destroy_all ((k, c) ∷ rest) = (c.io_loop, connect_destroyed c) ∷ destroy_all rest

unfoldable pub destroy : TcpServer → TcpServer
destroy s = record s { given = s.given ++ destroy_all s.connections }
