-- ===== src/Udp/Server.antt =====
-- lotus_project/lotus/net/UdpServer.h and UdpServer.cc: the server, in its loop's thread. The socket,
-- the datagrams and the loops of the threads are arguments. What the server gives to the loops is
-- noted in `given`, and what it sends in `sent`, in order.
pub mod Restart
pub mod Delivery
use network_lib.Base.{
  map, ℕ, Bool, true, false, Option, none, some, List, [], ◌∷◌, ◌++◌, if◌then◌else◌, assert, ◌>>=◌,
  ◌>>◌,
}
use network_lib.Channels
use network_lib.Channels.{Channel, Epoll, enable_reading, disable_all, remove}
use network_lib.InetAddress.{InetAddress, from_sockaddr}
use network_lib.LoopPool
use network_lib.LoopPool.{LoopPool, get_next_loop, set_thread_num}
use network_lib.Udp.{Received, got, filled, c_string}

-- A loop is given the user's callback with a message, or sendToInLoop, or the pool calls the thread
-- callback for its base loop.
pub data Functor : Type 0 where
  thread_init : Functor
  message_callback send_to_in_loop : List ℕ → InetAddress → Functor

-- `channel_` is not set before `start`; `none` stands for that. `closed` are the descriptors closed.
pub record UdpServer : Type 0 where
  pub loop : ℕ
  pub addr : InetAddress
  pub running : Bool
  pub thread_pool : LoopPool
  pub channel : Option Channel
  pub epoll : Epoll
  pub given : List (ℕ × Functor)
  pub sent : List (List ℕ × InetAddress)
  pub closed : List ℕ

pub make : ℕ → InetAddress → Epoll → UdpServer
unfolding LoopPool.make
make loop addr e = record {
  loop = loop;
  addr = addr;
  running = false;
  thread_pool = LoopPool.make loop;
  channel = none;
  epoll = e;
  given = [];
  sent = [];
  closed = [];
}

unfoldable pub set_num_threads : UdpServer → ℕ → UdpServer
unfolding set_thread_num
set_num_threads s n = record s { thread_pool = set_thread_num s.thread_pool n }

-- The part of `start` that opens the socket, each time that it is called.
pub listen : UdpServer → ℕ → UdpServer
unfolding Channels.make enable_reading
listen s sockfd =
    let fresh = record (Channels.make sockfd) { has_read = true } in
    let (ch, e) = enable_reading fresh s.epoll in record s { channel = some ch; epoll = e }

pub start : UdpServer → Bool → List ℕ → ℕ → Option UdpServer
unfolding LoopPool.start listen
start s has_callback new_loops sockfd =
    let run : Option UdpServer = LoopPool.start s.thread_pool has_callback new_loops >>= λ r.
    some (record s {
      running = true;
      thread_pool = r.1;
      given = s.given ++ map (λ l. (l, thread_init)) r.0;
    }) in
    ((if s.running then some s else run) >>= λ up. some (listen up sockfd))

pub stop : UdpServer → Option UdpServer
unfolding disable_all remove
stop s = elim s.channel [
  | none ↦ none
  | some ch ↦
      let (off, e) = disable_all ch s.epoll in
      (remove off e >>= λ f.
      some
        (record s { running = false; channel = some off; epoll = f; closed = off.fd ∷ s.closed }))
]

-- `from` is the address that recvfrom leaves in `clientaddr`. After an error the callback is given
-- the empty text.
pub handle_read : UdpServer → Received → InetAddress → Option UdpServer
unfolding get_next_loop from_sockaddr filled c_string
handle_read s r from = do
  (io_loop, pool) ← get_next_loop s.thread_pool
  text ← c_string (filled r)
  peer ← from_sockaddr from
  some (record s {
    thread_pool = pool;
    given = s.given ++ (io_loop, message_callback text peer) ∷ [];
  })

unfoldable pub send_to : UdpServer → List ℕ → InetAddress → UdpServer
send_to s bytes to = record s { given = s.given ++ (s.loop, send_to_in_loop bytes to) ∷ [] }

-- A missing channel aborts. What sendto returns is only logged; `ok` is whether it sent the bytes.
unfoldable pub send_to_loop : UdpServer → List ℕ → InetAddress → Bool → Option UdpServer
send_to_loop s bytes to ok = elim s.channel [
  | none ↦ none
  | some ch ↦ some (if ok then record s { sent = s.sent ++ (bytes, to) ∷ [] } else s)
]
