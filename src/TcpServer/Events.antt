-- ===== src/TcpServer/Events.antt =====
-- TcpServer.cc: sequences of connections that open and close.
use network_lib.Base.{
  Option, Option-cases, ◌>>=◌, ℕ, ◌+◌, ◌≤◌, ◌≡◌, refl, Option, none, some, List, [], ◌∷◌, update,
  arith, inl, inr,
}
use network_lib.Acceptor.{Acceptor}
use network_lib.InetAddress.{InetAddress}
use network_lib.LoopPool
use network_lib.LoopPool.{LoopPool, get_next_loop}
use network_lib.LoopPool.RoundRobin.{get_next_loop-HasNext}
use network_lib.TcpServer.{TcpServer, newest, new_connection, remove_connection_in_loop, make}
use network_lib.TcpServer.Names.{max_id}
use network_lib.TcpServer.Serving.{Live, Serves, grown, grown-Serves, shrunk, shrunk-Serves}

-- What happens to a server: a descriptor is accepted, or the connection of a number closes.
pub data Event : Type 0 where
  opens closes : ℕ → Event

-- The connections that an event opens, and that a sequence of events opens.
abbrev pub opened : Event → ℕ
opened (opens connfd) = 1
opened (closes n) = 0

abbrev pub opened_all : List Event → ℕ
opened_all [] = 0
opened_all (x ∷ xs) = opened x + opened_all xs

-- The server and the connections that are alive, after one event. A connection that is not alive
-- does not close.
pub serve_one : TcpServer → Live → Event → Option (TcpServer × Live)
unfolding new_connection remove_connection_in_loop
serve_one s live (opens connfd) = do
  turn ← get_next_loop s.thread_pool
  t ← new_connection s connfd
  some (t, update live s.next_conn_id (some (newest s turn.0 connfd)))
serve_one s live (closes n) = elim (live n) [
  | none ↦ some (s, live)
  | some c ↦ remove_connection_in_loop s c >>= λ t. some (t, update live n none)
]

pub serve : TcpServer → Live → List Event → Option (TcpServer × Live)
serve s live [] = some (s, live)
serve s live (x ∷ xs) = serve_one s live x >>= λ r. serve r.0 r.1 xs

-- An event counts up the number for a connection that it opens.
serve_one-Serves :
    (s : TcpServer) (live : Live) (x : Event)
    → Serves s live
    → s.next_conn_id + opened x ≤ max_id
    → (t : TcpServer) × (alive : Live) × (serve_one s live x ≡ some (t, alive))
      × Serves t alive
      × (t.next_conn_id ≡ s.next_conn_id + opened x)
unfolding serve_one
serve_one-Serves s live (opens connfd) v h =
    let (l, pool, e, turn, choice) = get_next_loop-HasNext s.thread_pool v.pool in
    (
      grown s live v l pool connfd,
      update live s.next_conn_id (some (newest s l connfd)),
      ground (arith, e),
      grown-Serves s live v l pool connfd (omega arith) turn,
      omega arith,
    )
serve_one-Serves s live (closes n) v h = elim (Option-cases (live n)) [
  | inl gone ↦ (s, live, ground arith, v, omega arith)
  | inr (c, there) ↦ (
    shrunk s live v c,
    update live n none,
    ground (arith, v.stored n c there),
    shrunk-Serves s live v n c there,
    omega arith,
  )
]

-- Connections that open and close in any order never make a server whose map is in order fail, and at
-- the end its map has just the connections that are alive, if the number for the next connection
-- and the connections opened come to 10^8 at most: for a new server, whose first connection has the
-- number 1, fewer than 10^8 connections opened, however many of them close.
pub serve-Serves :
    (xs : List Event) (s : TcpServer) (live : Live)
    → Serves s live
    → s.next_conn_id + opened_all xs ≤ max_id
    → (t : TcpServer) × (alive : Live) × (serve s live xs ≡ some (t, alive)) × Serves t alive
unfolding serve
serve-Serves [] s live v h = (s, live, refl, v)
serve-Serves (x ∷ xs) s live v h =
    let (t, alive, e, w, next) = serve_one-Serves s live x v (omega arith) in
    let (u, last, f, z) = serve-Serves xs t alive w (omega arith) in (u, last, rw e f, z)

-- A new server serves no connection.
pub make-Serves :
    (loop : ℕ) (addr : InetAddress) (name : List ℕ) (acceptor : Acceptor)
    → Serves (make loop addr name acceptor) (λ n. none)
unfolding make LoopPool.make
make-Serves loop addr name acceptor = record {
  numbered = λ n c e. absurd (ground arith);
  stored = λ n c e. absurd (ground arith);
  alive = λ k c e. absurd (ground arith);
  bounded = omega arith;
  pool = λ h. absurd (omega arith);
}
