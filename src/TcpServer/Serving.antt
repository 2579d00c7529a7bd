-- ===== src/TcpServer/Serving.antt =====
-- TcpServer.cc: the map of connections against the connections that are alive.
use network_lib.Base.{
  Option, ℕ, suc, ◌<◌, ◌≤◌, ◌≡◌, refl, sym, ap, ◌∙◌, Option, none, some, List, [], ◌∷◌, ◌++◌, ◌==◌,
  update, arith, Bool-cases, inl, inr, same, same_refl, eq_of_same,
}
use network_lib.Base.Dict.{lookup, insert, erase, lookup-insert, lookup-erase}
use network_lib.InetAddress.{to_ip_port}
use network_lib.InetAddress.Printed.{length-to_ip_port-le}
use network_lib.LoopPool.{LoopPool}
use network_lib.LoopPool.RoundRobin.{HasNext, IsChoice, get_next_loop-HasNext}
use network_lib.TcpServer.{
  Connection, connect_established, connect_destroyed, TcpServer, give, conn_name, newest,
  new_connection, remove_connection_in_loop,
}
use network_lib.TcpServer.Names.{max_id, conn_name_injective}

-- The connections that are alive, by their numbers: the server as its client sees it.
abbrev pub Live : Type 0
Live = ℕ → Option Connection

-- The name that the server gives to the connection of a number.
abbrev pub name_of : TcpServer → ℕ → List ℕ
name_of s n = conn_name s.serv_name (to_ip_port s.serv_addr) n

-- The map has just the connections that are alive, each under its own name.
pub record Serves (s : TcpServer) (live : Live) : Type 0 where
  pub numbered :
      (n : ℕ) (c : Connection)
      → live n ≡ some c
      → (n < s.next_conn_id) × (c.serial ≡ n) × (c.name ≡ name_of s n)
  pub stored : (n : ℕ) (c : Connection) → live n ≡ some c → lookup c.name s.connections ≡ some c
  pub alive :
      (k : List ℕ) (c : Connection)
      → lookup k s.connections ≡ some c
      → (live c.serial ≡ some c) × (k ≡ c.name)
  pub bounded : s.next_conn_id ≤ max_id
  pub pool : HasNext s.thread_pool

name_of_injective :
    (s : TcpServer) (m n : ℕ) → m < max_id → n < max_id → name_of s m ≡ name_of s n → m ≡ n
name_of_injective s m n h k e =
    conn_name_injective s.serv_name (to_ip_port s.serv_addr) m n (length-to_ip_port-le s.serv_addr)
      h k e

-- A name of a number differs from those of others.
same-name_of :
    (s : TcpServer) (m n : ℕ)
    → m < max_id
    → n < max_id
    → same (name_of s m) (name_of s n) ≡ (m == n)
same-name_of s m n h k = elim (Bool-cases (same (name_of s m) (name_of s n))) [
  | inl eq ↦
      let e = name_of_injective s m n h k (eq_of_same (name_of s m) (name_of s n) eq) in
      ground (arith, e)
  | inr ne ↦ elim (Bool-cases (m == n)) [
    | inl met ↦
        let e : m ≡ n = ground arith in
        absurd (ground (arith, same_refl (name_of s n), ap (name_of s) e))
    | inr apart ↦ ne ∙ sym apart
  ]
]

module _ (s : TcpServer) (live : Live) (v : Serves s live) where
  -- The server after a new connection.
  abbrev pub grown : ℕ → LoopPool → ℕ → TcpServer
  grown io_loop pool connfd =
      let conn = newest s io_loop connfd in
      let stored = record s {
        thread_pool = pool;
        next_conn_id = suc s.next_conn_id;
        connections = insert conn.name conn s.connections;
      } in
      give stored io_loop (connect_established conn)

  pub grown-Serves :
      (io_loop : ℕ) (pool : LoopPool) (connfd : ℕ)
      → s.next_conn_id < max_id
      → HasNext pool
      → Serves
          (grown io_loop pool connfd)
          (update live s.next_conn_id (some (newest s io_loop connfd)))
  grown-Serves io_loop pool connfd h turn =
      let conn = newest s io_loop connfd in
      record {
        numbered = λ n c e. ground (arith, v.numbered n c);
        stored = λ n c e. elim (Bool-cases (n == s.next_conn_id)) [
          | inl met ↦
              ground (arith, lookup-insert conn.name c.name conn s.connections, same_refl conn.name)
          | inr apart ↦
              let old : live n ≡ some c = ground arith in
              ground (
                arith,
                lookup-insert conn.name c.name conn s.connections,
                v.numbered n c,
                v.stored n c,
                same-name_of s s.next_conn_id n h,
              )
        ];
        alive = λ k c e. elim (Bool-cases (same conn.name k)) [
          | inl met ↦
              ground
                (arith, lookup-insert conn.name k conn s.connections, eq_of_same conn.name k met)
          | inr apart ↦
              let old : lookup k s.connections ≡ some c =
                ground (arith, lookup-insert conn.name k conn s.connections) in
              ground (arith, v.alive k c old, v.numbered c.serial c)
        ];
        bounded = omega arith;
        pool = turn;
      }

  -- The server after the removal of a connection.
  abbrev pub shrunk : Connection → TcpServer
  shrunk c =
      give (record s { connections = erase c.name s.connections }) c.io_loop (connect_destroyed c)

  pub shrunk-Serves :
      (n : ℕ) (c : Connection) → live n ≡ some c → Serves (shrunk c) (update live n none)
  shrunk-Serves n c there = record {
    numbered = λ m d e. ground (arith, v.numbered m d);
    stored = λ m d e.
        let old : live m ≡ some d = ground arith in
        ground (
          arith,
          lookup-erase c.name d.name s.connections,
          v.stored m d old,
          v.numbered m d old,
          v.numbered n c there,
          v.bounded,
          same-name_of s n m,
        );
    alive = λ k d e.
        let old : lookup k s.connections ≡ some d =
          ground (arith, lookup-erase c.name k s.connections) in
        let kept = v.alive k d old in
        elim (Bool-cases (d.serial == n)) [
          | inl met ↦
              let eq : d ≡ c = ground (arith, kept.0, there) in
              absurd
                (ground (arith, lookup-erase c.name k s.connections, kept.1, eq, same_refl c.name))
          | inr apart ↦ ground (arith, kept)
        ];
    bounded = v.bounded;
    pool = v.pool;
  }

-- `newConnection`, below 10^8 connections and on a server whose map is in order, succeeds: the new
-- connection is alive besides the old ones, the map stays in order, and connectEstablished of it is
-- given to the loop whose turn it is.
pub new_connection-Serves :
    (s : TcpServer) (live : Live) (connfd : ℕ)
    → Serves s live
    → s.next_conn_id < max_id
    → (io_loop : ℕ) × (t : TcpServer) × (new_connection s connfd ≡ some t)
      × Serves t (update live s.next_conn_id (some (newest s io_loop connfd)))
      × (t.given ≡ s.given ++ (io_loop, connect_established (newest s io_loop connfd)) ∷ [])
      × IsChoice s.thread_pool io_loop
unfolding new_connection
new_connection-Serves s live connfd v h =
    let (l, pool, e, turn, choice) = get_next_loop-HasNext s.thread_pool v.pool in
    (
      l,
      grown s live v l pool connfd,
      ground (arith, e),
      grown-Serves s live v l pool connfd h turn,
      refl,
      choice,
    )

-- `removeConnectionInLoop` of a connection that is alive, on a server whose map is in order, does
-- not fail its assertion: just that connection is alive no more, the map stays in order, and
-- connectDestroyed of it is given to its own loop.
pub remove_connection_in_loop-Serves :
    (s : TcpServer) (live : Live) (n : ℕ) (c : Connection)
    → Serves s live
    → live n ≡ some c
    → (t : TcpServer) × (remove_connection_in_loop s c ≡ some t)
      × Serves t (update live n none)
      × (t.given ≡ s.given ++ (c.io_loop, connect_destroyed c) ∷ [])
unfolding remove_connection_in_loop
remove_connection_in_loop-Serves s live n c v there =
    (shrunk s live v c, ground (arith, v.stored n c there), shrunk-Serves s live v n c there, refl)
