-- ===== src/TcpClient/Sessions.antt =====
-- TcpClient.cc: the client's steps, each of which is at most one step of its connector.
use network_lib.Base.{
  ℕ, suc, ◌-◌, ◌<◌, ◌≡◌, ◌≢◌, ◌⊎◌, inl, inr, refl, ap, Bool, false, ◌&&◌, none, some, List, [], ◌∷◌,
  length, arith, Option-cases, Bool-cases, ltb,
}
use network_lib.Channels.{Epoll}
use network_lib.Connector as Connectors
use network_lib.Connector.{Connector, Errno, connecting, connected, disconnected}
use network_lib.Connector.States.{
  start-disconnected, start_in_loop-disconnected, start-busy, stop-connected,
  handle_error-connecting, handle_write_cases,
}
use network_lib.Connector.Sockets
use network_lib.Connector.Sockets.{InOrder, Reach-make-InOrder}
use network_lib.InetAddress.{InetAddress}
use network_lib.TcpClient.{
  Connection, TcpClient, make, enable_retry, connect, disconnect, stop, new_connection,
  remove_connection, handle_write, deliver,
}

-- The steps of a client in its loop: the calls of its user, the end of its connection, and the
-- events of its connector: a retry timer, the queued resetChannel, and an event of the socket.
pub data Step : TcpClient → TcpClient → Type 0 where
  connects : {c d : TcpClient} (fd : ℕ) (e : Errno) → connect c fd e ≡ some d → Step c d
  disconnects : {c : TcpClient} → Step c (disconnect c)
  stops : {c d : TcpClient} → stop c ≡ some d → Step c d
  enables : {c : TcpClient} → Step c (enable_retry c)
  removes :
      {c d : TcpClient} (p : Connection) (fd : ℕ) (e : Errno)
      → remove_connection c p fd e ≡ some d
      → Step c d
  retries :
      {c : TcpClient} {k : Connector} (fd : ℕ) (e : Errno)
      → Connectors.start_in_loop c.connector fd e ≡ some k
      → Step c (record c { connector = k })
  resets :
      {c : TcpClient}
      → c.connector.resets ≢ 0
      → Step c (record c {
        connector = record (Connectors.reset_channel c.connector) {
          resets = c.connector.resets - 1;
        };
      })
  writes :
      {c d : TcpClient} (err : ℕ) (self : Bool) (peer_addr : InetAddress)
      → handle_write c err self peer_addr ≡ some d
      → Step c d
  fails :
      {c : TcpClient} {k : Connector}
      → Connectors.handle_error c.connector ≡ some k
      → Step c (record c { connector = k })

pub data Reach (c : TcpClient) : TcpClient → Type 0 where
  here : Reach c c
  next : {d e : TcpClient} → Reach c d → Step d e → Reach c e

-- While the client has a connection, its connector rests in the state in which it made it.
abbrev pub Rests : TcpClient → Type 0
Rests c = c.connection ≢ none → c.connector.state ≡ connected

-- What a step does to the connector, and that it keeps `Rests`.
abbrev Follows : TcpClient → TcpClient → Type 0
Follows c d =
    ((d.connector ≡ c.connector) ⊎ Connectors.Sockets.Step c.connector d.connector) × Rests d

deliver_lem :
    (c d : TcpClient) (handed : List ℕ) (old : ℕ) (peer : InetAddress)
    → deliver c handed old peer ≡ some d
    → (d.connector ≡ c.connector) × ((d.connection ≡ c.connection) ⊎ (old < length handed))
unfolding new_connection
deliver_lem c d [] old peer h = (ground arith, inl (ground arith))
deliver_lem c d (fd ∷ rest) old peer h = elim (Bool-cases (ltb old (suc (length rest)))) [
  | inl new ↦ (ground arith, inr (ground arith))
  | inr same ↦ (ground arith, inl (ground arith))
]

connect-Follows :
    (c d : TcpClient) (fd : ℕ) (e : Errno) → Rests c → connect c fd e ≡ some d → Follows c d
unfolding connect
connect-Follows c d fd e r h = elim (Option-cases (Connectors.start c.connector fd e)) [
  | inl fault ↦ absurd (ground arith)
  | inr (k, s) ↦
      let at : d.connector ≡ k = ground arith in
      let was = start-disconnected c.connector k fd e s in
      (inr (rw at (Connectors.Sockets.Step.starts fd e s)), λ there. ground (arith, r, was))
]

stop-Follows : (c d : TcpClient) → Rests c → stop c ≡ some d → Follows c d
unfolding stop
stop-Follows c d r h = elim (Option-cases (Connectors.stop c.connector)) [
  | inl fault ↦ absurd (ground arith)
  | inr (k, s) ↦
      let at : d.connector ≡ k = ground arith in
      (
        inr (rw at (Connectors.Sockets.Step.stops s)),
        λ there. ground (arith, r, stop-connected c.connector k s),
      )
]

remove_connection-Follows :
    (c d : TcpClient) (p : Connection) (fd : ℕ) (e : Errno)
    → Rests c
    → remove_connection c p fd e ≡ some d
    → Follows c d
unfolding remove_connection
remove_connection-Follows c d p fd e r h = elim (Bool-cases (c.retry && c.connect)) [
  | inr rests ↦ (inl (ground arith), λ there. ground arith)
  | inl again ↦ elim (Option-cases (Connectors.restart c.connector fd e)) [
    | inl fault ↦ absurd (ground arith)
    | inr (k, s) ↦
        let at : d.connector ≡ k = ground arith in
        let idle : c.connector.state ≢ connecting = ground (arith, r) in
        (inr (rw at (Connectors.Sockets.Step.restarts fd e idle s)), λ there. ground arith)
  ]
]

handle_write-Follows :
    (c d : TcpClient) (err : ℕ) (self : Bool) (peer : InetAddress)
    → Rests c
    → handle_write c err self peer ≡ some d
    → Follows c d
unfolding handle_write
handle_write-Follows c d err self peer r h =
    elim (Option-cases (Connectors.handle_write c.connector err self)) [
      | inl fault ↦ absurd (ground arith)
      | inr (k, s) ↦
          let (was, ends) = handle_write_cases c.connector k err self s in
          let (at, made) =
            deliver_lem (record c { connector = k }) d k.handed (length c.connector.handed) peer
              (ground arith) in
          (
            inr (rw at (Connectors.Sockets.Step.writes err self s)),
            λ there. elim ends [
              | inr (up, fd, one) ↦ ground (arith, at, up)
              | inl same ↦ elim made [
                | inl kept ↦ absurd (ground (arith, r, kept, there, was))
                | inr grew ↦ absurd (omega (arith, ap length same, grew))
              ]
            ],
          )
    ]

Step-Follows : {c d : TcpClient} → Step c d → Rests c → Follows c d
unfolding disconnect enable_retry Connectors.reset_channel
Step-Follows {c} {d} (connects fd e h) r = connect-Follows c d fd e r h
Step-Follows {c} {d} disconnects r = elim (Option-cases c.connection) [
  | inl free ↦ (inl (ground arith), λ there. ground arith)
  | inr (p, held) ↦ (inl (ground arith), λ there. ground (arith, r))
]
Step-Follows {c} {d} (stops h) r = stop-Follows c d r h
Step-Follows enables r = (inl refl, r)
Step-Follows {c} {d} (removes p fd e h) r = remove_connection-Follows c d p fd e r h
Step-Follows {c} {d} (retries {k = k} fd e h) r =
    let was = start_in_loop-disconnected c.connector k fd e h in
    (inr (Connectors.Sockets.Step.retries fd e h), λ there. ground (arith, r, was))
Step-Follows {c} {d} (resets ne) r = (inr (Connectors.Sockets.Step.resets ne refl), r)
Step-Follows {c} {d} (writes err self peer h) r = handle_write-Follows c d err self peer r h
Step-Follows {c} {d} (fails {k = k} h) r =
    let was = handle_error-connecting c.connector k h in
    (inr (Connectors.Sockets.Step.fails h), λ there. ground (arith, r, was))

Reach-Follows :
    {k : Connector} {c d : TcpClient}
    → Reach c d
    → Rests c
    → Connectors.Sockets.Reach k c.connector
    → Rests d × Connectors.Sockets.Reach k d.connector
Reach-Follows here r reached = (r, reached)
Reach-Follows (next {d = m} path step) r reached =
    let (rests, before) = Reach-Follows path r reached in
    let (moves, after) = Step-Follows step rests in
    (
      after,
      elim moves [ inl same ↦ rw same before | inr one ↦ Connectors.Sockets.Reach.next before one ],
    )

-- A client uses its connector as the connector has to be used: whatever its user calls and its loop
-- runs, no socket of the connector leaks or is closed twice, and while the client has a connection
-- the connector is connected, so that `restart` never comes during an attempt.
pub Reach-make-Rests :
    (e : Epoll) (name : List ℕ) (c : TcpClient)
    → Reach (make (Connectors.make e) name) c
    → InOrder c.connector × (c.connection ≢ none → c.connector.state ≡ connected)
unfolding make
Reach-make-Rests e name c path =
    let (rests, reached) =
      Reach-Follows path (λ there. absurd (there refl)) Connectors.Sockets.Reach.here in
    (Reach-make-InOrder e c.connector reached, rests)

-- When the connection of a client has closed and the client does not reconnect by itself, its
-- connector still counts as connected: the next `connect` fails the connector's assertion.
pub connect-remove_connection :
    (e : Epoll) (name : List ℕ) (c d : TcpClient) (p : Connection) (fd later : ℕ)
    (errno last : Errno)
    → Reach (make (Connectors.make e) name) c
    → (c.retry && c.connect) ≡ false
    → remove_connection c p fd errno ≡ some d
    → connect d later last ≡ none
unfolding remove_connection connect
connect-remove_connection e name c d p fd later errno last path still h =
    let rests = (Reach-make-Rests e name c path).1 in
    let up : d.connector.state ≢ disconnected = ground (arith, rests) in
    rw (start-busy d.connector later last up)
