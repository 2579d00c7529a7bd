-- ===== src/Connector/Sockets.antt =====
-- Connector.cc: what becomes of the sockets that a connector creates.
use network_lib.Base.{
  count, ℕ, suc, ◌+◌, ◌-◌, ◌≡◌, ◌≢◌, ◌⊎◌, not, ◌||◌, refl, Bool, true, false, Option, none, some,
  List, [], ◌∷◌, arith, ◌==◌, Option-cases, Bool-cases, inl, inr,
}
use network_lib.Channels
use network_lib.Channels.{Channel, Epoll, enable_writing, disable_all, remove}
use network_lib.Connector.{
  Connector, State, disconnected, connecting, Errno, success, einprogress, eintr, eisconn, eagain,
  eaddrinuse, eaddrnotavail, econnrefused, enetunreach, make, retry, close, connecting_to,
  connect_result, connect, start_in_loop, start, restart, remove_and_reset_channel, reset_channel,
  stop_in_loop, stop, handle_write, handle_error, connection_made, is_connecting, is_none,
}

-- The socket that the connector is waiting for.
abbrev pub held_by : State → Option Channel → List ℕ
held_by connecting (some ch) = ch.fd ∷ []
held_by _ _ = []

abbrev pub held : Connector → List ℕ
held c = held_by c.state c.channel

-- Each socket that was created was closed, or handed to the callback, or is being waited for.
abbrev pub Accounted : Connector → Type 0
Accounted c =
    (fd : ℕ) → count fd c.opened ≡ count fd c.closed + count fd c.handed + count fd (held c)

-- The steps of a connector. `restarts` is left out while one attempt is under way: TcpClient calls
-- it when a connection has gone down.
pub data Step : Connector → Connector → Type 0 where
  starts : {c d : Connector} (fd : ℕ) (e : Errno) → start c fd e ≡ some d → Step c d
  retries : {c d : Connector} (fd : ℕ) (e : Errno) → start_in_loop c fd e ≡ some d → Step c d
  restarts :
      {c d : Connector} (fd : ℕ) (e : Errno)
      → c.state ≢ connecting
      → restart c fd e ≡ some d
      → Step c d
  stops : {c d : Connector} → stop c ≡ some d → Step c d
  resets :
      {c d : Connector}
      → c.resets ≢ 0
      → record (reset_channel c) { resets = c.resets - 1 } ≡ d
      → Step c d
  writes : {c d : Connector} (err : ℕ) (self : Bool) → handle_write c err self ≡ some d → Step c d
  fails : {c d : Connector} → handle_error c ≡ some d → Step c d

pub data Reach (c : Connector) : Connector → Type 0 where
  here : Reach c c
  next : {d e : Connector} → Reach c d → Step d e → Reach c e

pub record InOrder (c : Connector) : Type 0 where
  pub accounted : Accounted c
  pub waiting : c.state ≡ connecting → (c.resets ≡ 0) × (is_none c.channel ≡ false)
  pub pending : c.resets ≢ 0 → (c.resets ≡ 1) × (is_none c.channel ≡ false)

-- The books of a connector that has one more socket to account for.
abbrev Owes : Connector → ℕ → Type 0
Owes c fd = (x : ℕ) → count x c.opened ≡ count x c.closed + count x c.handed + count x (fd ∷ [])

retry-InOrder :
    (c : Connector) (fd : ℕ)
    → Owes c fd
    → (c.resets ≢ 0 → (c.resets ≡ 1) × (is_none c.channel ≡ false))
    → InOrder (retry c fd)
unfolding retry close
retry-InOrder c fd h p = record {
  accounted = λ x. ground (arith, h x);
  waiting = λ e. ground arith;
  pending = λ e. ground (arith, p);
}

connecting_to-InOrder :
    (c d : Connector) (fd : ℕ)
    → Owes c fd
    → (c.resets ≢ 0 → (c.resets ≡ 1) × (is_none c.channel ≡ false))
    → connecting_to c fd ≡ some d
    → InOrder d
unfolding connecting_to enable_writing Channels.make
connecting_to-InOrder c d fd h p e = record {
  accounted = λ x. ground (arith, h x);
  waiting = λ z. ground (arith, p);
  pending = λ z. ground (arith, p);
}

close-InOrder :
    (c : Connector) (fd : ℕ)
    → Owes c fd
    → c.state ≡ disconnected
    → (c.resets ≢ 0 → (c.resets ≡ 1) × (is_none c.channel ≡ false))
    → InOrder (close c fd)
unfolding close
close-InOrder c fd h s p = record {
  accounted = λ x. ground (arith, h x);
  waiting = λ z. ground arith;
  pending = λ z. ground (arith, p);
}

is_result : (c d : Connector) → InOrder c → some c ≡ some d → InOrder d
is_result c d l e = let same : d ≡ c = ground arith in rw same l

connect_result-InOrder :
    (c d : Connector) (fd : ℕ) (errno : Errno)
    → Owes c fd
    → c.state ≡ disconnected
    → (c.resets ≢ 0 → (c.resets ≡ 1) × (is_none c.channel ≡ false))
    → connect_result c fd errno ≡ some d
    → InOrder d
unfolding connect_result
connect_result-InOrder c d fd success h s p e = connecting_to-InOrder c d fd h p e
connect_result-InOrder c d fd einprogress h s p e = connecting_to-InOrder c d fd h p e
connect_result-InOrder c d fd eintr h s p e = connecting_to-InOrder c d fd h p e
connect_result-InOrder c d fd eisconn h s p e = connecting_to-InOrder c d fd h p e
connect_result-InOrder c d fd eagain h s p e = is_result (retry c fd) d (retry-InOrder c fd h p) e
connect_result-InOrder c d fd eaddrinuse h s p e =
    is_result (retry c fd) d (retry-InOrder c fd h p) e
connect_result-InOrder c d fd eaddrnotavail h s p e =
    is_result (retry c fd) d (retry-InOrder c fd h p) e
connect_result-InOrder c d fd econnrefused h s p e =
    is_result (retry c fd) d (retry-InOrder c fd h p) e
connect_result-InOrder c d fd enetunreach h s p e =
    is_result (retry c fd) d (retry-InOrder c fd h p) e
connect_result-InOrder c d fd _ h s p e = is_result (close c fd) d (close-InOrder c fd h s p) e

start_in_loop-InOrder :
    (c d : Connector) (fd : ℕ) (errno : Errno)
    → InOrder c
    → start_in_loop c fd errno ≡ some d
    → InOrder d
unfolding start_in_loop connect
start_in_loop-InOrder c d fd errno l e = elim (Bool-cases c.connect) [
  | inl on ↦
      connect_result-InOrder (record c { opened = fd ∷ c.opened }) d fd errno
        (λ x. ground (arith, l.accounted x)) (ground arith) l.pending (ground arith)
  | inr off ↦ is_result c d l (ground arith)
]

-- The socket of the channel that goes is the one that was being waited for.
remove_and_reset_channel_lem :
    (c d : Connector) (fd : ℕ)
    → remove_and_reset_channel c ≡ some (fd, d)
    → (ch : Channel) × (c.channel ≡ some ch)
      × (fd ≡ ch.fd)
      × (d.opened ≡ c.opened)
      × (d.closed ≡ c.closed)
      × (d.handed ≡ c.handed)
      × (d.resets ≡ suc c.resets)
      × (is_none d.channel ≡ false)
unfolding remove_and_reset_channel remove disable_all
remove_and_reset_channel_lem c d fd e = elim (Option-cases c.channel) [
  | inl none_there ↦ absurd (ground arith)
  | inr (ch, there) ↦ (
    ch,
    there,
    ground arith,
    ground arith,
    ground arith,
    ground arith,
    ground arith,
    ground arith,
  )
]

-- A waiting connector whose channel goes owes that channel's socket.
goes_Owes :
    (c d : Connector) (fd : ℕ) (s : State)
    → InOrder c
    → c.state ≡ connecting
    → remove_and_reset_channel (record c { state = s }) ≡ some (fd, d)
    → Owes d fd × (d.resets ≢ 0 → (d.resets ≡ 1) × (is_none d.channel ≡ false))
goes_Owes c d fd s l w e =
    let (ch, there, f, o, k, h, n, z) =
      remove_and_reset_channel_lem (record c { state = s }) d fd e in
    (λ x. ground (arith, l.accounted x), λ y. ground (arith, l.waiting))

-- A result of two parts splits.
goes_cases :
    (c : Connector)
    → (remove_and_reset_channel c ≡ none)
      ⊎ ((fd : ℕ) × (d : Connector) × (remove_and_reset_channel c ≡ some (fd, d)))
goes_cases c = elim (Option-cases (remove_and_reset_channel c)) [
  | inl e ↦ inl e
  | inr ((fd, d), e) ↦ inr (fd, d, e)
]

stop-InOrder : (c d : Connector) → InOrder c → stop c ≡ some d → InOrder d
unfolding stop stop_in_loop
stop-InOrder c d l e = elim (Bool-cases (is_connecting c.state)) [
  | inr idle ↦
      is_result (record c { connect = false }) d
        (record { accounted = l.accounted; waiting = l.waiting; pending = l.pending })
        (ground arith)
  | inl busy ↦
      let quiet : Connector = record c { connect = false } in
      let ready : InOrder quiet = record {
        accounted = l.accounted;
        waiting = l.waiting;
        pending = l.pending;
      } in
      elim (goes_cases (record quiet { state = disconnected })) [
        | inl fault ↦ absurd (ground arith)
        | inr (fd, g, f) ↦
            let (o, p) = goes_Owes quiet g fd disconnected ready (ground arith) f in
            is_result (retry g fd) d (retry-InOrder g fd o p) (ground arith)
      ]
]

handle_error-InOrder : (c d : Connector) → InOrder c → handle_error c ≡ some d → InOrder d
unfolding handle_error
handle_error-InOrder c d l e = elim (goes_cases c) [
  | inl fault ↦ absurd (ground arith)
  | inr (fd, g, f) ↦
      let (o, p) = goes_Owes c g fd c.state l (ground arith) f in
      is_result (retry g fd) d (retry-InOrder g fd o p) (ground arith)
]

connection_made-InOrder :
    (c : Connector) (fd : ℕ)
    → Owes c fd
    → (c.resets ≢ 0 → (c.resets ≡ 1) × (is_none c.channel ≡ false))
    → InOrder (connection_made c fd)
unfolding connection_made close
connection_made-InOrder c fd h p = record {
  accounted = λ x. ground (arith, h x);
  waiting = λ z. ground arith;
  pending = λ z. ground (arith, p);
}

handle_write-InOrder :
    (c d : Connector) (err : ℕ) (self : Bool)
    → InOrder c
    → handle_write c err self ≡ some d
    → InOrder d
unfolding handle_write
handle_write-InOrder c d err self l e = elim (Bool-cases (is_connecting c.state)) [
  | inr idle ↦ is_result c d l (ground arith)
  | inl busy ↦ elim (goes_cases c) [
    | inl fault ↦ absurd (ground arith)
    | inr (fd, g, f) ↦
        let (o, p) = goes_Owes c g fd c.state l (ground arith) f in
        elim (Bool-cases (not (err == 0) || self)) [
          | inl failed ↦ is_result (retry g fd) d (retry-InOrder g fd o p) (ground arith)
          | inr made ↦
              is_result (connection_made g fd) d (connection_made-InOrder g fd o p) (ground arith)
        ]
  ]
]

Step-InOrder : {c d : Connector} → Step c d → InOrder c → InOrder d
unfolding start restart reset_channel
Step-InOrder {c} {d} (starts fd e h) l =
    start_in_loop-InOrder (record c { connect = true }) d fd e
      (record { accounted = l.accounted; waiting = l.waiting; pending = l.pending }) h
Step-InOrder {c} {d} (retries fd e h) l = start_in_loop-InOrder c d fd e l h
Step-InOrder {c} {d} (restarts fd e ne h) l =
    start_in_loop-InOrder _ d fd e
      (record {
        accounted = λ x. ground (arith, l.accounted x);
        waiting = λ z. ground arith;
        pending = l.pending;
      })
      h
Step-InOrder {c} {d} (stops h) l = stop-InOrder c d l h
Step-InOrder {c} {d} (resets ne h) l = rw (← h) (record {
  accounted = λ x. ground (arith, l.accounted x, l.waiting);
  waiting = λ z. ground (arith, l.waiting);
  pending = λ z. ground (arith, l.pending);
})
Step-InOrder {c} {d} (writes err self h) l = handle_write-InOrder c d err self l h
Step-InOrder {c} {d} (fails h) l = handle_error-InOrder c d l h

Reach-InOrder : {c d : Connector} → InOrder c → Reach c d → InOrder d
Reach-InOrder l here = l
Reach-InOrder l (next r s) = Step-InOrder s (Reach-InOrder l r)

make-InOrder : (e : Epoll) → InOrder (make e)
unfolding make
make-InOrder e = record {
  accounted = λ x. refl;
  waiting = λ z. ground arith;
  pending = λ z. ground arith;
}

-- No sequence of the steps, from a new connector, leaks a socket or closes one twice: each socket
-- was closed as often as it was created, or else handed to the new-connection callback or still
-- being waited for; and while the connector waits it has its channel, whose removal is not under
-- way.
pub Reach-make-InOrder : (e : Epoll) (c : Connector) → Reach (make e) c → InOrder c
Reach-make-InOrder e c r = Reach-InOrder (make-InOrder e) r
