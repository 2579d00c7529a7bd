-- ===== src/Connector.antt =====
-- lotus_project/lotus/net/Connector.h and Connector.cc: the client's side of setting up a
-- connection, in its loop's thread. The new socket, connect's errno, SO_ERROR and the test for a
-- self-connection are arguments.
pub mod Backoff
pub mod States
pub mod Sockets
pub mod Restart
mod Tests
use network_lib.Base.{
  ℕ, suc, ◌+◌, ◌*◌, Bool, true, false, not, ◌&&◌, Option, none, some, List, [], ◌∷◌, min, ◌==◌,
  if◌then◌else◌, assert, ◌>>=◌, ◌>>◌,
}
use network_lib.Channels
use network_lib.Channels.{Channel, Epoll, enable_writing, disable_all, remove}

pub data State : Type 0 where
  disconnected connecting connected : State

-- connect(2)'s errno, as far as the source tells them apart; `success` is its returning 0.
pub data Errno : Type 0 where
  success einprogress eintr eisconn : Errno
  eagain eaddrinuse eaddrnotavail econnrefused enetunreach : Errno
  eacces eperm eafnosupport ealready ebadf efault enotsock other : Errno

abbrev pub max_retry_delay_ms : ℕ
max_retry_delay_ms = 30 * 1000

abbrev pub init_retry_delay_ms : ℕ
init_retry_delay_ms = 500

-- `timers` are the delays of the retries given to the loop, `resets` the queued calls of
-- resetChannel. The last three fields record what became of the sockets, newest first: created,
-- closed, and handed to the new-connection callback.
pub record Connector : Type 0 where
  pub connect : Bool
  pub state : State
  pub channel : Option Channel
  pub epoll : Epoll
  pub retry_delay_ms : ℕ
  pub timers : List ℕ
  pub resets : ℕ
  pub opened : List ℕ
  pub closed : List ℕ
  pub handed : List ℕ

unfoldable pub make : Epoll → Connector
make e = record {
  connect = false;
  state = disconnected;
  channel = none;
  epoll = e;
  retry_delay_ms = init_retry_delay_ms;
  timers = [];
  resets = 0;
  opened = [];
  closed = [];
  handed = [];
}

abbrev pub is_disconnected : State → Bool
is_disconnected disconnected = true
is_disconnected _ = false

abbrev pub is_connecting : State → Bool
is_connecting connecting = true
is_connecting _ = false

abbrev pub is_none : Option Channel → Bool
is_none none = true
is_none (some _) = false

pub close : Connector → ℕ → Connector
close c sockfd = record c { closed = sockfd ∷ c.closed }

pub retry : Connector → ℕ → Connector
unfolding close
retry c sockfd =
    let down = record (close c sockfd) { state = disconnected } in
    if down.connect
    then record down {
      timers = down.retry_delay_ms ∷ down.timers;
      retry_delay_ms = min (down.retry_delay_ms * 2) max_retry_delay_ms;
    }
    else down

unfoldable pub connecting_to : Connector → ℕ → Option Connector
unfolding Channels.make
connecting_to c sockfd =
    let fresh = record (Channels.make sockfd) { has_write = true; has_error = true } in
    let (ch, e) = enable_writing fresh c.epoll in
    (assert (is_none c.channel)
      >> some (record c { state = connecting; channel = some ch; epoll = e }))

unfoldable pub connect_result : Connector → ℕ → Errno → Option Connector
connect_result c sockfd success = connecting_to c sockfd
connect_result c sockfd einprogress = connecting_to c sockfd
connect_result c sockfd eintr = connecting_to c sockfd
connect_result c sockfd eisconn = connecting_to c sockfd
connect_result c sockfd eagain = some (retry c sockfd)
connect_result c sockfd eaddrinuse = some (retry c sockfd)
connect_result c sockfd eaddrnotavail = some (retry c sockfd)
connect_result c sockfd econnrefused = some (retry c sockfd)
connect_result c sockfd enetunreach = some (retry c sockfd)
connect_result c sockfd _ = some (close c sockfd)

unfoldable pub connect : Connector → ℕ → Errno → Option Connector
connect c sockfd errno = connect_result (record c { opened = sockfd ∷ c.opened }) sockfd errno

unfoldable pub start_in_loop : Connector → ℕ → Errno → Option Connector
start_in_loop c sockfd errno =
    let go = if c.connect then connect c sockfd errno else some c in
    (assert (is_disconnected c.state) >> go)

unfoldable pub start : Connector → ℕ → Errno → Option Connector
start c sockfd errno = start_in_loop (record c { connect = true }) sockfd errno

pub restart : Connector → ℕ → Errno → Option Connector
restart c sockfd errno =
    start_in_loop
      (record c { state = disconnected; retry_delay_ms = init_retry_delay_ms; connect = true })
      sockfd errno

-- The channel object itself goes later, in the queued resetChannel. A null `channel_` is a fault.
unfoldable pub remove_and_reset_channel : Connector → Option (ℕ × Connector)
remove_and_reset_channel c = elim c.channel [
  | none ↦ none
  | some ch ↦
      let (off, e) = disable_all ch c.epoll in
      (remove off e >>= λ f.
      some (off.fd, record c { channel = some off; epoll = f; resets = suc c.resets }))
]

unfoldable pub reset_channel : Connector → Connector
reset_channel c = record c { channel = none }

pub stop_in_loop : Connector → Option Connector
stop_in_loop c =
    let stopping : Option Connector = do
      (sockfd, d) ← remove_and_reset_channel (record c { state = disconnected })
      some (retry d sockfd)
    in if is_connecting c.state then stopping else some c

unfoldable pub stop : Connector → Option Connector
stop c = stop_in_loop (record c { connect = false })

unfoldable pub connection_made : Connector → ℕ → Connector
connection_made c sockfd =
    let up = record c { state = connected } in
    if up.connect then record up { handed = sockfd ∷ up.handed } else close up sockfd

unfoldable pub handle_write : Connector → ℕ → Bool → Option Connector
handle_write c so_error self_connect =
    let ready : Option Connector = do
      (sockfd, d) ← remove_and_reset_channel c
      some (
          if not (so_error == 0)
          then retry d sockfd
          else if self_connect
          then retry d sockfd
          else connection_made d sockfd)
    in let idle = assert (is_disconnected c.state) >> some c in
      if is_connecting c.state then ready else idle

pub handle_error : Connector → Option Connector
handle_error c = do
  assert (is_connecting c.state)
  (sockfd, d) ← remove_and_reset_channel c
  some (retry d sockfd)
