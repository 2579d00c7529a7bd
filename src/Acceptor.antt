-- ===== src/Acceptor.antt =====
-- lotus_project/lotus/net/Acceptor.h and Acceptor.cc: the listening socket. What accept and open
-- return are arguments.
pub mod Descriptors
mod Tests
use network_lib.Base.{
  ℕ, Bool, true, false, Option, none, some, List, [], ◌∷◌, ltb, if◌then◌else◌, assert, ◌>>=◌, ◌>>◌,
}
use network_lib.Channels
use network_lib.Channels.{Channel, Epoll, enable_reading}

-- accept(2): a descriptor, or an errno, which the source compares with EMFILE.
pub data Accepted : Type 0 where
  accepted : ℕ → Accepted
  emfile other_error : Accepted

-- In `idle_fd`, `none` is the -1 of a failed call. The last three fields record what became of the
-- descriptors, newest first: those that accept and open returned, those that were closed, and those
-- handed to the new-connection callback.
pub record Acceptor : Type 0 where
  pub fd : ℕ
  pub accept_channel : Channel
  pub epoll : Epoll
  pub listening : Bool
  pub idle_fd : Option ℕ
  pub has_callback : Bool
  pub opened : List ℕ
  pub closed : List ℕ
  pub handed : List ℕ

abbrev pub push : Option ℕ → List ℕ → List ℕ
push none xs = xs
push (some x) xs = x ∷ xs

-- `idle` is what opening /dev/null returns.
unfoldable pub make : ℕ → Option ℕ → Epoll → Acceptor
unfolding Channels.make
make fd idle e = record {
  fd = fd;
  accept_channel = record (Channels.make fd) { has_read = true };
  epoll = e;
  listening = false;
  idle_fd = idle;
  has_callback = false;
  opened = push idle [];
  closed = [];
  handed = [];
}

unfoldable pub set_new_connection_callback : Acceptor → Acceptor
set_new_connection_callback a = record a { has_callback = true }

pub listen : Acceptor → Option Acceptor
listen a =
    let (ch, e) = enable_reading a.accept_channel a.epoll in
    (assert (ltb 0 a.fd) >> some (record a { listening = true; accept_channel = ch; epoll = e }))

-- `::close(idleFd_)`; closing -1 does nothing.
pub close_idle : Acceptor → Acceptor
close_idle a = record a { closed = push a.idle_fd a.closed }

-- `idleFd_` gets what a call returned.
pub set_idle : Acceptor → Option ℕ → Acceptor
set_idle a got = record a { idle_fd = got; opened = push got a.opened }

-- With no descriptor left the spare one is given up, to accept and drop the connection, and then
-- opened again; `second` and `reopened` are what these two calls return.
unfoldable pub handle_read : Acceptor → Accepted → Option ℕ → Option ℕ → Acceptor
unfolding close_idle set_idle
handle_read a (accepted connfd) second reopened =
    let known = record a { opened = connfd ∷ a.opened } in
    if a.has_callback
    then record known { handed = connfd ∷ a.handed }
    else record known { closed = connfd ∷ a.closed }
handle_read a emfile second reopened =
    set_idle (close_idle (set_idle (close_idle a) second)) reopened
handle_read a other_error second reopened = a
