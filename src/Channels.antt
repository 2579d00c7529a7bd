-- ===== src/Channels.antt =====
-- lotus_project/lotus/net/Channel.h, Channel.cc and Epoll.cc: a file descriptor's channel, and the
-- kernel's interest list that the poller keeps for it.
pub mod Dispatch
pub mod Interest
mod Tests
use network_lib.Base.{
  ℕ, ◌*◌, Bool, true, false, not, ◌&&◌, ◌||◌, Option, none, some, List, [], ◌∷◌, ◌++◌, length, ◌==◌,
  if◌then◌else◌, update, assert, ◌>>=◌, ◌>>◌,
}

-- An epoll event mask: the bits that the source sets or tests.
pub record Events : Type 0 where
  pub epollin : Bool
  pub epollpri : Bool
  pub epollout : Bool
  pub epollerr : Bool
  pub epollhup : Bool
  pub epollrdhup : Bool

abbrev pub none_event : Events
none_event = record {
  epollin = false;
  epollpri = false;
  epollout = false;
  epollerr = false;
  epollhup = false;
  epollrdhup = false;
}

-- `kNew` and `kAdded`
pub data Index : Type 0 where
  new added : Index

-- `events_` is one field for the events watched and for those returned. For each callback the
-- record says whether it is set; `tied` says whether `tie_` is.
pub record Channel : Type 0 where
  pub fd : ℕ
  pub events : Events
  pub index : Index
  pub tied : Bool
  pub event_handling : Bool
  pub has_read : Bool
  pub has_write : Bool
  pub has_close : Bool
  pub has_error : Bool

unfoldable pub make : ℕ → Channel
make fd = record {
  fd = fd;
  events = none_event;
  index = new;
  tied = false;
  event_handling = false;
  has_read = false;
  has_write = false;
  has_close = false;
  has_error = false;
}

-- `interest` is the kernel's list for `epollfd_`, by descriptor; `capacity` the size of `events_`.
pub record Epoll : Type 0 where
  pub interest : ℕ → Option Events
  pub capacity : ℕ

abbrev pub is_none_event : Channel → Bool
is_none_event c = not (
    c.events.epollin || c.events.epollpri || c.events.epollout || c.events.epollerr
    || c.events.epollhup || c.events.epollrdhup)

abbrev pub is_writing : Channel → Bool
is_writing c = c.events.epollout

-- epoll_ctl: adding what is there (EEXIST) and modifying what is not (ENOENT) fail, and the source
-- does not look at the result.
epoll_add : Epoll → ℕ → Events → Epoll
epoll_add e fd events = elim (e.interest fd) [
  | none ↦ record e { interest = update e.interest fd (some events) }
  | some _ ↦ e
]

epoll_mod : Epoll → ℕ → Events → Epoll
epoll_mod e fd events = elim (e.interest fd) [
  | none ↦ e
  | some _ ↦ record e { interest = update e.interest fd (some events) }
]

epoll_update : Index → Channel → Epoll → Channel × Epoll
epoll_update new c e = (record c { index = added }, epoll_add e c.fd c.events)
epoll_update added c e = (c, epoll_mod e c.fd c.events)

pub epoll_remove : Channel → Epoll → Epoll
epoll_remove c e = record e { interest = update e.interest c.fd none }

-- `Channel::update`, which goes through EventLoop::updateChannel to Epoll::update.
pub update_channel : Channel → Epoll → Channel × Epoll
unfolding epoll_update epoll_add epoll_mod
update_channel c e = epoll_update c.index c e

unfoldable pub enable_reading : Channel → Epoll → Channel × Epoll
unfolding update_channel
enable_reading c e =
    update_channel (record c { events = record watched { epollin = true; epollpri = true } }) e
  where
    watched : Events
    watched = c.events

unfoldable pub enable_writing : Channel → Epoll → Channel × Epoll
unfolding update_channel
enable_writing c e = update_channel (record c { events = record watched { epollout = true } }) e
  where
    watched : Events
    watched = c.events

unfoldable pub disable_writing : Channel → Epoll → Channel × Epoll
unfolding update_channel
disable_writing c e = update_channel (record c { events = record watched { epollout = false } }) e
  where
    watched : Events
    watched = c.events

unfoldable pub disable_all : Channel → Epoll → Channel × Epoll
unfolding update_channel
disable_all c e = update_channel (record c { events = none_event }) e

-- `Channel::remove` asserts that nothing is watched.
unfoldable pub remove : Channel → Epoll → Option Epoll
unfolding epoll_remove
remove c e = assert (is_none_event c) >> some (epoll_remove c e)

unfoldable pub tie : Channel → Channel
tie c = record c { tied = true }

-- `set_events`, by which `Epoll::poll` stores what epoll_wait returned for the channel.
unfoldable pub set_events : Channel → Events → Channel
set_events c ready = record c { events = ready }

-- `Epoll::poll`: epoll_wait returned these channels, each with its ready events. The channels are
-- returned as they become active, and the vector for the next round doubles when it was full.
pub active_channels : List (Channel × Events) → List Channel
unfolding set_events
active_channels [] = []
active_channels ((c, ready) ∷ rest) = set_events c ready ∷ active_channels rest

unfoldable pub poll : Epoll → List (Channel × Events) → List Channel × Epoll
unfolding active_channels
poll e [] = ([], e)
poll e (x ∷ xs) = (
  active_channels (x ∷ xs),
  record e { capacity = if length (x ∷ xs) == e.capacity then e.capacity * 2 else e.capacity },
)
