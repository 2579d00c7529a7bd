-- ===== src/Channels/Interest.antt =====
-- Channel.h and Epoll.cc: what the kernel watches for a channel.
use network_lib.Base.{true, false, none, some, ◌≡◌, ◌≢◌, ◌⊎◌, inl, inr, arith}
use network_lib.Channels.{
  Channel, Epoll, Events, new, added, none_event, enable_reading, enable_writing, disable_writing,
  disable_all, set_events, remove,
}

-- The channel is marked as added exactly if the kernel has its descriptor.
abbrev pub IsTracked : Channel → Epoll → Type 0
IsTracked c e =
    ((c.index ≡ new) × (e.interest c.fd ≡ none)) ⊎ ((c.index ≡ added) × (e.interest c.fd ≢ none))

-- A channel and a poller that watches for it just what it holds.
abbrev pub Watches : Events → Channel × Epoll → Type 0
Watches events r = (r.0.events ≡ events) × (r.1.interest r.0.fd ≡ some events) × IsTracked r.0 r.1

-- For a channel whose index is kNew while the kernel does not have its descriptor, or kAdded while it
-- has it: after each of the four changes of what is watched, the kernel watches just what the channel
-- holds, and the index is kAdded. (After Epoll::remove the index does not fit any more.)
pub update-Watches :
    (c : Channel) (e : Epoll)
    → IsTracked c e
    → Watches (record (c.events) { epollin = true; epollpri = true }) (enable_reading c e)
      × Watches (record (c.events) { epollout = true }) (enable_writing c e)
      × Watches (record (c.events) { epollout = false }) (disable_writing c e)
      × Watches none_event (disable_all c e)
unfolding enable_reading enable_writing disable_writing disable_all
update-Watches c e (inl (i, k)) = (ground arith, ground arith, ground arith, ground arith)
update-Watches c e (inr (i, k)) = (ground arith, ground arith, ground arith, ground arith)

-- `poll` stores the returned events over the watched ones, so that disableWriting leaves the kernel
-- watching what was returned, less EPOLLOUT: where EPOLLIN was watched and was not among the events
-- returned, it is watched no more.
set_events-disable_writing :
    (c : Channel) (e : Epoll) (ready : Events)
    → IsTracked c e
    → let (d, f) = disable_writing (set_events c ready) e in
      (f.interest d.fd ≡ some (record ready { epollout = false }))
      × (ready.epollin ≡ false
          → (watched : Events) → f.interest d.fd ≡ some watched
          → watched.epollin ≡ false)
unfolding disable_writing set_events
set_events-disable_writing c e ready (inl (i, k)) = (ground arith, λ z w h. ground arith)
set_events-disable_writing c e ready (inr (i, k)) = (ground arith, λ z w h. ground arith)

-- `remove` leaves the channel marked as added: enabling it afterwards asks the kernel to modify an
-- entry that is gone, and nothing is watched.
remove-enable_reading :
    (c : Channel) (e f : Epoll)
    → c.index ≡ added
    → remove c e ≡ some f
    → (enable_reading c f).1.interest c.fd ≡ none
unfolding enable_reading remove
remove-enable_reading c e f i h = ground arith
