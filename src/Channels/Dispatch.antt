-- ===== src/Channels/Dispatch.antt =====
-- lotus_project/lotus/net/Channel.cc: handleEvent calls the callbacks that the returned events ask
-- for.
use network_lib.Base.{Bool, true, false, not, ◌&&◌, ◌||◌, if◌then◌else◌}
use network_lib.Channels.{Channel}

-- The owner's callbacks, which may change its state and, by way of it, the channel itself.
pub record Callbacks (S : Type 0) : Type 0 where
  pub close : Channel × S → Channel × S
  pub error : Channel × S → Channel × S
  pub read : Channel × S → Channel × S
  pub write : Channel × S → Channel × S

module _ {S : Type 0} (cb : Callbacks S) where
  -- The tests read `events_` anew after each callback.
  unfoldable pub on_close : Channel × S → Channel × S
  on_close (c, s) =
      if c.events.epollhup && not c.events.epollin && c.has_close then cb.close (c, s) else (c, s)

  unfoldable pub on_error : Channel × S → Channel × S
  on_error (c, s) = if c.events.epollerr && c.has_error then cb.error (c, s) else (c, s)

  unfoldable pub on_read : Channel × S → Channel × S
  on_read (c, s) =
      if (c.events.epollin || c.events.epollpri || c.events.epollrdhup) && c.has_read
      then cb.read (c, s)
      else (c, s)

  unfoldable pub on_write : Channel × S → Channel × S
  on_write (c, s) = if c.events.epollout && c.has_write then cb.write (c, s) else (c, s)

  unfoldable pub handle_event_with_guard : Channel × S → Channel × S
  handle_event_with_guard (c, s) =
      let (d, t) =
        on_write (on_read (on_error (on_close (record c { event_handling = true }, s)))) in
      (record d { event_handling = false }, t)

  -- `owner_alive` is whether `tie_.lock()` gives the owner.
  unfoldable pub handle_event : Bool → Channel × S → Channel × S
  handle_event owner_alive (c, s) =
      if c.tied && not owner_alive then (c, s) else handle_event_with_guard (c, s)
