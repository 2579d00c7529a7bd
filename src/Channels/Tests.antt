-- ===== src/Channels/Tests.antt =====
-- Channel.h and Epoll.cc: one channel and an empty interest list.
use network_lib.Base.{refl, true, false, none, inl}
use network_lib.Channels.{
  Channel, Epoll, none_event, new, enable_reading, enable_writing, disable_writing, disable_all,
}
use network_lib.Channels.Interest.{Watches, update-Watches}

abbrev fresh : Channel
fresh = record {
  fd = 7;
  events = none_event;
  index = new;
  tied = false;
  event_handling = false;
  has_read = true;
  has_write = true;
  has_close = false;
  has_error = false;
}

abbrev empty : Epoll
empty = record { interest = λ fd. none; capacity = 16 }

update-Watches_example :
    Watches (record none_event { epollin = true; epollpri = true }) (enable_reading fresh empty)
    × Watches (record none_event { epollout = true }) (enable_writing fresh empty)
    × Watches none_event (disable_writing fresh empty)
    × Watches none_event (disable_all fresh empty)
update-Watches_example = update-Watches fresh empty (inl (refl, refl))
