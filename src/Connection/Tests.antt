-- ===== src/Connection/Tests.antt =====
-- TcpConnection.cc: a connection with two bytes to send.
use network_lib.Base.{
  ℕ, suc, ◌≡◌, refl, true, false, Option, none, some, [], ◌∷◌, ◌++◌, replicate, arith,
}
use network_lib.Buffer.{Buffer}
use network_lib.Buffer.Valid.{IsValid}
use network_lib.Channels.{Channel, Epoll, Events, none_event, added, tie, enable_reading}
use network_lib.Channels
use network_lib.Channels.Dispatch.{Callbacks, on_write}
use network_lib.Connection.{
  Connection, connected, make, connect_established, send_in_loop, handle_write, wrote,
}
use network_lib.Connection.Quiet.{calls, expected}
use network_lib.Connection.Stream.{Streams, send_in_loop-Streams, handle_write-Streams}
use network_lib.Connection.Lifecycle.{Reach, Step, calls-Reach, on_write-Reach}

abbrev small : Buffer
small = record { buffer = replicate 8 0 ++ 1 ∷ 2 ∷ 0 ∷ 0 ∷ []; reader_index = 8; writer_index = 10 }

small-IsValid : IsValid small
small-IsValid = omega arith

abbrev room : Events
room = record none_event { epollin = true; epollout = true }

abbrev empty : Epoll
empty = record { interest = λ fd. none; capacity = 16 }

abbrev busy : Connection
busy = record {
  status = connected;
  channel = record {
    fd = 7;
    events = room;
    index = added;
    tied = true;
    event_handling = false;
    has_read = true;
    has_write = false;
    has_close = true;
    has_error = true;
  };
  epoll = empty;
  input_buffer = small;
  output_buffer = small;
  high_water_mark = 64;
  has_write_complete = true;
  has_high_water = false;
  sent = 9 ∷ [];
  trace = [];
}

send_in_loop-Streams_example :
    Streams (9 ∷ 1 ∷ 2 ∷ 3 ∷ 4 ∷ []) (send_in_loop busy (3 ∷ 4 ∷ []) (wrote 1))
send_in_loop-Streams_example =
    send_in_loop-Streams busy (3 ∷ 4 ∷ []) (wrote 1) (ground arith) small-IsValid (omega arith)
      (omega arith)

handle_write-Streams_example : Streams (9 ∷ 1 ∷ 2 ∷ []) (handle_write busy (wrote 1))
handle_write-Streams_example = handle_write-Streams busy (wrote 1) small-IsValid (omega arith)

-- A connection that the server has set up.
unwrap : Option Connection → Connection
unfolding make Channels.make
unwrap none = make 7 empty
unwrap (some c) = c

established : Connection
unfolding unwrap make Channels.make connect_established tie enable_reading
established = unwrap (connect_established (make 7 empty))

established-Reach : Reach (make 7 empty) established
unfolding established unwrap make Channels.make connect_established tie enable_reading
established-Reach = Reach.next Reach.here (Step.establishes refl)

calls-Reach_example : calls established.trace ≡ expected established.status
calls-Reach_example = calls-Reach 7 empty established established-Reach

-- Callbacks that count the events of room to write.
abbrev counting : Callbacks ℕ
counting = record { close = λ x. x; error = λ x. x; read = λ x. x; write = λ x. (x.0, suc x.1) }

on_write-Reach_example : on_write counting (established.channel, 0) ≡ (established.channel, 0)
on_write-Reach_example = on_write-Reach counting 0 7 empty established established-Reach
