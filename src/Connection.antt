-- ===== src/Connection.antt =====
-- lotus_project/lotus/net/TcpConnection.h and TcpConnection.cc: one connection, in its loop's
-- thread. What read(2) and write(2) return is an argument. The user's callbacks and the functors
-- given to the loop are noted in `trace`, in order.
pub mod Stream
pub mod Quiet
pub mod Lifecycle
mod Tests
use network_lib.Base.{
  ℕ, ◌+◌, ◌*◌, Bool, true, false, not, ◌&&◌, ◌||◌, Option, none, some, List, [], ◌∷◌, ◌++◌, length,
  take, drop, ltb, leb, ◌==◌, if◌then◌else◌, assert, ◌>>=◌, ◌>>◌, add_size, sub_size,
}
use network_lib.Buffer
use network_lib.Buffer.{Buffer, readable_bytes}
use network_lib.Buffer.Fd.{Readv, failed, got, read_fd}
use network_lib.Channels.{
  Channel, Epoll, is_writing, enable_reading, enable_writing, disable_writing, disable_all, remove,
  tie,
}
use network_lib.Channels

pub data Status : Type 0 where
  disconnected connecting connected disconnecting : Status

pub data Effect : Type 0 where
  connection_callback message_callback close_callback : Effect
  queued_write_complete shutdown_write error_logged : Effect
  queued_high_water : ℕ → Effect
  queued_send : List ℕ → Effect

-- `sent` is what the kernel has taken so far, byte by byte.
pub record Connection : Type 0 where
  pub status : Status
  pub channel : Channel
  pub epoll : Epoll
  pub input_buffer : Buffer
  pub output_buffer : Buffer
  pub high_water_mark : ℕ
  pub has_write_complete : Bool
  pub has_high_water : Bool
  pub sent : List ℕ
  pub trace : List Effect

-- write(2): the number of bytes taken, or its errno.
pub data WriteError : Type 0 where
  would_block broken_pipe other_error : WriteError

pub data Written : Type 0 where
  wrote : ℕ → Written
  write_failed : WriteError → Written

abbrev pub note : Connection → Effect → Connection
note c x = record c { trace = c.trace ++ x ∷ [] }

abbrev pub set_channel : Connection → Channel × Epoll → Connection
set_channel c (ch, e) = record c { channel = ch; epoll = e }

abbrev pub is_connected : Status → Bool
is_connected connected = true
is_connected _ = false

abbrev pub is_disconnected : Status → Bool
is_disconnected disconnected = true
is_disconnected _ = false

abbrev pub is_connecting : Status → Bool
is_connecting connecting = true
is_connecting _ = false

abbrev pub is_disconnecting : Status → Bool
is_disconnecting disconnecting = true
is_disconnecting _ = false

-- The constructor. It sets the channel's read, close and error callbacks.
pub make : ℕ → Epoll → Connection
unfolding Channels.make
make fd e = record {
  status = connecting;
  channel = record (Channels.make fd) { has_read = true; has_close = true; has_error = true };
  epoll = e;
  input_buffer = Buffer.make;
  output_buffer = Buffer.make;
  high_water_mark = 64 * 1024 * 1024;
  has_write_complete = false;
  has_high_water = false;
  sent = [];
  trace = [];
}

-- The setters that TcpServer and the user call.
pub set_write_complete_callback : Connection → Connection
set_write_complete_callback c = record c { has_write_complete = true }

pub set_high_water_mark_callback : Connection → ℕ → Connection
set_high_water_mark_callback c mark = record c { has_high_water = true; high_water_mark = mark }

pub connect_established : Connection → Option Connection
connect_established c = do
  assert (is_connecting c.status)
  let up = record c { status = connected; channel = tie c.channel }
  let watching = set_channel up (enable_reading up.channel up.epoll)
  some (note watching connection_callback)

pub connect_destroyed : Connection → Option Connection
connect_destroyed c =
    let down = record c { status = disconnected } in
    let quiet = note (set_channel down (disable_all down.channel down.epoll)) connection_callback in
    let last = if is_connected c.status then quiet else c in
    (remove last.channel last.epoll >>= λ e. some (record last { epoll = e }))

pub handle_close : Connection → Option Connection
handle_close c = do
  assert (is_connected c.status || is_disconnecting c.status)
  let down = record c { status = disconnected }
  let quiet = set_channel down (disable_all down.channel down.epoll)
  some (note (note quiet connection_callback) close_callback)

pub handle_error : Connection → Connection
handle_error c = note c error_logged

-- The bytes are in the buffer before the sign of readFd's result is looked at.
pub after_read : Connection → Readv → Option Connection
after_read c (failed e) = some (handle_error (note c error_logged))
after_read c (got []) = handle_close c
after_read c (got (x ∷ xs)) = some (note c message_callback)

pub handle_read : Connection → Readv → Option Connection
handle_read c outcome = do
  input ← read_fd c.input_buffer outcome
  after_read (record c { input_buffer = input }) outcome

-- The direct write of sendInLoop: the connection, `nwrote`, `remaining` and `error` after it.
pub record Progress : Type 0 where
  pub connection : Connection
  pub nwrote : ℕ
  pub remaining : ℕ
  pub error : Bool

pub is_broken_pipe : WriteError → Bool
is_broken_pipe broken_pipe = true
is_broken_pipe _ = false

pub direct_write : Connection → List ℕ → Written → Progress
direct_write c bytes (wrote n) =
    let left = sub_size (length bytes) n in
    let taken = record c { sent = c.sent ++ take n bytes } in
    record {
      connection =
          if left == 0 && c.has_write_complete then note taken queued_write_complete else taken;
      nwrote = n;
      remaining = left;
      error = false;
    }
direct_write c bytes (write_failed e) = record {
  connection = c;
  nwrote = 0;
  remaining = length bytes;
  error = is_broken_pipe e;
}

pub warn_high_water : Connection → ℕ → Connection
warn_high_water c remaining =
    let old_len = readable_bytes c.output_buffer in
    let total = add_size old_len remaining in
    if leb c.high_water_mark total && ltb old_len c.high_water_mark && c.has_high_water
    then note c (queued_high_water total)
    else c

pub watch_writing : Connection → Connection
watch_writing c =
    if is_writing c.channel then c else set_channel c (enable_writing c.channel c.epoll)

-- What is left goes to the output buffer, and the channel is to watch for room.
pub queue_rest : Connection → List ℕ → ℕ → Option Connection
queue_rest c rest remaining =
    let warned = warn_high_water c remaining in
    Buffer.append c.output_buffer rest >>= λ output.
    some (watch_writing (record warned { output_buffer = output }))

-- Nothing is written directly while the channel watches for room or bytes wait.
pub first_write : Connection → List ℕ → Written → Progress
first_write c bytes w =
    if not (is_writing c.channel) && readable_bytes c.output_buffer == 0
    then direct_write c bytes w
    else record { connection = c; nwrote = 0; remaining = length bytes; error = false }

pub finish : Progress → List ℕ → Option Connection
finish p bytes = do
  assert (leb p.remaining (length bytes))
  if not p.error && ltb 0 p.remaining
      then queue_rest p.connection (drop p.nwrote bytes) p.remaining
      else some p.connection

pub send_in_loop : Connection → List ℕ → Written → Option Connection
send_in_loop c bytes w =
    if is_disconnected c.status then some c else finish (first_write c bytes w) bytes

-- The two `send` functions over bytes; from another thread the bytes are copied into a functor.
pub send : Bool → Connection → List ℕ → Written → Option Connection
send in_loop_thread c bytes w =
    if is_connected c.status
    then if in_loop_thread then send_in_loop c bytes w else some (note c (queued_send bytes))
    else some c

-- `send(Buffer*)` empties the buffer that it is given.
pub send_buffer : Bool → Connection → Buffer → Written → Option (Connection × Buffer)
send_buffer in_loop_thread c b w =
    let here : Option (Connection × Buffer) = do
      d ← send_in_loop c (Buffer.peek b (readable_bytes b)) w
      some (d, Buffer.retrieve_all b)
    in let elsewhere : Option (Connection × Buffer) = do
      (bytes, rest) ← Buffer.retrieve_all_as_string b
      some (note c (queued_send bytes), rest)
      in if is_connected c.status then if in_loop_thread then here else elsewhere else some (c, b)

pub shutdown_in_loop : Connection → Connection
shutdown_in_loop c = if is_writing c.channel then c else note c shutdown_write

-- `shutdown`, called in the loop's thread.
pub shutdown : Connection → Connection
shutdown c =
    if is_connected c.status then shutdown_in_loop (record c { status = disconnecting }) else c

pub drained : Connection → Connection
drained c =
    let stopped = set_channel c (disable_writing c.channel c.epoll) in
    let told = if c.has_write_complete then note stopped queued_write_complete else stopped in
    if is_disconnecting c.status then shutdown_in_loop told else told

pub after_write : Connection → Written → Option Connection
after_write c (write_failed e) = some (note c error_logged)
after_write c (wrote n) =
    let taken : Option Connection = do
      output ← Buffer.retrieve c.output_buffer n
      let d = record c {
        output_buffer = output;
        sent = c.sent ++ take n (Buffer.peek c.output_buffer (readable_bytes c.output_buffer));
      }
      some (if readable_bytes output == 0 then drained d else d)
    in if ltb 0 n then taken else some (note c error_logged)

pub handle_write : Connection → Written → Option Connection
handle_write c w = if is_writing c.channel then after_write c w else some c
