-- ===== src/Connection/Lifecycle.antt =====
-- TcpConnection.cc: the life of a connection, as the steps that its loop may make with it.
use network_lib.Base.{
  ℕ, ◌≡◌, refl, sym, ap, ◌∙◌, Bool, false, some, List, [], ◌∷◌, ◌++◌, arith, Option-cases, inl, inr,
}
use network_lib.Buffer.{Buffer}
use network_lib.Buffer.Fd.{Readv, failed, got, read_fd}
use network_lib.Channels.{
  Channel, Epoll, Events, is_writing, set_events, enable_reading, enable_writing, disable_writing,
  disable_all, remove, tie,
}
use network_lib.Channels
use network_lib.Channels.Dispatch.{Callbacks, on_write}
use network_lib.Connection.{
  set_write_complete_callback, set_high_water_mark_callback, Connection, connection_callback,
  Written, make, connect_established, connect_destroyed, handle_close, handle_read, after_read,
  handle_error, send, send_buffer, send_in_loop, handle_write, shutdown_write, error_logged,
  message_callback, close_callback, shutdown, shutdown_in_loop,
}
use network_lib.Connection.Quiet.{
  calls, calls-append, expected, IsQuiet, watching, send_in_loop-IsQuiet, send-IsQuiet,
  send_buffer-IsQuiet, handle_write-IsQuiet,
}

pub record InLife (c : Connection) : Type 0 where
  pub counted : calls c.trace ≡ expected c.status
  pub deaf : c.channel.has_write ≡ false

-- The steps of a connection. `polled` is the poller storing what epoll_wait returned for it.
pub data Step : Connection → Connection → Type 0 where
  establishes : {c d : Connection} → connect_established c ≡ some d → Step c d
  destroys : {c d : Connection} → connect_destroyed c ≡ some d → Step c d
  closes : {c d : Connection} → handle_close c ≡ some d → Step c d
  reads : {c d : Connection} (r : Readv) → handle_read c r ≡ some d → Step c d
  sends :
      {c d : Connection} (here : Bool) (bytes : List ℕ) (w : Written)
      → send here c bytes w ≡ some d
      → Step c d
  sends_in_loop :
      {c d : Connection} (bytes : List ℕ) (w : Written) → send_in_loop c bytes w ≡ some d → Step c d
  sends_buffer :
      {c d : Connection} (here : Bool) (b rest : Buffer) (w : Written)
      → send_buffer here c b w ≡ some (d, rest)
      → Step c d
  sets_write_complete : {c d : Connection} → set_write_complete_callback c ≡ d → Step c d
  sets_high_water :
      {c d : Connection} (mark : ℕ) → set_high_water_mark_callback c mark ≡ d → Step c d
  fails : {c d : Connection} → handle_error c ≡ d → Step c d
  writes : {c d : Connection} (w : Written) → handle_write c w ≡ some d → Step c d
  shuts : {c d : Connection} → shutdown c ≡ d → Step c d
  polled :
      {c d : Connection} (ready : Events)
      → record c { channel = set_events c.channel ready } ≡ d
      → Step c d

pub data Reach (c : Connection) : Connection → Type 0 where
  here : Reach c c
  next : {d e : Connection} → Reach c d → Step d e → Reach c e

IsQuiet-InLife : {c d : Connection} → IsQuiet c d → InLife c → InLife d
IsQuiet-InLife q l = record {
  counted = q.called ∙ l.counted ∙ ap expected (sym q.status);
  deaf = q.deaf ∙ l.deaf;
}

-- The steps that bring the connection up or down call the callback once.
connect_established-InLife :
    (c d : Connection) → connect_established c ≡ some d → InLife c → InLife d
unfolding connect_established tie
connect_established-InLife c d h l = record {
  counted = ground (arith, calls-append c.trace (connection_callback ∷ []));
  deaf = ground (arith, watching (tie c.channel) c.epoll);
}

handle_close-InLife : (c d : Connection) → handle_close c ≡ some d → InLife c → InLife d
unfolding handle_close
handle_close-InLife c d h l = record {
  counted = ground (
    arith,
    calls-append c.trace (connection_callback ∷ []),
    calls-append (c.trace ++ connection_callback ∷ []) (close_callback ∷ []),
  );
  deaf = ground (arith, watching c.channel c.epoll);
}

connect_destroyed-InLife : (c d : Connection) → connect_destroyed c ≡ some d → InLife c → InLife d
unfolding connect_destroyed remove
connect_destroyed-InLife c d h l = record {
  counted = ground (arith, calls-append c.trace (connection_callback ∷ []));
  deaf = ground (arith, watching c.channel c.epoll);
}

after_read-InLife : (c d : Connection) (r : Readv) → after_read c r ≡ some d → InLife c → InLife d
unfolding after_read handle_error
after_read-InLife c d (failed e) h l = record {
  counted = ground (
    arith,
    calls-append c.trace (error_logged ∷ []),
    calls-append (c.trace ++ error_logged ∷ []) (error_logged ∷ []),
  );
  deaf = ground arith;
}
after_read-InLife c d (got []) h l = handle_close-InLife c d h l
after_read-InLife c d (got (x ∷ xs)) h l = record {
  counted = ground (arith, calls-append c.trace (message_callback ∷ []));
  deaf = ground arith;
}

handle_read-InLife : (c d : Connection) (r : Readv) → handle_read c r ≡ some d → InLife c → InLife d
unfolding handle_read
handle_read-InLife c d r h l = elim (Option-cases (read_fd c.input_buffer r)) [
  | inl e ↦ absurd (ground arith)
  | inr (input, e) ↦
      after_read-InLife (record c { input_buffer = input }) d r (ground arith)
        (record { counted = l.counted; deaf = l.deaf })
]

shutdown-InLife : (c : Connection) → InLife c → InLife (shutdown c)
unfolding shutdown shutdown_in_loop
shutdown-InLife c l = record {
  counted = ground (arith, calls-append c.trace (shutdown_write ∷ []));
  deaf = ground arith;
}

handle_error-InLife : (c : Connection) → InLife c → InLife (handle_error c)
unfolding handle_error
handle_error-InLife c l = record {
  counted = ground (arith, calls-append c.trace (error_logged ∷ []));
  deaf = l.deaf;
}

Step-InLife : {c d : Connection} → Step c d → InLife c → InLife d
unfolding set_events set_write_complete_callback set_high_water_mark_callback
Step-InLife {c} {d} (establishes h) l = connect_established-InLife c d h l
Step-InLife {c} {d} (destroys h) l = connect_destroyed-InLife c d h l
Step-InLife {c} {d} (closes h) l = handle_close-InLife c d h l
Step-InLife {c} {d} (reads r h) l = handle_read-InLife c d r h l
Step-InLife {c} {d} (sends in_loop bytes w h) l =
    IsQuiet-InLife (send-IsQuiet in_loop c d bytes w h) l
Step-InLife {c} {d} (sends_in_loop bytes w h) l =
    IsQuiet-InLife (send_in_loop-IsQuiet c d bytes w h) l
Step-InLife {c} {d} (sends_buffer in_loop b rest w h) l =
    IsQuiet-InLife (send_buffer-IsQuiet in_loop c d b rest w h) l
Step-InLife {c} {d} (sets_write_complete h) l =
    rw (← h) (record { counted = l.counted; deaf = l.deaf })
Step-InLife {c} {d} (sets_high_water mark h) l =
    rw (← h) (record { counted = l.counted; deaf = l.deaf })
Step-InLife {c} {d} (fails h) l = rw (← h) (handle_error-InLife c l)
Step-InLife {c} {d} (writes w h) l = IsQuiet-InLife (handle_write-IsQuiet c d w h) l
Step-InLife {c} {d} (shuts h) l = rw (← h) (shutdown-InLife c l)
Step-InLife {c} {d} (polled ready h) l = rw (← h) (record { counted = l.counted; deaf = l.deaf })

make-InLife : (fd : ℕ) (e : Epoll) → InLife (make fd e)
unfolding make Channels.make
make-InLife fd e = record { counted = refl; deaf = refl }

Reach-InLife : {c d : Connection} → InLife c → Reach c d → InLife d
Reach-InLife l here = l
Reach-InLife l (next r s) = Step-InLife s (Reach-InLife l r)

-- Through any sequence of the steps, the connection callback has run never while the connection is
-- connecting, once while it is connected or disconnecting, and twice once it is disconnected.
pub calls-Reach :
    (fd : ℕ) (e : Epoll) (c : Connection) → Reach (make fd e) c → calls c.trace ≡ expected c.status
calls-Reach fd e c r = (Reach-InLife (make-InLife fd e) r).counted

-- No connection ever gets a write callback: an event that says that there is room to write again
-- does nothing, whatever callbacks the connection's channel would call.
pub on_write-Reach :
    {S : Type 0} (cb : Callbacks S) (s : S) (fd : ℕ) (e : Epoll) (c : Connection)
    → Reach (make fd e) c
    → on_write cb (c.channel, s) ≡ (c.channel, s)
unfolding on_write
on_write-Reach cb s fd e c r = ground (arith, (Reach-InLife (make-InLife fd e) r).deaf)
