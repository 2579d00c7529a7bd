-- ===== src/Connection/Quiet.antt =====
-- TcpConnection.cc: the operations that neither bring a connection up nor down.
use network_lib.Base.{
  ℕ, ◌+◌, ◌≡◌, refl, ◌∙◌, Bool, not, ◌&&◌, some, List, [], ◌∷◌, ◌++◌, arith, drop, take, add_size,
  ltb, ◌==◌, Bool-cases, Option-cases, inl, inr,
}
use network_lib.Buffer
use network_lib.Buffer.{Buffer, readable_bytes}
use network_lib.Channels.{
  Channel, Epoll, is_writing, enable_reading, enable_writing, disable_writing, disable_all,
}
use network_lib.Connection.{
  Connection, Status, disconnected, connecting, connected, disconnecting, Effect,
  connection_callback, queued_write_complete, Written, note, send, send_buffer, send_in_loop,
  direct_write, queue_rest, watch_writing, warn_high_water, handle_write, after_write, drained,
  first_write, finish, Progress, is_disconnected, is_connected, queued_send, shutdown_write,
  error_logged, shutdown_in_loop, wrote, write_failed,
}

-- How often the connection callback has run.
abbrev pub is_call : Effect → ℕ
is_call connection_callback = 1
is_call _ = 0

abbrev pub calls : List Effect → ℕ
calls [] = 0
calls (x ∷ xs) = is_call x + calls xs

pub calls-append : (xs ys : List Effect) → calls (xs ++ ys) ≡ calls xs + calls ys
calls-append [] ys = omega arith
calls-append (x ∷ xs) ys = omega (arith, calls-append xs ys)

-- How often it is to have run: once when the connection comes up, and once when it goes down.
abbrev pub expected : Status → ℕ
expected connecting = 0
expected connected = 1
expected disconnecting = 1
expected disconnected = 2

-- Nothing that the life of a connection depends on has changed.
pub record IsQuiet (c d : Connection) : Type 0 where
  pub status : d.status ≡ c.status
  pub called : calls d.trace ≡ calls c.trace
  pub deaf : d.channel.has_write ≡ c.channel.has_write

IsQuiet-trans : {c d e : Connection} → IsQuiet c d → IsQuiet d e → IsQuiet c e
IsQuiet-trans a b = record {
  status = b.status ∙ a.status;
  called = b.called ∙ a.called;
  deaf = b.deaf ∙ a.deaf;
}

note-IsQuiet : (c : Connection) (x : Effect) → is_call x ≡ 0 → IsQuiet c (note c x)
note-IsQuiet c x e = record {
  status = refl;
  called = omega (arith, calls-append c.trace (x ∷ []));
  deaf = refl;
}

-- A change of what is watched leaves the rest of the channel.
pub watching :
    (c : Channel) (e : Epoll)
    → ((enable_reading c e).0.has_write ≡ c.has_write)
      × ((enable_writing c e).0.has_write ≡ c.has_write)
      × ((disable_writing c e).0.has_write ≡ c.has_write)
      × ((disable_all c e).0.has_write ≡ c.has_write)
unfolding enable_reading enable_writing disable_writing disable_all
watching c e = (ground arith, ground arith, ground arith, ground arith)

watch_writing-IsQuiet : (c : Connection) → IsQuiet c (watch_writing c)
unfolding watch_writing
watch_writing-IsQuiet c = record {
  status = ground arith;
  called = ground arith;
  deaf = ground (arith, watching c.channel c.epoll);
}

warn_high_water-IsQuiet : (c : Connection) (n : ℕ) → IsQuiet c (warn_high_water c n)
unfolding warn_high_water
warn_high_water-IsQuiet c n = record {
  status = ground arith;
  called = ground (
    arith,
    calls-append c.trace
        (Effect.queued_high_water (add_size (readable_bytes c.output_buffer) n) ∷ []),
  );
  deaf = ground arith;
}

direct_write-IsQuiet :
    (c : Connection) (bytes : List ℕ) (w : Written) → IsQuiet c (direct_write c bytes w).connection
unfolding direct_write
direct_write-IsQuiet c bytes (wrote n) = record {
  status = ground arith;
  called = ground (arith, calls-append c.trace (queued_write_complete ∷ []));
  deaf = ground arith;
}
direct_write-IsQuiet c bytes (write_failed e) = record { status = refl; called = refl; deaf = refl }

queue_rest-IsQuiet :
    (c d : Connection) (rest : List ℕ) (n : ℕ) → queue_rest c rest n ≡ some d → IsQuiet c d
unfolding queue_rest
queue_rest-IsQuiet c d rest n h = elim (Option-cases (Buffer.append c.output_buffer rest)) [
  | inl e ↦ absurd (ground arith)
  | inr (output, e) ↦
      let filled : Connection = record (warn_high_water c n) { output_buffer = output } in
      let d-is : d ≡ watch_writing filled = ground arith in
      rw d-is (IsQuiet-trans {d = filled} (filled-IsQuiet output) (watch_writing-IsQuiet filled))
]
  where
    filled-IsQuiet :
        (output : Buffer) → IsQuiet c (record (warn_high_water c n) { output_buffer = output })
    filled-IsQuiet output =
        let q = warn_high_water-IsQuiet c n in
        record { status = q.status; called = q.called; deaf = q.deaf }

first_write-IsQuiet :
    (c : Connection) (bytes : List ℕ) (w : Written) → IsQuiet c (first_write c bytes w).connection
unfolding first_write
first_write-IsQuiet c bytes w =
    elim (Bool-cases (not (is_writing c.channel) && readable_bytes c.output_buffer == 0)) [
      | inl direct ↦ rw direct (direct_write-IsQuiet c bytes w)
      | inr busy ↦ rw busy (record { status = refl; called = refl; deaf = refl })
    ]

finish-IsQuiet :
    (p : Progress) (d : Connection) (bytes : List ℕ)
    → finish p bytes ≡ some d
    → IsQuiet p.connection d
unfolding finish
finish-IsQuiet p d bytes h = elim (Bool-cases (not p.error && ltb 0 p.remaining)) [
  | inl more ↦ queue_rest-IsQuiet p.connection d (drop p.nwrote bytes) p.remaining (ground arith)
  | inr over ↦
      let d-is : d ≡ p.connection = ground arith in
      rw d-is (record { status = refl; called = refl; deaf = refl })
]

pub send_in_loop-IsQuiet :
    (c d : Connection) (bytes : List ℕ) (w : Written)
    → send_in_loop c bytes w ≡ some d
    → IsQuiet c d
unfolding send_in_loop
send_in_loop-IsQuiet c d bytes w h = elim (Bool-cases (is_disconnected c.status)) [
  | inl down ↦
      let d-is : d ≡ c = ground arith in
      rw d-is (record { status = refl; called = refl; deaf = refl })
  | inr up ↦
      let e : finish (first_write c bytes w) bytes ≡ some d = ground arith in
      IsQuiet-trans (first_write-IsQuiet c bytes w)
        (finish-IsQuiet (first_write c bytes w) d bytes e)
]

pub send-IsQuiet :
    (in_loop : Bool) (c d : Connection) (bytes : List ℕ) (w : Written)
    → send in_loop c bytes w ≡ some d
    → IsQuiet c d
unfolding send
send-IsQuiet in_loop c d bytes w h = elim (Bool-cases (is_connected c.status && in_loop)) [
  | inl direct ↦ send_in_loop-IsQuiet c d bytes w (ground arith)
  | inr other ↦ record {
    status = ground arith;
    called = ground (arith, calls-append c.trace (queued_send bytes ∷ []));
    deaf = ground arith;
  }
]

pub send_buffer-IsQuiet :
    (in_loop : Bool) (c d : Connection) (b rest : Buffer) (w : Written)
    → send_buffer in_loop c b w ≡ some (d, rest)
    → IsQuiet c d
unfolding send_buffer
send_buffer-IsQuiet in_loop c d b rest w h =
    let bytes = Buffer.peek b (readable_bytes b) in
    elim (Bool-cases (is_connected c.status && in_loop)) [
      | inl direct ↦ elim (Option-cases (send_in_loop c bytes w)) [
        | inl e ↦ absurd (ground arith)
        | inr (m, e) ↦ send_in_loop-IsQuiet c d bytes w (ground arith)
      ]
      | inr other ↦ elim (Option-cases (Buffer.retrieve_all_as_string b)) [
        | inl e ↦ record { status = ground arith; called = ground arith; deaf = ground arith }
        | inr (taken, e) ↦ record {
          status = ground arith;
          called = ground (arith, calls-append c.trace (queued_send taken.0 ∷ []));
          deaf = ground arith;
        }
      ]
    ]

drained-IsQuiet : (c : Connection) → IsQuiet c (drained c)
unfolding drained shutdown_in_loop
drained-IsQuiet c = record {
  status = ground arith;
  called = ground (
    arith,
    calls-append c.trace (queued_write_complete ∷ []),
    calls-append c.trace (shutdown_write ∷ []),
    calls-append (c.trace ++ queued_write_complete ∷ []) (shutdown_write ∷ []),
  );
  deaf = ground (arith, watching c.channel c.epoll);
}

pub handle_write-IsQuiet :
    (c d : Connection) (w : Written) → handle_write c w ≡ some d → IsQuiet c d
unfolding handle_write after_write
handle_write-IsQuiet c d (write_failed e) h = record {
  status = ground arith;
  called = ground (arith, calls-append c.trace (error_logged ∷ []));
  deaf = ground arith;
}
handle_write-IsQuiet c d (wrote n) h = elim (Option-cases (Buffer.retrieve c.output_buffer n)) [
  | inl e ↦ record {
    status = ground arith;
    called = ground (arith, calls-append c.trace (error_logged ∷ []));
    deaf = ground arith;
  }
  | inr (output, e) ↦
      let bytes = take n (Buffer.peek c.output_buffer (readable_bytes c.output_buffer)) in
      let q = drained-IsQuiet (record c { output_buffer = output; sent = c.sent ++ bytes }) in
      record {
        status = ground (arith, q.status);
        called = ground (arith, q.called, calls-append c.trace (error_logged ∷ []));
        deaf = ground (arith, q.deaf);
      }
]
