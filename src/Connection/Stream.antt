-- ===== src/Connection/Stream.antt =====
-- TcpConnection.cc: no byte that is sent is lost, doubled or reordered. The stream of a connection
-- is what the kernel has taken, followed by what waits in the output buffer.
use network_lib.Base.{
  ℕ, ◌+◌, ◌≤◌, ◌≡◌, ◌≢◌, refl, sym, ap, ◌∙◌, true, false, not, ◌&&◌, Option, some, List, [], ◌∷◌,
  ◌++◌, arith, length, take, drop, ltb, ◌==◌, if◌then◌else◌, Bool-cases, inl, inr, append_assoc,
  append-nil, take-append-drop, length-drop,
}
use network_lib.Buffer
use network_lib.Buffer.{Buffer, readable_bytes, max_size}
use network_lib.Buffer.Valid.{IsValid, contents, readable_bytes_lem, length-contents}
use network_lib.Buffer.Contents.{append-contents, retrieve-contents}
use network_lib.Channels.{is_writing}
use network_lib.Connection.{
  Connection, disconnected, Written, wrote, write_failed, is_broken_pipe, direct_write, queue_rest,
  first_write, finish, warn_high_water, watch_writing, send_in_loop, drained, after_write,
  handle_write, shutdown_in_loop, note, error_logged,
}

abbrev pub stream : Connection → List ℕ
stream c = c.sent ++ contents c.output_buffer

-- What write(2) may return for so many bytes, a broken pipe apart.
abbrev pub Accepts : ℕ → Written → Type 0
Accepts len (wrote n) = n ≤ len
Accepts len (write_failed e) = is_broken_pipe e ≡ false

-- A connection of the given stream with its output buffer in order.
abbrev pub Streams : List ℕ → Option Connection → Type 0
Streams xs o = (d : Connection) × (o ≡ some d) × (stream d ≡ xs) × IsValid d.output_buffer

-- The two keep what a connection sends.
watch_writing-same :
    (c : Connection)
    → ((watch_writing c).sent ≡ c.sent) × ((watch_writing c).output_buffer ≡ c.output_buffer)
unfolding watch_writing
watch_writing-same c = ground arith

sent-warn_high_water : (c : Connection) (n : ℕ) → (warn_high_water c n).sent ≡ c.sent
unfolding warn_high_water
sent-warn_high_water c n = ground arith

nil_of_length : (xs : List ℕ) → length xs ≡ 0 → xs ≡ []
nil_of_length [] h = refl
nil_of_length (x ∷ xs) h = absurd (omega arith)

queue_rest-Streams :
    (c : Connection) (rest : List ℕ)
    → IsValid c.output_buffer
    → c.output_buffer.writer_index + length rest ≤ max_size
    → Streams (stream c ++ rest) (queue_rest c rest (length rest))
unfolding queue_rest
queue_rest-Streams c rest v room =
    let (r, e, w, k) = append-contents c.output_buffer rest v room in
    let warned : Connection = warn_high_water c (length rest) in
    let filled : Connection = record warned { output_buffer = r } in
    let (s, o) = watch_writing-same filled in
    (
      watch_writing filled,
      ground (arith, e),
      rw (s, o, sent-warn_high_water, k)
          (sym (append_assoc c.sent (contents c.output_buffer) rest)),
      rw o w,
    )

-- The direct write, of an empty output buffer.
direct_write-Streams :
    (c : Connection) (bytes : List ℕ) (w : Written)
    → length bytes ≤ max_size
    → Accepts (length bytes) w
    → let p = direct_write c bytes w in
      (p.connection.output_buffer ≡ c.output_buffer)
      × (p.connection.sent ≡ c.sent ++ take p.nwrote bytes)
      × (p.remaining ≡ length (drop p.nwrote bytes))
      × (p.error ≡ false)
unfolding direct_write
direct_write-Streams c bytes (wrote n) small a =
    (ground arith, ground arith, omega (arith, length-drop n bytes), refl)
direct_write-Streams c bytes (write_failed e) small a = (refl, sym (append-nil c.sent), refl, a)

-- The end of sendInLoop: what remains, if anything, is queued.
rest-Streams :
    (c : Connection) (rest : List ℕ)
    → IsValid c.output_buffer
    → c.output_buffer.writer_index + length rest ≤ max_size
    → Streams
        (stream c ++ rest)
        (if ltb 0 (length rest) then queue_rest c rest (length rest) else some c)
rest-Streams c [] v room = (c, refl, sym (append-nil (stream c)), v)
rest-Streams c (x ∷ xs) v room =
    let (d, e, k, w) = queue_rest-Streams c (x ∷ xs) v room in (d, ground (arith, e), k, w)

send_direct :
    (c : Connection) (bytes : List ℕ) (w : Written)
    → c.status ≢ disconnected
    → IsValid c.output_buffer
    → c.output_buffer.writer_index + length bytes ≤ max_size
    → Accepts (length bytes) w
    → (not (is_writing c.channel) && readable_bytes c.output_buffer == 0) ≡ true
    → Streams (stream c ++ bytes) (send_in_loop c bytes w)
unfolding send_in_loop first_write finish
send_direct c bytes w up v room a direct =
    let p = direct_write c bytes w in
    let rest = drop p.nwrote bytes in
    let (o, s, n, ok) = direct_write-Streams c bytes w (omega arith) a in
    let empty : contents c.output_buffer ≡ [] =
      nil_of_length (contents c.output_buffer)
        (ground (arith, length-contents c.output_buffer v, readable_bytes_lem c.output_buffer v)) in
    let (d, e, k, u) =
      rest-Streams p.connection rest (rw o v) (rw o (omega (arith, length-drop p.nwrote bytes))) in
    let whole : stream p.connection ++ rest ≡ stream c ++ bytes =
      rw (o, s, empty) (simp (append-nil, append_assoc, take-append-drop)) in
    (d, ground (arith, e, n, ok, length-drop p.nwrote bytes), k ∙ whole, u)

send_queued :
    (c : Connection) (bytes : List ℕ) (w : Written)
    → c.status ≢ disconnected
    → IsValid c.output_buffer
    → c.output_buffer.writer_index + length bytes ≤ max_size
    → (not (is_writing c.channel) && readable_bytes c.output_buffer == 0) ≡ false
    → Streams (stream c ++ bytes) (send_in_loop c bytes w)
unfolding send_in_loop first_write finish
send_queued c bytes w up v room busy =
    let (d, e, k, u) = rest-Streams c bytes v room in (d, ground (arith, e), k, u)

-- `sendInLoop` on a connection that is not disconnected, with its output buffer in its layout and
-- below the vector's limit, appends the bytes to the stream, whatever part of them write(2) takes
-- and whatever error but a broken pipe it reports, and keeps the output buffer in its layout.
pub send_in_loop-Streams :
    (c : Connection) (bytes : List ℕ) (w : Written)
    → c.status ≢ disconnected
    → IsValid c.output_buffer
    → c.output_buffer.writer_index + length bytes ≤ max_size
    → Accepts (length bytes) w
    → Streams (stream c ++ bytes) (send_in_loop c bytes w)
send_in_loop-Streams c bytes w up v room a =
    elim (Bool-cases (not (is_writing c.channel) && readable_bytes c.output_buffer == 0)) [
      | inl direct ↦ send_direct c bytes w up v room a direct
      | inr busy ↦ send_queued c bytes w up v room busy
    ]

drained-same :
    (c : Connection) → ((drained c).sent ≡ c.sent) × ((drained c).output_buffer ≡ c.output_buffer)
unfolding drained shutdown_in_loop
drained-same c = ground arith

-- `handleWrite`, whatever part of the waiting bytes write(2) takes and whatever error but a broken
-- pipe it reports, succeeds, changes nothing of the stream, and keeps the output buffer in its
-- layout.
pub handle_write-Streams :
    (c : Connection) (w : Written)
    → IsValid c.output_buffer
    → Accepts (length (contents c.output_buffer)) w
    → Streams (stream c) (handle_write c w)
unfolding handle_write after_write
handle_write-Streams c (write_failed e) v a = elim (Bool-cases (is_writing c.channel)) [
  | inl writing ↦ (note c error_logged, ground arith, refl, v)
  | inr idle ↦ (c, ground arith, refl, v)
]
handle_write-Streams c (wrote n) v a =
    let b = c.output_buffer in
    let (r, e, u, k) = (retrieve-contents b n v).0 a in
    let seen : Buffer.peek b (readable_bytes b) ≡ contents b =
      ap (λ m. Buffer.peek b m) (readable_bytes_lem b v) in
    let d : Connection = record c { output_buffer = r; sent = c.sent ++ take n (contents b) } in
    let whole : stream d ≡ stream c = rw k (
      append_assoc c.sent (take n (contents b)) (drop n (contents b))
      ∙ ap (λ xs. c.sent ++ xs) (take-append-drop n (contents b))) in
    let (s, o) = drained-same d in
    elim (Bool-cases (is_writing c.channel && ltb 0 n)) [
      | inr idle ↦ elim (Bool-cases (is_writing c.channel)) [
        | inl writing ↦ (note c error_logged, ground arith, refl, v)
        | inr quiet ↦ (c, ground arith, refl, v)
      ]
      | inl writing ↦ elim (Bool-cases (readable_bytes r == 0)) [
        | inl empty ↦ (drained d, ground (arith, e, seen), rw (s, o) whole, rw o u)
        | inr more ↦ (d, ground (arith, e, seen), whole, u)
      ]
    ]
