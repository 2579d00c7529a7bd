-- ===== src/Buffer/Fd/Scatter.antt =====
-- Buffer.cc: readFd delivers all that readv read, whichever block it went to.
use network_lib.Base.{
  ℕ, ◌+◌, ◌-◌, ◌≤◌, ◌<◌, ◌≡◌, refl, sym, ap, ◌∙◌, some, List, [], ◌++◌, arith, length, take, drop,
  length-take, length-drop, take-append-drop, take-all, append_assoc, overwrite, length-overwrite,
  slice-overwrite_end, leb, Bool-cases, inl, inr, append-nil, leb→le, leb→gt,
}
use network_lib.Buffer.{Buffer, max_size, append}
use network_lib.Buffer.Valid.{IsValid, contents, writable_bytes_lem, copy_to_lem}
use network_lib.Buffer.Contents.{Holds, append-contents}
use network_lib.Buffer.Indices.{append-length}
use network_lib.Buffer.Fd.{Readv, failed, got, extra_size, read_fd}

abbrev pub received : Readv → List ℕ
received (failed e) = []
received (got bytes) = bytes

module _ (b : Buffer) (bytes : List ℕ) (v : IsValid b) where
  -- The vector after readv has filled the first block with `front`.
  filled-contents :
      (front : List ℕ)
      → b.writer_index + length front ≤ length b.buffer
      → let c : Buffer = record b {
        buffer = overwrite b.buffer b.writer_index front;
        writer_index = b.writer_index + length front;
      } in
        IsValid c × (contents c ≡ contents b ++ front)
  filled-contents front h =
      let size = length-overwrite b.buffer b.writer_index front h in
      (
        omega (arith, size),
        slice-overwrite_end b.buffer b.reader_index b.writer_index front v.ordered v.inside
            (b.writer_index + length front - b.reader_index) (omega arith),
      )

  read_fits :
      length bytes ≤ length b.buffer - b.writer_index
      → Holds (contents b ++ bytes) (read_fd b (got bytes))
  unfolding read_fd
  read_fits h =
      let room : b.writer_index + length bytes ≤ length b.buffer = omega arith in
      let (w, c) = filled-contents bytes room in
      (
        record b {
          buffer = overwrite b.buffer b.writer_index bytes;
          writer_index = b.writer_index + length bytes;
        },
        ground (
          arith,
          writable_bytes_lem b v,
          take-all (length b.buffer - b.writer_index) bytes h,
          copy_to_lem b.buffer b.writer_index bytes room,
        ),
        w,
        c,
      )

  read_spills :
      length b.buffer - b.writer_index < length bytes
      → length bytes ≤ length b.buffer - b.writer_index + extra_size
      → length b.buffer + extra_size ≤ max_size
      → Holds (contents b ++ bytes) (read_fd b (got bytes))
  unfolding read_fd
  read_spills h k limit =
      let n = length b.buffer - b.writer_index in
      let front = take n bytes in
      let rest = drop n bytes in
      let lf : length front ≡ n = omega (arith, length-take n bytes) in
      let room : b.writer_index + length front ≤ length b.buffer = omega arith in
      let buf = overwrite b.buffer b.writer_index front in
      let size = length-overwrite b.buffer b.writer_index front room in
      let (w, c) = filled-contents front room in
      let full : b.writer_index + length front ≡ length buf = omega arith in
      let mid : Buffer = record b { buffer = buf; writer_index = b.writer_index + length front } in
      let (r, e, u, d) = append-contents mid rest w (omega (arith, length-drop n bytes)) in
      (
        r,
        ground (
          arith,
          e,
          full,
          writable_bytes_lem b v,
          copy_to_lem b.buffer b.writer_index front room,
        ),
        u,
        d
            ∙ ap (λ xs. xs ++ rest) c
            ∙ append_assoc (contents b) front rest
            ∙ ap (λ xs. contents b ++ xs) (take-append-drop n bytes),
      )

-- `readFd` puts exactly the bytes that readv delivered behind the readable ones and keeps the
-- layout, whether they fit the vector or spilled into the 65536 bytes on the stack; after an error
-- the readable bytes are as before.
pub read_fd-contents :
    (b : Buffer) (v : Readv)
    → IsValid b
    → length (received v) ≤ length b.buffer - b.writer_index + extra_size
    → length b.buffer + extra_size ≤ max_size
    → Holds (contents b ++ received v) (read_fd b v)
unfolding read_fd
read_fd-contents b (failed e) v h k = (b, refl, v, sym (append-nil (contents b)))
read_fd-contents b (got bytes) v h k =
    elim (Bool-cases (leb (length bytes) (length b.buffer - b.writer_index))) [
      | inl fits ↦ read_fits b bytes v (leb→le _ _ fits)
      | inr spills ↦ read_spills b bytes v (leb→gt _ _ spills) h k
    ]

-- `readFd` makes the vector longer by the bytes read at most.
pub read_fd-length :
    (b c : Buffer) (v : Readv)
    → IsValid b
    → length (received v) ≤ length b.buffer - b.writer_index + extra_size
    → length b.buffer + extra_size ≤ max_size
    → read_fd b v ≡ some c
    → length c.buffer ≤ length b.buffer + length (received v)
unfolding read_fd
read_fd-length b c (failed e) v h k r =
    let same : b.buffer ≡ c.buffer = ground (arith, r) in omega (arith, ap length same)
read_fd-length b c (got bytes) v h k r =
    let n = length b.buffer - b.writer_index in
    let room_left = writable_bytes_lem b v in
    let front : length (take n bytes) ≤ n = omega (arith, length-take n bytes) in
    let fits : b.writer_index + length (take n bytes) ≤ length b.buffer = omega arith in
    let buf = overwrite b.buffer b.writer_index (take n bytes) in
    let size = length-overwrite b.buffer b.writer_index (take n bytes) fits in
    let put = copy_to_lem b.buffer b.writer_index (take n bytes) fits in
    elim (Bool-cases (leb (length bytes) n)) [
      | inl all ↦
          let same : c.buffer ≡ buf = ground (arith, room_left, put, all, r) in
          omega (arith, ap length same, size)
      | inr more ↦
          let mid : Buffer = record b { buffer = buf; writer_index = length buf } in
          let rest : append mid (drop n bytes) ≡ some c = ground (arith, room_left, put, more, r) in
          let w : IsValid mid = omega (arith, size) in
          let bound =
            append-length mid c (drop n bytes) w (omega (arith, size, length-drop n bytes)) rest in
          omega (arith, bound, size, length-drop n bytes)
    ]
