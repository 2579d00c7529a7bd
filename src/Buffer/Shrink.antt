-- ===== src/Buffer/Shrink.antt =====
-- Buffer.h: tostring, and shrink, which copies the readable bytes into a new buffer.
use network_lib.Base.{
  ℕ, ◌+◌, ◌-◌, ◌^◌, ◌≤◌, ◌<◌, ◌≡◌, ap, ◌∙◌, none, some, List, ◌++◌, arith, length, add_size,
  overwrite, length-overwrite, slice-overwrite_end,
}
use network_lib.Buffer.{
  Buffer, make, swap, cheap_prepend, max_size, readable_bytes, int_offset, tostring, append,
  has_written, ensure_writable_bytes, shrink,
}
use network_lib.Buffer.Valid.{
  IsValid, contents, writable_bytes_lem, length-contents, copy_to_lem, make-IsValid,
}
use network_lib.Buffer.Contents.{ensure_writable_bytes-HasRoom}

-- Where the room is there, `append` keeps the vector's size.
append_in_place :
    (b : Buffer) (bytes : List ℕ)
    → IsValid b
    → b.writer_index + length bytes ≤ length b.buffer
    → append b bytes
      ≡ some (record b {
        buffer = overwrite b.buffer b.writer_index bytes;
        writer_index = b.writer_index + length bytes;
      })
unfolding append ensure_writable_bytes has_written
append_in_place b bytes v h =
    ground (arith, writable_bytes_lem b v, copy_to_lem b.buffer b.writer_index bytes h)

-- Below 2^31 the cast to `int` loses nothing, and `tostring` returns the readable bytes; with a
-- write index from 2^31 up to 2^32 the cast is negative and `tostring` faults.
tostring-contents :
    (b : Buffer)
    → IsValid b
    → (b.writer_index < 2 ^ 31 → tostring b ≡ some (contents b))
      × (2 ^ 31 ≤ b.writer_index → b.writer_index < 2 ^ 32 → tostring b ≡ none)
unfolding tostring int_offset
tostring-contents b v = (λ h. ground arith, λ h k. ground arith)

-- `shrink(reserve)` keeps the readable bytes, in a new buffer with room for `reserve` more.
shrink-contents :
    (b : Buffer) (reserve : ℕ)
    → IsValid b
    → b.writer_index < 2 ^ 31
    → length (contents b) + reserve + cheap_prepend ≤ max_size
    → (r : Buffer) × (shrink b reserve ≡ some r)
      × IsValid r
      × (contents r ≡ contents b)
      × (r.writer_index + reserve ≤ length r.buffer)
unfolding shrink swap make
shrink-contents b reserve v h k =
    let n = length-contents b v in
    let need : add_size (readable_bytes b) reserve ≡ length (contents b) + reserve = omega arith in
    let (room, e, has) =
      ensure_writable_bytes-HasRoom make (length (contents b) + reserve) make-IsValid
        (omega arith) in
    let bytes = contents b in
    let fits : room.writer_index + length bytes ≤ length room.buffer = omega (arith, has.room) in
    let size = length-overwrite room.buffer room.writer_index bytes fits in
    (
      record room {
        buffer = overwrite room.buffer room.writer_index bytes;
        writer_index = room.writer_index + length bytes;
      },
      ground
          (arith, need, e, (tostring-contents b v).0 h, append_in_place room bytes has.valid fits),
      omega (arith, size, has.valid, fits),
      slice-overwrite_end room.buffer room.reader_index room.writer_index bytes has.valid.ordered
            has.valid.inside (room.writer_index + length bytes - room.reader_index)
            (omega (arith, has.valid.ordered))
          ∙ ap (λ xs. xs ++ bytes) has.same,
      omega (arith, size, has.room),
    )
