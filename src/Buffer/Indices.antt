-- ===== src/Buffer/Indices.antt =====
-- Buffer.h and Buffer.cc: retrieveUntil by the number of bytes, and how long the vector gets.
use network_lib.Base.{
  ℕ, ◌+◌, ◌≤◌, ◌≡◌, ap, some, List, length, arith, ltb, sub_size, Bool-cases, inl, inr, overwrite,
  length-overwrite,
}
use network_lib.Buffer.{
  Buffer, readable_bytes, retrieve, retrieve_all, retrieve_until, append, has_written, max_size,
}
use network_lib.Buffer.Valid.{IsValid, contents, length-contents, copy_to_lem}
use network_lib.Buffer.Contents.{ensure_writable_bytes-HasRoom}

-- `retrieveUntil` of the pointer that is `k` readable bytes away.
pub retrieve_until_lem :
    (b : Buffer) (k : ℕ)
    → IsValid b
    → k ≤ length (contents b)
    → retrieve_until b (b.reader_index + k) ≡ retrieve b k
unfolding retrieve_until
retrieve_until_lem b k v h =
    let n = length-contents b v in
    let d : sub_size (b.reader_index + k) b.reader_index ≡ k = omega (arith, n) in
    ground (arith, n, d)

-- `retrieve` leaves the vector as it is.
pub retrieve-buffer : (b c : Buffer) (k : ℕ) → retrieve b k ≡ some c → c.buffer ≡ b.buffer
unfolding retrieve retrieve_all
retrieve-buffer b c k h = elim (Bool-cases (ltb k (readable_bytes b))) [
  | inl some_left ↦ ground arith
  | inr none_left ↦ ground arith
]

-- `append` makes the vector longer by as many bytes at most.
pub append-length :
    (b c : Buffer) (bytes : List ℕ)
    → IsValid b
    → b.writer_index + length bytes ≤ max_size
    → append b bytes ≡ some c
    → length c.buffer ≤ length b.buffer + length bytes
unfolding append has_written
append-length b c bytes v k h =
    let (r, e, room) = ensure_writable_bytes-HasRoom b (length bytes) v k in
    let size = length-overwrite r.buffer r.writer_index bytes room.room in
    let put = copy_to_lem r.buffer r.writer_index bytes room.room in
    let same : c.buffer ≡ overwrite r.buffer r.writer_index bytes = ground (arith, e, put) in
    omega (arith, ap length same, size, room.bounded)
