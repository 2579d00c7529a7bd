-- ===== src/Buffer/Ints/Roundtrip.antt =====
-- Buffer.h: an integer that was appended or prepended is read back.
use network_lib.Base.{
  Option, append-nil, ℕ, ◌+◌, ◌-◌, ◌^◌, ◌≤◌, ◌<◌, ◌≡◌, refl, sym, ap, ◌∙◌, some, List, [], ◌++◌,
  arith, length, take, drop, length-append, take-append, drop-append, take-take,
}
use network_lib.Buffer.{Buffer, retrieve, max_size, peek}
use network_lib.Buffer.Bytes.{be_bytes, be_value, length-be_bytes, be_value-be_bytes}
use network_lib.Buffer.Ints.{
  append_int32, prepend_int32, peek_int, read_int32, peek_int32, retrieve_int32, read_int16,
  peek_int16, retrieve_int16, read_int8, peek_int8, retrieve_int8,
}
use network_lib.Buffer.Valid.{IsValid, contents, readable_bytes_lem, length-contents}
use network_lib.Buffer.Contents.{append-contents, prepend-contents, retrieve-contents}

-- A buffer that begins with the bytes of `x` yields `x` to `peekInt`.
pub peek_int-eq :
    (n x : ℕ) (b : Buffer) (rest : List ℕ)
    → IsValid b
    → x < 256 ^ n
    → contents b ≡ be_bytes n x ++ rest
    → peek_int n b ≡ some x
unfolding peek_int
peek_int-eq n x b rest v h e =
    let size : n ≤ b.writer_index - b.reader_index = omega (
      arith,
      length-contents b v,
      ap length e,
      length-append (be_bytes n x) rest,
      length-be_bytes n x,
    ) in
    let seen : peek b n ≡ be_bytes n x =
      sym (take-take n (b.writer_index - b.reader_index) (drop b.reader_index b.buffer) size)
      ∙ ap (take n) e
      ∙ take-append (be_bytes n x) rest n (sym (length-be_bytes n x)) in
    ground (arith, readable_bytes_lem b v, ap be_value seen, be_value-be_bytes n x h)

-- Peeking and retrieving an integer of `n` bytes, as the three `readInt` functions do.
read_int-eq :
    (n x : ℕ) (b : Buffer) (rest : List ℕ)
    → IsValid b
    → x < 256 ^ n
    → contents b ≡ be_bytes n x ++ rest
    → (r : Buffer) × (peek_int n b ≡ some x)
      × (retrieve b n ≡ some r)
      × IsValid r
      × (contents r ≡ rest)
read_int-eq n x b rest v h e =
    let size : n ≤ length (contents b) =
      omega (arith, ap length e, length-append (be_bytes n x) rest, length-be_bytes n x) in
    let (r, f, w, c) = (retrieve-contents b n v).0 size in
    (
      r,
      peek_int-eq n x b rest v h e,
      f,
      w,
      c ∙ ap (drop n) e ∙ drop-append (be_bytes n x) rest n (sym (length-be_bytes n x)),
    )

-- An operation that returns the integer `x` and leaves the bytes `rest` in a buffer in order.
abbrev pub Reads : ℕ → List ℕ → Option (ℕ × Buffer) → Type 0
Reads x rest o = (r : Buffer) × (o ≡ some (x, r)) × IsValid r × (contents r ≡ rest)

-- `readInt32`, `readInt16` and `readInt8` return the integer whose big-endian bytes the buffer
-- begins with, and drop just those bytes.
pub read_int-Reads :
    (x : ℕ) (b : Buffer) (rest : List ℕ)
    → IsValid b
    → (x < 2 ^ 32 → contents b ≡ be_bytes 4 x ++ rest → Reads x rest (read_int32 b))
      × (x < 2 ^ 16 → contents b ≡ be_bytes 2 x ++ rest → Reads x rest (read_int16 b))
      × (x < 2 ^ 8 → contents b ≡ be_bytes 1 x ++ rest → Reads x rest (read_int8 b))
unfolding read_int32 peek_int32 retrieve_int32 read_int16 peek_int16 retrieve_int16 read_int8
    peek_int8 retrieve_int8
read_int-Reads x b rest v = (
  λ h e. let (r, p, f, w, c) = read_int-eq 4 x b rest v h e in (r, ground (arith, p, f), w, c),
  λ h e. let (r, p, f, w, c) = read_int-eq 2 x b rest v h e in (r, ground (arith, p, f), w, c),
  λ h e. let (r, p, f, w, c) = read_int-eq 1 x b rest v h e in (r, ground (arith, p, f), w, c),
)

-- An integer of 32 bits that is prepended is the next one read, and reading it gives the old bytes
-- back.
read_int32-prepend_int32 :
    (x : ℕ) (b : Buffer)
    → IsValid b
    → x < 2 ^ 32
    → 4 ≤ b.reader_index
    → (p : Buffer) × (prepend_int32 b x ≡ some p) × Reads x (contents b) (read_int32 p)
unfolding prepend_int32
read_int32-prepend_int32 x b v h room =
    let (p, e, w, c) =
      (prepend-contents b (be_bytes 4 x) v).0 (omega (arith, length-be_bytes 4 x)) in
    (p, e, (read_int-Reads x p (contents b) w).0 h c)

-- An integer of 32 bits that is appended is read back once the older bytes are retrieved.
pub read_int32-append_int32 :
    (x : ℕ) (b : Buffer)
    → IsValid b
    → x < 2 ^ 32
    → b.writer_index + 4 ≤ max_size
    → (p q : Buffer) × (append_int32 b x ≡ some p)
      × (retrieve p (length (contents b)) ≡ some q)
      × Reads x [] (read_int32 q)
unfolding append_int32
read_int32-append_int32 x b v h room =
    let old = contents b in
    let (p, e, w, c) = append-contents b (be_bytes 4 x) v (omega (arith, length-be_bytes 4 x)) in
    let size : length old ≤ length (contents p) =
      omega (arith, ap length c, length-append old (be_bytes 4 x)) in
    let (q, f, u, d) = (retrieve-contents p (length old) w).0 size in
    let bytes = d ∙ ap (drop (length old)) c ∙ drop-append old (be_bytes 4 x) (length old) refl in
    (p, q, e, f, (read_int-Reads x q [] u).0 h (bytes ∙ sym (append-nil (be_bytes 4 x))))
