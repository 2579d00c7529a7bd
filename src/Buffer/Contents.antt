-- ===== src/Buffer/Contents.antt =====
-- Buffer.h: what ensureWritableBytes, append, retrieve and prepend do to the readable bytes.
use network_lib.Base.{
  ℕ, ◌+◌, ◌-◌, ◌≤◌, ◌<◌, ◌≡◌, refl, ap, ◌∙◌, Option, none, some, List, ◌++◌, arith, length,
  overwrite, length-overwrite, add_size, sub_size, Bool-cases, ltb, inl, inr, replicate, take, drop,
  slice-append, slice-overwrite_end, slice-overwrite_front, drop-drop, drop-take, take-take,
  drop-all, sym, append-nil,
}
use network_lib.Buffer.{
  Buffer, cheap_prepend, max_size, readable_bytes, writable_bytes, prependable_bytes, retrieve_all,
  retrieve, make_space, ensure_writable_bytes, append, has_written, prepend, retrieve_as_string,
}
use network_lib.Buffer.Valid.{
  IsValid, contents, readable_bytes_lem, writable_bytes_lem, length-contents, copy_to_lem,
  resize_lem, length-grown,
}

-- `r` holds what `b` holds and has room for `len` more bytes; its vector has grown by `len` at most.
pub record HasRoom (b : Buffer) (len : ℕ) (r : Buffer) : Type 0 where
  pub valid : IsValid r
  pub same : contents r ≡ contents b
  pub room : r.writer_index + len ≤ length r.buffer
  pub bounded : length r.buffer ≤ length b.buffer + len

module _ (b : Buffer) (len : ℕ) (v : IsValid b) where
  abbrev grown : Buffer
  grown = record b { buffer = b.buffer ++ replicate (b.writer_index + len - length b.buffer) 0 }

  grown-HasRoom :
      length b.buffer ≤ b.writer_index + len → b.writer_index + len ≤ max_size → HasRoom b len grown
  grown-HasRoom h k =
      let size = length-grown b.buffer (b.writer_index + len) h in
      record {
        valid = omega (arith, size);
        same =
            slice-append b.buffer (replicate (b.writer_index + len - length b.buffer) 0)
              b.reader_index (b.writer_index - b.reader_index) (omega arith);
        room = omega (arith, size);
        bounded = omega (arith, size, v.inside);
      }

  abbrev moved : Buffer
  moved = record b {
    buffer = overwrite b.buffer cheap_prepend (contents b);
    reader_index = cheap_prepend;
    writer_index = cheap_prepend + (b.writer_index - b.reader_index);
  }

  moved-HasRoom :
      cheap_prepend + (b.writer_index - b.reader_index) + len ≤ length b.buffer
      → HasRoom b len moved
  moved-HasRoom h =
      let size = length-contents b v in
      record {
        valid = omega (arith, size, length-overwrite b.buffer cheap_prepend (contents b));
        same =
            slice-overwrite_front b.buffer cheap_prepend (cheap_prepend + length (contents b)) 0
              (contents b) refl (omega (arith, size)) moved_count (omega (arith, size))
            ∙ append-nil (contents b);
        room = omega (arith, size, length-overwrite b.buffer cheap_prepend (contents b));
        bounded = omega (arith, size, length-overwrite b.buffer cheap_prepend (contents b));
      }
    where
      moved_count : ℕ
      moved_count = cheap_prepend + (b.writer_index - b.reader_index) - cheap_prepend

  -- `makeSpace`, called as `ensureWritableBytes` calls it, makes the room asked for.
  pub make_space-HasRoom :
      length b.buffer < b.writer_index + len
      → b.writer_index + len ≤ max_size
      → (r : Buffer) × (make_space b len ≡ some r) × HasRoom b len r
  unfolding make_space
  make_space-HasRoom h k =
      elim (Bool-cases (ltb (add_size (writable_bytes b) b.reader_index) (add_size len 8))) [
        | inl grow ↦ (
          grown,
          ground (arith, resize_lem b.buffer (b.writer_index + len)),
          grown-HasRoom (omega arith) k,
        )
        | inr move ↦ (
          moved,
          ground (
            arith,
            copy_to_lem b.buffer cheap_prepend (contents b),
            length-contents b v,
            readable_bytes_lem b v,
          ),
          moved-HasRoom (ground arith),
        )
      ]

-- Below the vector's limit `ensureWritableBytes(len)` succeeds on a buffer in its layout; the
-- readable bytes are then the same, the layout is kept and `len` more bytes fit.
pub ensure_writable_bytes-HasRoom :
    (b : Buffer) (len : ℕ)
    → IsValid b
    → b.writer_index + len ≤ max_size
    → (r : Buffer) × (ensure_writable_bytes b len ≡ some r) × HasRoom b len r
unfolding ensure_writable_bytes
ensure_writable_bytes-HasRoom b len v k = elim (Bool-cases (ltb (writable_bytes b) len)) [
  | inl short ↦
      let (r, e, room) = make_space-HasRoom b len v (ground arith) k in
      (r, ground (arith, e, room, writable_bytes_lem r room.valid), room)
  | inr enough ↦ (
    b,
    ground arith,
    record { valid = v; same = refl; room = ground arith; bounded = omega arith },
  )
]

-- On a buffer in its layout, `append` does not fail while the bytes fit below the vector's limit:
-- it puts them behind the readable ones, in order, and keeps the layout.
pub append-contents :
    (b : Buffer) (bytes : List ℕ)
    → IsValid b
    → b.writer_index + length bytes ≤ max_size
    → (r : Buffer) × (append b bytes ≡ some r) × IsValid r × (contents r ≡ contents b ++ bytes)
unfolding append has_written
append-contents b bytes v k =
    let (r, e, room) = ensure_writable_bytes-HasRoom b (length bytes) v k in
    let buf = overwrite r.buffer r.writer_index bytes in
    let size = length-overwrite r.buffer r.writer_index bytes room.room in
    let w : add_size r.writer_index (length bytes) ≡ r.writer_index + length bytes =
      omega (arith, room.room, room.valid.small) in
    let out : Buffer = record {
      buffer = buf;
      reader_index = r.reader_index;
      writer_index = r.writer_index + length bytes;
    } in
    (
      out,
      ground (arith, e, w, copy_to_lem r.buffer r.writer_index bytes room.room),
      omega (arith, size, room.room, room.valid.ordered, room.valid.small, room.valid.headed),
      slice-overwrite_end r.buffer r.reader_index r.writer_index bytes room.valid.ordered
            room.valid.inside (r.writer_index + length bytes - r.reader_index)
            (omega (arith, room.valid.ordered))
          ∙ ap (λ xs. xs ++ bytes) room.same,
    )

-- An operation that fails (`none`), or returns a buffer in order that holds `xs`.
abbrev pub Holds : List ℕ → Option Buffer → Type 0
Holds xs o = (r : Buffer) × (o ≡ some r) × IsValid r × (contents r ≡ xs)

retrieve_some :
    (b : Buffer) (len : ℕ)
    → IsValid b
    → len ≤ b.writer_index - b.reader_index
    → Holds (drop len (contents b)) (retrieve b len)
unfolding retrieve retrieve_all
retrieve_some b len v h = elim (Bool-cases (ltb len (readable_bytes b))) [
  | inl some_left ↦ (
    record b { reader_index = b.reader_index + len },
    ground (arith, readable_bytes_lem b v),
    ground arith,
    ap (λ xs. take (b.writer_index - (b.reader_index + len)) xs)
          (sym (drop-drop len b.reader_index b.buffer))
        ∙ ap (λ n. take n (drop len (drop b.reader_index b.buffer))) (omega arith)
        ∙ sym (drop-take len (b.writer_index - b.reader_index) (drop b.reader_index b.buffer)),
  )
  | inr none_left ↦ (
    record b { reader_index = cheap_prepend; writer_index = cheap_prepend },
    ground (arith, readable_bytes_lem b v),
    omega arith,
    sym (drop-all len (contents b) (ground (arith, length-contents b v, readable_bytes_lem b v))),
  )
]

-- `retrieve(len)` drops the first `len` readable bytes and keeps the layout, if there are as many;
-- if not, its assertion fails.
pub retrieve-contents :
    (b : Buffer) (len : ℕ)
    → IsValid b
    → (len ≤ length (contents b) → Holds (drop len (contents b)) (retrieve b len))
      × (length (contents b) < len → retrieve b len ≡ none)
unfolding retrieve
retrieve-contents b len v =
    let n = length-contents b v in
    let f = readable_bytes_lem b v in
    (λ h. retrieve_some b len v (omega (arith, n)), λ h. ground (arith, n, f))

-- `retrieveAsString(len)` returns the first `len` readable bytes and drops just those.
retrieve_as_string-contents :
    (b : Buffer) (len : ℕ)
    → IsValid b
    → len ≤ length (contents b)
    → (r : Buffer) × (retrieve_as_string b len ≡ some (take len (contents b), r))
      × IsValid r
      × (contents r ≡ drop len (contents b))
unfolding retrieve_as_string
retrieve_as_string-contents b len v h =
    let n = length-contents b v in
    let (r, e, w, c) = retrieve_some b len v (omega (arith, n)) in
    (
      r,
      ground (
        arith,
        e,
        n,
        readable_bytes_lem b v,
        take-take len (b.writer_index - b.reader_index) (drop b.reader_index b.buffer),
      ),
      w,
      c,
    )

prepend_some :
    (b : Buffer) (bytes : List ℕ)
    → IsValid b
    → length bytes ≤ b.reader_index
    → Holds (bytes ++ contents b) (prepend b bytes)
unfolding prepend
prepend_some b bytes v h =
    let first = b.reader_index - length bytes in
    let size = length-overwrite b.buffer first bytes (omega arith) in
    let w : sub_size b.reader_index (length bytes) ≡ first = omega arith in
    (
      record b { buffer = overwrite b.buffer first bytes; reader_index = first },
      ground (arith, w, copy_to_lem b.buffer first bytes),
      omega (arith, size),
      slice-overwrite_front b.buffer first b.reader_index (b.writer_index - b.reader_index) bytes
          (omega arith) (omega arith) (b.writer_index - first) (omega arith),
    )

-- `prepend` puts the bytes before the readable ones if they fit below the read index, and fails
-- its assertion if they do not.
pub prepend-contents :
    (b : Buffer) (bytes : List ℕ)
    → IsValid b
    → (length bytes ≤ prependable_bytes b → Holds (bytes ++ contents b) (prepend b bytes))
      × (prependable_bytes b < length bytes → prepend b bytes ≡ none)
unfolding prepend
prepend-contents b bytes v = (prepend_some b bytes v, λ h. ground arith)
