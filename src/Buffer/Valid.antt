-- ===== src/Buffer/Valid.antt =====
-- Buffer.h: the layout of its header comment, 0 <= readerIndex <= writerIndex <= size, as an
-- invariant, and the size computations under it.
use network_lib.Base.{
  ℕ, ◌+◌, ◌-◌, ◌≤◌, ◌≡◌, some, List, arith, length, slice, overwrite, length-slice,
  length-replicate, replicate, ◌++◌, length-append, take-all,
}
use network_lib.Buffer.{
  Buffer, make, cheap_prepend, max_size, readable_bytes, writable_bytes, copy_to, resize,
}

pub record IsValid (b : Buffer) : Type 0 where
  pub ordered : b.reader_index ≤ b.writer_index
  pub inside : b.writer_index ≤ length b.buffer
  pub headed : cheap_prepend ≤ length b.buffer
  pub small : length b.buffer ≤ max_size

-- The readable bytes, the buffer's abstract value.
abbrev pub contents : Buffer → List ℕ
contents b = slice b.buffer b.reader_index (b.writer_index - b.reader_index)

-- No subtraction of the size functions wraps.
pub readable_bytes_lem :
    (b : Buffer) → IsValid b → readable_bytes b ≡ b.writer_index - b.reader_index
readable_bytes_lem b v = omega arith

pub writable_bytes_lem :
    (b : Buffer) → IsValid b → writable_bytes b ≡ length b.buffer - b.writer_index
writable_bytes_lem b v = omega arith

pub length-contents :
    (b : Buffer) → IsValid b → length (contents b) ≡ b.writer_index - b.reader_index
length-contents b v =
    length-slice b.buffer b.reader_index (b.writer_index - b.reader_index) (omega arith)

pub copy_to_lem :
    (xs : List ℕ) (i : ℕ) (ys : List ℕ)
    → i + length ys ≤ length xs
    → copy_to xs i ys ≡ some (overwrite xs i ys)
unfolding copy_to
copy_to_lem xs i ys h = ground arith

-- A vector that grows keeps its elements and is filled with zeros.
pub resize_lem :
    (xs : List ℕ) (n : ℕ)
    → length xs ≤ n
    → n ≤ max_size
    → resize xs n ≡ some (xs ++ replicate (n - length xs) 0)
unfolding resize
resize_lem xs n h k = ground (arith, take-all n xs h)

pub length-grown :
    (xs : List ℕ) (n : ℕ) → length xs ≤ n → length (xs ++ replicate (n - length xs) 0) ≡ n
length-grown xs n h = omega (
  arith,
  length-append xs (replicate (n - length xs) 0),
  length-replicate {A = ℕ} (n - length xs) 0,
)

pub make-IsValid : IsValid make
unfolding make
make-IsValid = omega arith
