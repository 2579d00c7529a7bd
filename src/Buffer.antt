-- ===== src/Buffer.antt =====
-- lotus_project/lotus/net/Buffer.h: the byte buffer, its two indices and the operations on them.
-- Every function that the source guards by `assert`, or that may throw, returns an option.
pub mod Bytes
pub mod Ints
pub mod Fd
pub mod Valid
pub mod Contents
pub mod Search
pub mod Shrink
pub mod Indices
mod Tests
use network_lib.Base.{
  ℕ, suc, ◌+◌, ◌-◌, ◌%◌, ◌^◌, Bool, true, false, Option, none, some, List, [], ◌∷◌, ◌++◌, ltb, leb,
  ◌==◌, if◌then◌else◌, ◌&&◌, length, take, drop, replicate, slice, overwrite, assert, ◌>>=◌, ◌>>◌,
  add_size, sub_size,
}

abbrev pub cheap_prepend : ℕ
cheap_prepend = 8

abbrev pub initial_size : ℕ
initial_size = 1024

-- `std::vector<char>::max_size()`
abbrev pub max_size : ℕ
max_size = 2 ^ 63 - 1

-- A byte is a number below 256; only the integer operations read its value.
pub record Buffer : Type 0 where
  pub buffer : List ℕ
  pub reader_index : ℕ
  pub writer_index : ℕ

unfoldable pub make : Buffer
make = record {
  buffer = replicate (cheap_prepend + initial_size) 0;
  reader_index = cheap_prepend;
  writer_index = cheap_prepend;
}

pub swap : Buffer × Buffer → Buffer × Buffer
swap (b, c) = (c, b)

abbrev pub readable_bytes : Buffer → ℕ
readable_bytes b = sub_size b.writer_index b.reader_index

abbrev pub writable_bytes : Buffer → ℕ
writable_bytes b = sub_size (length b.buffer) b.writer_index

abbrev pub prependable_bytes : Buffer → ℕ
prependable_bytes b = b.reader_index

-- The `n` bytes that `peek()` points at.
abbrev pub peek : Buffer → ℕ → List ℕ
peek b n = slice b.buffer b.reader_index n

-- `std::copy` into the vector; a write past its end is a fault.
pub copy_to : List ℕ → ℕ → List ℕ → Option (List ℕ)
copy_to xs i ys = if leb (i + length ys) (length xs) then some (overwrite xs i ys) else none

-- `std::vector<char>::resize`, which throws above `max_size`.
pub resize : List ℕ → ℕ → Option (List ℕ)
resize xs n = if leb n max_size then some (take n xs ++ replicate (n - length xs) 0) else none

pub retrieve_all : Buffer → Buffer
retrieve_all b = record b { reader_index = cheap_prepend; writer_index = cheap_prepend }

pub retrieve : Buffer → ℕ → Option Buffer
retrieve b len = do
  assert (leb len (readable_bytes b))
  some (
      if ltb len (readable_bytes b)
      then record b { reader_index = add_size b.reader_index len }
      else retrieve_all b)

-- The pointer `end` is its distance from `begin()`.
pub retrieve_until : Buffer → ℕ → Option Buffer
retrieve_until b end = do
  assert (leb b.reader_index end)
  assert (leb end b.writer_index)
  retrieve b (sub_size end b.reader_index)

pub retrieve_as_string : Buffer → ℕ → Option (List ℕ × Buffer)
retrieve_as_string b len = do
  assert (leb len (readable_bytes b))
  let result = peek b len
  rest ← retrieve b len
  some (result, rest)

pub retrieve_all_as_string : Buffer → Option (List ℕ × Buffer)
retrieve_all_as_string b = retrieve_as_string b (readable_bytes b)

-- `static_cast<int>` of an index, then added to `begin()`: a negative offset is a fault.
pub int_offset : ℕ → Option ℕ
int_offset i = let k = i % 2 ^ 32 in if ltb k (2 ^ 31) then some k else none

pub tostring : Buffer → Option (List ℕ)
tostring b = do
  first ← int_offset b.reader_index
  last ← int_offset b.writer_index
  assert (leb first last && leb last (length b.buffer))
  some (slice b.buffer first (last - first))

-- The bytes are moved down to `cheap_prepend`, or the vector grows.
pub make_space : Buffer → ℕ → Option Buffer
make_space b len =
    if ltb (add_size (writable_bytes b) (prependable_bytes b)) (add_size len cheap_prepend)
    then (do buf ← resize b.buffer (add_size b.writer_index len); some (record b { buffer = buf }))
    else (do
      assert (ltb cheap_prepend b.reader_index)
      let readable = readable_bytes b
      buf ← copy_to b.buffer cheap_prepend (peek b readable)
      let moved = record b {
        buffer = buf;
        reader_index = cheap_prepend;
        writer_index = add_size cheap_prepend readable;
      }
      assert (readable == readable_bytes moved)
      some moved)

pub ensure_writable_bytes : Buffer → ℕ → Option Buffer
ensure_writable_bytes b len = do
  room ← (if ltb (writable_bytes b) len then make_space b len else some b)
  assert (leb len (writable_bytes room))
  some room

pub has_written : Buffer → ℕ → Buffer
has_written b len = record b { writer_index = add_size b.writer_index len }

pub append : Buffer → List ℕ → Option Buffer
append b bytes = do
  room ← ensure_writable_bytes b (length bytes)
  buf ← copy_to room.buffer room.writer_index bytes
  some (has_written (record room { buffer = buf }) (length bytes))

pub prepend : Buffer → List ℕ → Option Buffer
prepend b bytes = do
  assert (leb (length bytes) (prependable_bytes b))
  let first = sub_size b.reader_index (length bytes)
  buf ← copy_to b.buffer first bytes
  some (record b { buffer = buf; reader_index = first })

-- `std::search(first, last, "\r\n", …)`: the first match's distance from `first`, or `last`'s.
pub search_crlf : List ℕ → ℕ
search_crlf [] = 0
search_crlf (x ∷ []) = 1
search_crlf (x ∷ y ∷ ys) = elim (x == 0x0d && y == 0x0a) [
  | true ↦ 0
  | false ↦ suc (search_crlf (y ∷ ys))
]

-- The inner option is the pointer (its distance from `begin()`), `none` for NULL.
pub find_crlf_from : Buffer → ℕ → Option (Option ℕ)
find_crlf_from b start = do
  assert (leb b.reader_index start)
  assert (leb start b.writer_index)
  let crlf = start + search_crlf (slice b.buffer start (b.writer_index - start))
  some (if crlf == b.writer_index then none else some crlf)

pub find_crlf : Buffer → Option ℕ
find_crlf b =
    let crlf = b.reader_index + search_crlf (peek b (readable_bytes b)) in
    if crlf == b.writer_index then none else some crlf

pub shrink : Buffer → ℕ → Option Buffer
shrink b reserve = do
  room ← ensure_writable_bytes make (add_size (readable_bytes b) reserve)
  bytes ← tostring b
  other ← append room bytes
  some (swap (b, other)).0
