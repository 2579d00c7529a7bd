-- ===== src/Buffer/Ints.antt =====
-- Buffer.h: the integers in network byte order. An `int32_t`, `int16_t` or `int8_t` stands as its
-- bit pattern, a number below 2^32, 2^16 or 2^8.
pub mod Roundtrip
use network_lib.Base.{ℕ, ◌%◌, ◌^◌, Option, none, some, List, [], ◌∷◌, leb, assert, ◌>>=◌, ◌>>◌}
use network_lib.Buffer.{Buffer, readable_bytes, peek, retrieve, append, prepend}
use network_lib.Buffer.Bytes.{be_bytes, be_value}

pub append_int32 : Buffer → ℕ → Option Buffer
append_int32 b x = append b (be_bytes 4 x)

pub append_int16 : Buffer → ℕ → Option Buffer
append_int16 b x = append b (be_bytes 2 x)

pub append_int8 : Buffer → ℕ → Option Buffer
append_int8 b x = append b (be_bytes 1 x)

pub prepend_int32 : Buffer → ℕ → Option Buffer
prepend_int32 b x = prepend b (be_bytes 4 x)

pub prepend_int16 : Buffer → ℕ → Option Buffer
prepend_int16 b x = prepend b (be_bytes 2 x)

pub prepend_int8 : Buffer → ℕ → Option Buffer
prepend_int8 b x = prepend b (be_bytes 1 x)

-- The body that the three `peekInt` functions share, at the integer's size.
pub peek_int : ℕ → Buffer → Option ℕ
peek_int size b = do assert (leb size (readable_bytes b)); some (be_value (peek b size))

pub peek_int32 : Buffer → Option ℕ
peek_int32 b = peek_int 4 b

pub peek_int16 : Buffer → Option ℕ
peek_int16 b = peek_int 2 b

pub peek_int8 : Buffer → Option ℕ
peek_int8 b = peek_int 1 b

pub retrieve_int32 : Buffer → Option Buffer
retrieve_int32 b = retrieve b 4

pub retrieve_int16 : Buffer → Option Buffer
retrieve_int16 b = retrieve b 2

pub retrieve_int8 : Buffer → Option Buffer
retrieve_int8 b = retrieve b 1

pub read_int32 : Buffer → Option (ℕ × Buffer)
read_int32 b = do result ← peek_int32 b; rest ← retrieve_int32 b; some (result, rest)

pub read_int16 : Buffer → Option (ℕ × Buffer)
read_int16 b = do result ← peek_int16 b; rest ← retrieve_int16 b; some (result, rest)

pub read_int8 : Buffer → Option (ℕ × Buffer)
read_int8 b = do result ← peek_int8 b; rest ← retrieve_int8 b; some (result, rest)
