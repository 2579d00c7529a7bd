-- ===== src/Buffer/Tests.antt =====
-- Buffer.h: the operations on a small buffer.
use network_lib.Base.{◌^◌, ◌<◌, ◌≡◌, some, [], ◌∷◌, ◌++◌, arith, length, replicate}
use network_lib.Buffer.{Buffer, retrieve, append, find_crlf}
use network_lib.Buffer.Bytes.{be_bytes}
use network_lib.Buffer.Ints.{append_int32, read_int32, read_int16, read_int8}
use network_lib.Buffer.Fd.{got, read_fd}
use network_lib.Buffer.Valid.{IsValid, contents}
use network_lib.Buffer.Contents.{Holds, append-contents}
use network_lib.Buffer.Ints.Roundtrip.{Reads, read_int-Reads, read_int32-append_int32}
use network_lib.Buffer.Fd.Scatter.{read_fd-contents}
use network_lib.Buffer.Search.{FirstCrlf, find_crlf-FirstCrlf}

-- Twelve bytes, of which "a\r\n" are readable.
abbrev line : Buffer
line = record {
  buffer = replicate 8 0 ++ 0x61 ∷ 0x0d ∷ 0x0a ∷ 0 ∷ [];
  reader_index = 8;
  writer_index = 11;
}

line-IsValid : IsValid line
line-IsValid = omega arith

-- The four bytes of 258.
abbrev word : Buffer
word = record { buffer = replicate 8 0 ++ 0 ∷ 0 ∷ 1 ∷ 2 ∷ []; reader_index = 8; writer_index = 12 }

word-IsValid : IsValid word
word-IsValid = omega arith

append-contents_example :
    (r : Buffer) × (append line (1 ∷ 2 ∷ []) ≡ some r)
    × IsValid r
    × (contents r ≡ contents line ++ 1 ∷ 2 ∷ [])
append-contents_example = append-contents line (1 ∷ 2 ∷ []) line-IsValid (omega arith)

read_int-Reads_example :
    (258 < 2 ^ 32 → contents word ≡ be_bytes 4 258 ++ [] → Reads 258 [] (read_int32 word))
    × (258 < 2 ^ 16 → contents word ≡ be_bytes 2 258 ++ [] → Reads 258 [] (read_int16 word))
    × (258 < 2 ^ 8 → contents word ≡ be_bytes 1 258 ++ [] → Reads 258 [] (read_int8 word))
read_int-Reads_example = read_int-Reads 258 word [] word-IsValid

read_int32-append_int32_example :
    (p q : Buffer) × (append_int32 line 258 ≡ some p)
    × (retrieve p (length (contents line)) ≡ some q)
    × Reads 258 [] (read_int32 q)
read_int32-append_int32_example =
    read_int32-append_int32 258 line line-IsValid (omega arith) (omega arith)

-- Five bytes, of which one fits.
read_fd-contents_example :
    Holds (contents line ++ 1 ∷ 2 ∷ 3 ∷ 4 ∷ 5 ∷ []) (read_fd line (got (1 ∷ 2 ∷ 3 ∷ 4 ∷ 5 ∷ [])))
read_fd-contents_example =
    read_fd-contents line (got (1 ∷ 2 ∷ 3 ∷ 4 ∷ 5 ∷ [])) line-IsValid (omega arith) (omega arith)

find_crlf-FirstCrlf_example : FirstCrlf line (find_crlf line)
find_crlf-FirstCrlf_example = find_crlf-FirstCrlf line line-IsValid
