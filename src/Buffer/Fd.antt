-- ===== src/Buffer/Fd.antt =====
-- lotus_project/lotus/net/Buffer.cc: readFd. The outcome of readv(2) is an argument.
pub mod Scatter
use network_lib.Base.{
  ℕ, ◌+◌, ◌-◌, Option, none, some, List, leb, if◌then◌else◌, length, take, drop, ◌>>=◌, add_size,
}
use network_lib.Buffer.{Buffer, writable_bytes, copy_to, append}

-- readv fails with an errno, or delivers bytes, which fill the first block before the second.
pub data Readv : Type 0 where
  failed : ℕ → Readv
  got : List ℕ → Readv

abbrev pub extra_size : ℕ
extra_size = 65536

-- The first block is the writable part of the vector; what does not fit went to `extrabuf`, and is
-- appended from there. The result's own value is what readv returned.
pub read_fd : Buffer → Readv → Option Buffer
read_fd b (failed e) = some b
read_fd b (got bytes) = do
  let writable = writable_bytes b
  buf ← copy_to b.buffer b.writer_index (take writable bytes)
  let filled = record b { buffer = buf }
  if leb (length bytes) writable
      then some (record filled { writer_index = add_size b.writer_index (length bytes) })
      else append (record filled { writer_index = length buf }) (drop writable bytes)
