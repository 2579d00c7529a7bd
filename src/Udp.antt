-- ===== src/Udp.antt =====
-- lotus_project/lotus/net/UdpServer.cc and UdpClient.cc: what both do with a datagram.
pub mod Texts
pub mod Server
pub mod Client
mod Tests
use network_lib.Base.{
  ℕ, ◌+◌, ◌-◌, Option, none, some, List, [], ◌∷◌, ◌++◌, ◌==◌, if◌then◌else◌, length, take,
  replicate, ◌>>=◌,
}

abbrev pub buff_size : ℕ
buff_size = 1024

-- recvfrom or read: an error, or a datagram, of which the call keeps what the buffer holds.
pub data Received : Type 0 where
  failed : Received
  got : List ℕ → Received

-- `buf` after the call; it was zeroed before.
pub filled : Received → List ℕ
filled failed = replicate buff_size 0
filled (got bytes) = take buff_size bytes ++ replicate (buff_size - length bytes) 0

-- `std::string(buf)` reads up to the first zero. With none in the buffer it reads past its end,
-- which is a fault.
pub c_string : List ℕ → Option (List ℕ)
c_string [] = none
c_string (x ∷ xs) = let rest = c_string xs >>= λ s. some (x ∷ s) in if x == 0 then some [] else rest
