-- ===== src/InetAddress.antt =====
-- lotus_project/lotus/net/InetAddress.h and InetAddress.cc: an IPv4 address with its port. The
-- fields of `sockaddr_in` in network byte order stand as a little-endian host reads them. What
-- inet_pton makes of a text is an argument.
pub mod Printed
pub mod Ports
mod Tests
use network_lib.Base.{
  ℕ, ◌+◌, ◌*◌, ◌/◌, ◌%◌, ◌^◌, Bool, true, false, ◌&&◌, Option, none, some, List, [], ◌∷◌, ◌++◌,
  ◌==◌, if◌then◌else◌, assert, ◌>>=◌, ◌>>◌, decimal,
}

pub record InetAddress : Type 0 where
  pub sin_family : ℕ
  pub sin_port : ℕ
  pub s_addr : ℕ

abbrev pub af_inet : ℕ
af_inet = 2

-- `htons` and `ntohs`, and `htonl`
abbrev pub swap16 : ℕ → ℕ
swap16 x = x % 256 * 256 + x / 256 % 256

abbrev pub swap32 : ℕ → ℕ
swap32 x = swap16 (x % 65536) * 65536 + swap16 (x / 65536 % 65536)

abbrev pub inaddr_loopback : ℕ
inaddr_loopback = 0x7f000001

-- `InetAddress(port, addr_any)`
pub from_port : ℕ → Bool → InetAddress
from_port port addr_any = record {
  sin_family = af_inet;
  sin_port = swap16 port;
  s_addr = swap32 (if addr_any then 0 else inaddr_loopback);
}

-- `InetAddress(ip, port)`: a text that inet_pton refuses leaves the address zero.
pub from_ip : Option ℕ → ℕ → InetAddress
from_ip none port = record { sin_family = af_inet; sin_port = swap16 port; s_addr = 0 }
from_ip (some addr) port = record { sin_family = af_inet; sin_port = swap16 port; s_addr = addr }

-- `InetAddress(addr)`
unfoldable pub from_sockaddr : InetAddress → Option InetAddress
from_sockaddr a = assert (a.sin_family == af_inet) >> some a

-- inet_ntop: the bytes in memory order, with full stops.
pub dotted : ℕ → List ℕ
dotted s =
    decimal (s % 256)
    ++ b'.'
      ∷ (decimal (s / 256 % 256)
          ++ b'.' ∷ (decimal (s / 65536 % 256) ++ b'.' ∷ decimal (s / 16777216 % 256)))

pub to_ip : InetAddress → List ℕ
unfolding dotted
to_ip a = if a.sin_family == af_inet then dotted a.s_addr else []

pub to_port : InetAddress → ℕ
to_port a = swap16 a.sin_port

unfoldable pub to_ip_port : InetAddress → List ℕ
unfolding to_ip to_port
to_ip_port a = to_ip a ++ b':' ∷ decimal (to_port a)

-- As it stands in the field, in network byte order.
pub port : InetAddress → ℕ
port a = a.sin_port

pub ip : InetAddress → Option ℕ
ip a = assert (a.sin_family == af_inet) >> some a.s_addr

-- `operator==`
pub equal : InetAddress → InetAddress → Option Bool
equal a b = do
  assert (a.sin_family == af_inet)
  mine ← ip a
  let other : Option Bool = ip b >>= λ its. some (mine == its)
  if port a == port b && a.sin_family == b.sin_family then other else some false
