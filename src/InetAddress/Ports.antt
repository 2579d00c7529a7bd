-- ===== src/InetAddress/Ports.antt =====
-- InetAddress.cc: ports, and equal addresses.
use network_lib.Base.{ℕ, ◌^◌, ◌<◌, ◌≡◌, ◌≢◌, ◌↔◌, Bool, true, false, none, some, arith}
use network_lib.InetAddress.{InetAddress, af_inet, from_port, to_port, port, ip, equal}

-- An address of a `sockaddr_in` with the family AF_INET.
pub record IsInet (a : InetAddress) : Type 0 where
  pub family : a.sin_family ≡ af_inet
  pub port_bits : a.sin_port < 2 ^ 16
  pub addr_bits : a.s_addr < 2 ^ 32

-- An address that is made for a port of 16 bits gives that port back, and is one of AF_INET.
to_port-from_port :
    (p : ℕ) (any : Bool) → p < 2 ^ 16 → (to_port (from_port p any) ≡ p) × IsInet (from_port p any)
unfolding to_port from_port
to_port-from_port p true h = (omega arith, omega arith)
to_port-from_port p false h = (omega arith, omega arith)

-- `operator==` tells just whether the two addresses are the same, and does not fail.
equal_iff :
    (a b : InetAddress)
    → IsInet a
    → IsInet b
    → ((equal a b ≡ some true) ↔ (a ≡ b)) × (equal a b ≢ none)
unfolding equal ip port
equal_iff a b i j = (ground arith, ground arith)
