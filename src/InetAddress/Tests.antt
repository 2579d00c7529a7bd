-- ===== src/InetAddress/Tests.antt =====
-- InetAddress.cc: the loopback address with port 8888.
use network_lib.Base.{◌≡◌, refl, false, arith}
use network_lib.InetAddress.{InetAddress, from_port}
use network_lib.InetAddress.Ports.{IsInet}
use network_lib.InetAddress.Printed.{to_ip_port_injective}

abbrev local : InetAddress
local = record { sin_family = 2; sin_port = 0xb822; s_addr = 0x0100007f }

local-IsInet : IsInet local
local-IsInet = omega arith

local_lem : from_port 8888 false ≡ local
unfolding from_port
local_lem = refl

to_ip_port_injective_example : local ≡ local
to_ip_port_injective_example = to_ip_port_injective local local local-IsInet local-IsInet refl
