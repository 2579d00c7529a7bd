-- ===== src/InetAddress/Printed.antt =====
-- InetAddress.cc: the text of an address.
use network_lib.Base.{
  ℕ, ◌/◌, ◌%◌, ◌^◌, ◌<◌, ◌≤◌, ◌≡◌, List, ◌∷◌, ◌++◌, arith, length, length-append, decimal,
  decimal_injective, length-decimal-le, decimal-Lacks, Lacks, Lacks-append, parts_injective,
}
use network_lib.InetAddress.{InetAddress, dotted, to_ip, to_port, to_ip_port, swap16}
use network_lib.InetAddress.Ports.{IsInet}

octet-le : (n : ℕ) → length (decimal (n % 256)) ≤ 3
octet-le n = length-decimal-le 2 (n % 256) (omega arith)

length-dotted-le : (s : ℕ) → length (dotted s) ≤ 15
unfolding dotted
length-dotted-le s =
    let third = decimal (s / 65536 % 256) ++ b'.' ∷ decimal (s / 16777216 % 256) in
    let second = decimal (s / 256 % 256) ++ b'.' ∷ third in
    omega (
      arith,
      length-append (decimal (s % 256)) (b'.' ∷ second),
      length-append (decimal (s / 256 % 256)) (b'.' ∷ third),
      length-append (decimal (s / 65536 % 256)) (b'.' ∷ decimal (s / 16777216 % 256)),
      octet-le s,
      octet-le (s / 256),
      octet-le (s / 65536),
      octet-le (s / 16777216),
    )

-- The text of an address has at most 21 characters, as in "255.255.255.255:65535".
pub length-to_ip_port-le : (a : InetAddress) → length (to_ip_port a) ≤ 21
unfolding to_ip_port to_ip to_port
length-to_ip_port-le a = ground (
  arith,
  length-append (to_ip a) (b':' ∷ decimal (swap16 a.sin_port)),
  length-dotted-le a.s_addr,
  length-decimal-le 4 (swap16 a.sin_port),
)

dotted-Lacks : (s : ℕ) → Lacks b':' (dotted s)
unfolding dotted
dotted-Lacks s =
    let octet = λ (n : ℕ). decimal-Lacks b':' (n % 256) (λ d small. omega arith) in
    let join = λ (n : ℕ) (rest : List ℕ) (h : Lacks b':' rest).
      Lacks-append b':' (decimal (n % 256)) (b'.' ∷ rest) (octet n) (omega arith, h) in
    let last = decimal (s / 16777216 % 256) in
    let third = decimal (s / 65536 % 256) ++ b'.' ∷ last in
    join s (decimal (s / 256 % 256) ++ b'.' ∷ third)
      (join (s / 256) third (join (s / 65536) last (octet (s / 16777216))))

dotted_injective : (r s : ℕ) → r < 2 ^ 32 → s < 2 ^ 32 → dotted r ≡ dotted s → r ≡ s
unfolding dotted
dotted_injective r s h k e =
    let third = λ (n : ℕ). decimal (n / 65536 % 256) ++ b'.' ∷ decimal (n / 16777216 % 256) in
    let second = λ (n : ℕ). decimal (n / 256 % 256) ++ b'.' ∷ third n in
    let stop = λ (n : ℕ). decimal-Lacks b'.' (n % 256) (λ d small. omega arith) in
    let p =
      parts_injective b'.' (decimal (r % 256)) (decimal (s % 256)) (second r) (second s) (stop r)
        (stop s) e in
    let q =
      parts_injective b'.' (decimal (r / 256 % 256)) (decimal (s / 256 % 256)) (third r) (third s)
        (stop (r / 256)) (stop (s / 256)) p.1 in
    let t =
      parts_injective b'.' (decimal (r / 65536 % 256)) (decimal (s / 65536 % 256))
        (decimal (r / 16777216 % 256)) (decimal (s / 16777216 % 256)) (stop (r / 65536))
        (stop (s / 65536)) q.1 in
    omega (
      arith,
      decimal_injective (r % 256) (s % 256) p.0,
      decimal_injective (r / 256 % 256) (s / 256 % 256) q.0,
      decimal_injective (r / 65536 % 256) (s / 65536 % 256) t.0,
      decimal_injective (r / 16777216 % 256) (s / 16777216 % 256) t.1,
    )

-- Two addresses of AF_INET with the same text are the same.
pub to_ip_port_injective :
    (a b : InetAddress) → IsInet a → IsInet b → to_ip_port a ≡ to_ip_port b → a ≡ b
unfolding to_ip_port to_ip to_port
to_ip_port_injective a b i j e =
    let ip_of : (c : InetAddress) → IsInet c → to_ip c ≡ dotted c.s_addr =
      λ c k. ground (arith, k.family) in
    let lacks : (c : InetAddress) → IsInet c → Lacks b':' (to_ip c) =
      λ c k. rw (ip_of c k) (dotted-Lacks c.s_addr) in
    let p =
      parts_injective b':' (to_ip a) (to_ip b) (decimal (to_port a)) (decimal (to_port b))
        (lacks a i) (lacks b j) e in
    let addr : a.s_addr ≡ b.s_addr =
      dotted_injective a.s_addr b.s_addr i.addr_bits j.addr_bits
        (ground (arith, ip_of a i, ip_of b j, p.0)) in
    let ports : a.sin_port ≡ b.sin_port =
      omega (arith, decimal_injective (to_port a) (to_port b) p.1, i.port_bits, j.port_bits) in
    ground (arith, addr, ports, i.family, j.family)
