-- ===== src/TcpServer/Collision.antt =====
-- TcpServer.cc: names that the buffer of 32 characters cuts off.
use network_lib.Base.{
  ℕ, ◌+◌, ◌/◌, ◌%◌, ◌^◌, ◌<◌, ◌≤◌, ◌≡◌, sym, ap, ◌∙◌, none, some, List, [], ◌∷◌, ◌++◌, take, length,
  arith, length-append, append_assoc, take-append, decimal, decimal-eq-append, lt-length-decimal,
  length-decimal-le, same_refl,
}
use network_lib.Base.Dict.{lookup-erase}
use network_lib.InetAddress.{to_ip_port}
use network_lib.TcpServer.{Connection, TcpServer, conn_name, remove_connection_in_loop}
use network_lib.TcpServer.Names.{max_id}
use network_lib.TcpServer.Serving.{name_of}

-- Nine digits after an address of 21 characters do not fit: the last one is cut off.
conn_name_cut :
    (serv_name ip_port : List ℕ) (id : ℕ)
    → length ip_port ≡ 21
    → max_id ≤ id
    → id < 10 ^ 9
    → conn_name serv_name ip_port id ≡ serv_name ++ b':' ∷ (ip_port ++ b'#' ∷ decimal (id / 10))
unfolding conn_name
conn_name_cut serv_name ip_port id full from to =
    let shorter = decimal (id / 10) in
    let last = (b'0' + id % 10) ∷ [] in
    let split = decimal-eq-append id (omega (arith, from)) in
    let size : length shorter ≡ 8 = omega (
      arith,
      lt-length-decimal 8 id from,
      length-decimal-le 8 id to,
      ap length split,
      length-append shorter last,
    ) in
    let front = b':' ∷ (ip_port ++ b'#' ∷ shorter) in
    let whole : b':' ∷ (ip_port ++ b'#' ∷ decimal id) ≡ front ++ last =
      ap (λ (d : List ℕ). b':' ∷ (ip_port ++ b'#' ∷ d)) split
      ∙ ap (◌∷◌ b':') (sym (append_assoc ip_port (b'#' ∷ shorter) last)) in
    let enough : 31 ≡ length front =
      omega (arith, length-append ip_port (b'#' ∷ shorter), size, full) in
    ap (λ (x : List ℕ). serv_name ++ take 31 x) whole
    ∙ ap (λ (x : List ℕ). serv_name ++ x) (take-append front last 31 enough)

-- Numbers that differ in the last digit only give the same name.
conn_name_collision :
    (serv_name ip_port : List ℕ) (m n : ℕ)
    → length ip_port ≡ 21
    → max_id ≤ m
    → m < 10 ^ 9
    → max_id ≤ n
    → n < 10 ^ 9
    → m / 10 ≡ n / 10
    → conn_name serv_name ip_port m ≡ conn_name serv_name ip_port n
conn_name_collision serv_name ip_port m n full from to from' to' e =
    conn_name_cut serv_name ip_port m full from to
    ∙ ap (λ (d : ℕ). serv_name ++ b':' ∷ (ip_port ++ b'#' ∷ decimal d)) e
    ∙ sym (conn_name_cut serv_name ip_port n full from' to')

-- With an address of 21 characters, such as "255.255.255.255:65535", and numbers from 10^8 to 10^9
-- that differ in the last digit only, two connections have the same name: once the first of them is
-- removed, removeConnectionInLoop of the other one fails its assertion.
pub remove_connection_in_loop_collision :
    (s t : TcpServer) (c d : Connection)
    → length (to_ip_port s.serv_addr) ≡ 21
    → max_id ≤ c.serial
    → c.serial < 10 ^ 9
    → max_id ≤ d.serial
    → d.serial < 10 ^ 9
    → c.serial / 10 ≡ d.serial / 10
    → c.name ≡ name_of s c.serial
    → d.name ≡ name_of s d.serial
    → remove_connection_in_loop s c ≡ some t
    → remove_connection_in_loop t d ≡ none
unfolding remove_connection_in_loop
remove_connection_in_loop_collision s t c d full from to from' to' e named named' h =
    let met : c.name ≡ d.name =
      named
      ∙ conn_name_collision s.serv_name (to_ip_port s.serv_addr) c.serial d.serial full from to
          from' to' e
      ∙ sym named' in
    ground (arith, lookup-erase c.name d.name s.connections, met, same_refl d.name)
