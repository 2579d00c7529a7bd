-- ===== src/TcpServer/Names.antt =====
-- TcpServer.cc: the names of connections.
use network_lib.Base.{
  ℕ, ◌+◌, ◌^◌, ◌<◌, ◌≤◌, ◌≡◌, sym, ◌∙◌, List, ◌∷◌, ◌++◌, take, length, arith, length-append,
  take-all, append_left_cancel, decimal, decimal_injective, length-decimal-le,
}
use network_lib.TcpServer.{conn_name}

-- Below this bound the names are not cut off.
abbrev pub max_id : ℕ
max_id = 10 ^ 8

abbrev pub suffix : List ℕ → ℕ → List ℕ
suffix ip_port id = b':' ∷ (ip_port ++ b'#' ∷ decimal id)

length-suffix :
    (ip_port : List ℕ) (id : ℕ)
    → length (suffix ip_port id) ≡ length ip_port + length (decimal id) + 2
length-suffix ip_port id = omega (arith, length-append ip_port (b'#' ∷ decimal id))

take-suffix :
    (ip_port : List ℕ) (id : ℕ)
    → length ip_port ≤ 21
    → id < max_id
    → take 31 (suffix ip_port id) ≡ suffix ip_port id
take-suffix ip_port id short below =
    take-all 31 (suffix ip_port id)
      (omega (arith, length-suffix ip_port id, length-decimal-le 7 id below))

-- The names of two numbers below the bound differ.
pub conn_name_injective :
    (serv_name ip_port : List ℕ) (m n : ℕ)
    → length ip_port ≤ 21
    → m < max_id
    → n < max_id
    → conn_name serv_name ip_port m ≡ conn_name serv_name ip_port n
    → m ≡ n
unfolding conn_name
conn_name_injective serv_name ip_port m n short below below' e =
    let cut =
      append_left_cancel serv_name (take 31 (suffix ip_port m)) (take 31 (suffix ip_port n)) e in
    let whole : suffix ip_port m ≡ suffix ip_port n =
      sym (take-suffix ip_port m short below) ∙ cut ∙ take-suffix ip_port n short below' in
    let tails = append_left_cancel (b':' ∷ ip_port) (b'#' ∷ decimal m) (b'#' ∷ decimal n) whole in
    decimal_injective m n (cc)
