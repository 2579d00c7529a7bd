-- ===== src/TcpClient.antt =====
-- lotus_project/lotus/net/TcpClient.h and TcpClient.cc: a client over its connector, in its loop's
-- thread. A TcpConnection is known by the number it was made with, which stands for the pointer to
-- it. The peer's address, like all else that the system returns, is an argument.
pub mod Sessions
mod Tests
use network_lib.Base.{
  ℕ, suc, Bool, true, false, ◌&&◌, Option, none, some, List, [], ◌∷◌, ◌++◌, ◌==◌, length, ltb,
  if◌then◌else◌, assert, ◌>>=◌, ◌>>◌,
}
use network_lib.Connector as Connectors
use network_lib.Connector.{Connector, Errno}
use network_lib.InetAddress.{InetAddress, to_ip_port}
use network_lib.TcpServer.{conn_name, int_max}

pub record Connection : Type 0 where
  pub serial : ℕ
  pub name : List ℕ
  pub sockfd : ℕ

-- The last three fields record the calls of connectEstablished and shutdown, and the functors of
-- connectDestroyed that the loop was given, in order.
pub record TcpClient : Type 0 where
  pub connector : Connector
  pub name : List ℕ
  pub retry : Bool
  pub connect : Bool
  pub next_conn_id : ℕ
  pub connection : Option Connection
  pub established : List Connection
  pub shut : List Connection
  pub destroyed : List Connection

pub make : Connector → List ℕ → TcpClient
make connector name = record {
  connector = connector;
  name = name;
  retry = false;
  connect = true;
  next_conn_id = 1;
  connection = none;
  established = [];
  shut = [];
  destroyed = [];
}

pub enable_retry : TcpClient → TcpClient
enable_retry c = record c { retry = true }

-- `sockfd` and `errno` are of the connector's attempt.
pub connect : TcpClient → ℕ → Errno → Option TcpClient
connect c sockfd errno = Connectors.start c.connector sockfd errno >>= λ k.
    some (record c { connect = true; connector = k })

pub disconnect : TcpClient → TcpClient
disconnect c = elim c.connection [
  | none ↦ record c { connect = false }
  | some p ↦ record c { connect = false; shut = c.shut ++ p ∷ [] }
]

pub stop : TcpClient → Option TcpClient
stop c = Connectors.stop c.connector >>= λ k. some (record c { connect = false; connector = k })

-- `newConnection`; `++nextConnId_` overflows at `int_max`.
pub new_connection : TcpClient → ℕ → InetAddress → Option TcpClient
new_connection c sockfd peer_addr = do
  assert (ltb c.next_conn_id int_max)
  let conn : Connection = record {
    serial = c.next_conn_id;
    name = conn_name c.name (to_ip_port peer_addr) c.next_conn_id;
    sockfd = sockfd;
  }
  some (record c {
    next_conn_id = suc c.next_conn_id;
    connection = some conn;
    established = c.established ++ conn ∷ [];
  })

-- The test of `connection_ == conn`
abbrev pub is_current : Option Connection → Connection → Bool
is_current none p = false
is_current (some q) p = q.serial == p.serial

-- `removeConnection`; `sockfd` and `errno` are of the attempt that a restart makes.
pub remove_connection : TcpClient → Connection → ℕ → Errno → Option TcpClient
remove_connection c p sockfd errno =
    let dropped = record c { connection = none; destroyed = c.destroyed ++ p ∷ [] } in
    let again : Option TcpClient = Connectors.restart c.connector sockfd errno >>= λ k.
    some (record dropped { connector = k }) in
    (assert (is_current c.connection p) >> (if c.retry && c.connect then again else some dropped))

-- The connector's `handleWrite`, which calls `newConnection` with the socket that it hands on.
abbrev pub deliver : TcpClient → List ℕ → ℕ → InetAddress → Option TcpClient
deliver c [] old peer_addr = some c
deliver c (sockfd ∷ rest) old peer_addr =
    if ltb old (suc (length rest)) then new_connection c sockfd peer_addr else some c

pub handle_write : TcpClient → ℕ → Bool → InetAddress → Option TcpClient
unfolding new_connection
handle_write c so_error self_connect peer_addr = do
  k ← Connectors.handle_write c.connector so_error self_connect
  deliver (record c { connector = k }) k.handed (length c.connector.handed) peer_addr
