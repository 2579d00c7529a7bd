-- ===== src/TcpClient/Tests.antt =====
-- TcpClient.cc: a client that connects, and whose connection closes.
use network_lib.Base.{◌≡◌, ◌≢◌, refl, false, ◌&&◌, Option, none, some, []}
use network_lib.Channels
use network_lib.Channels.{Epoll, enable_writing, disable_all, remove}
use network_lib.Connector as Connectors
use network_lib.Connector.{Connector, connected, einprogress, success}
use network_lib.Connector.Sockets.{InOrder}
use network_lib.InetAddress.{InetAddress}
use network_lib.TcpClient.{
  Connection, TcpClient, make, connect, remove_connection, handle_write, new_connection,
}
use network_lib.TcpClient.Sessions.{
  Reach, here, next, connects, writes, Reach-make-Rests, connect-remove_connection,
}

abbrev peer : InetAddress
peer = record { sin_family = 2; sin_port = 0xb822; s_addr = 0x0100007f }

abbrev empty : Epoll
empty = record { interest = λ fd. none; capacity = 16 }

fresh : TcpClient
unfolding make Connectors.make
fresh = make (Connectors.make empty) []

abbrev unwrap : Option TcpClient → TcpClient
unwrap none = fresh
unwrap (some c) = c

-- The client waits for its socket 7, has its connection, and has lost it.
waiting : TcpClient
unfolding connect Connectors.start Connectors.start_in_loop Connectors.connect
    Connectors.connect_result Connectors.connecting_to Channels.make enable_writing fresh make
    Connectors.make
waiting = unwrap (connect fresh 7 einprogress)

waiting_lem : connect fresh 7 einprogress ≡ some waiting
unfolding waiting connect Connectors.start Connectors.start_in_loop Connectors.connect
    Connectors.connect_result Connectors.connecting_to Channels.make enable_writing fresh make
    Connectors.make
waiting_lem = refl

online : TcpClient
unfolding handle_write new_connection Connectors.handle_write Connectors.remove_and_reset_channel
    Connectors.connection_made disable_all remove waiting
online = unwrap (handle_write waiting 0 false peer)

online_lem : handle_write waiting 0 false peer ≡ some online
unfolding online handle_write new_connection Connectors.handle_write
    Connectors.remove_and_reset_channel Connectors.connection_made disable_all remove waiting
    connect Connectors.start Connectors.start_in_loop Connectors.connect Connectors.connect_result
    Connectors.connecting_to Channels.make enable_writing fresh make Connectors.make
online_lem = refl

online-Reach : Reach (make (Connectors.make empty) []) online
unfolding fresh
online-Reach =
    next (next here (connects 7 einprogress waiting_lem)) (writes 0 false peer online_lem)

Reach-make-Rests_example :
    InOrder online.connector × (online.connection ≢ none → online.connector.state ≡ connected)
Reach-make-Rests_example = Reach-make-Rests empty [] online online-Reach

-- The client's connection
held : Option Connection → Connection
held none = record { serial = 0; name = []; sockfd = 0 }
held (some p) = p

lost : TcpClient
unfolding remove_connection online
lost = unwrap (remove_connection online (held online.connection) 8 success)

lost_lem : remove_connection online (held online.connection) 8 success ≡ some lost
unfolding lost remove_connection held online handle_write new_connection Connectors.handle_write
    Connectors.remove_and_reset_channel Connectors.connection_made disable_all remove waiting
    connect Connectors.start Connectors.start_in_loop Connectors.connect Connectors.connect_result
    Connectors.connecting_to Channels.make enable_writing fresh make Connectors.make
lost_lem = refl

still : (online.retry && online.connect) ≡ false
unfolding online handle_write new_connection Connectors.handle_write
    Connectors.remove_and_reset_channel Connectors.connection_made disable_all remove waiting
    connect Connectors.start Connectors.start_in_loop Connectors.connect Connectors.connect_result
    Connectors.connecting_to Channels.make enable_writing fresh make Connectors.make
still = refl

connect-remove_connection_example : connect lost 9 einprogress ≡ none
connect-remove_connection_example =
    connect-remove_connection empty [] online lost (held online.connection) 8 9 success einprogress
      online-Reach still lost_lem
