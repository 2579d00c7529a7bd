-- ===== src/Udp/Client.antt =====
-- lotus_project/lotus/net/UdpClient.h and UdpClient.cc: the client, in its loop's thread. What the
-- user's callback is given is noted in `messages`, and what is sent in `sent`, in order.
pub mod Closing
use network_lib.Base.{
  ℕ, Bool, true, false, Option, none, some, List, [], ◌∷◌, ◌++◌, if◌then◌else◌, ◌>>=◌,
}
use network_lib.Channels
use network_lib.Channels.{Channel, Epoll, enable_reading, disable_all, remove}
use network_lib.Udp.{Received, filled, c_string}

-- `closed` are the descriptors closed, the last one first.
pub record UdpClient : Type 0 where
  pub connected : Bool
  pub channel : Channel
  pub epoll : Epoll
  pub messages : List (List ℕ)
  pub sent : List (List ℕ)
  pub closed : List ℕ

pub make : ℕ → Epoll → UdpClient
unfolding Channels.make enable_reading
make sockfd e =
    let (ch, f) = enable_reading (record (Channels.make sockfd) { has_read = true }) e in
    record { connected = false; channel = ch; epoll = f; messages = []; sent = []; closed = [] }

pub stop : UdpClient → Option UdpClient
unfolding disable_all remove
stop c =
    let (off, e) = disable_all c.channel c.epoll in
    (remove off e >>= λ f.
    some (record c { connected = false; channel = off; epoll = f; closed = off.fd ∷ c.closed }))

-- `~UdpClient`
pub destroy : UdpClient → Option UdpClient
unfolding stop
destroy c = stop c

-- The result of connect(2) is not looked at.
unfoldable pub connect : UdpClient → UdpClient
connect c = record c { connected = true }

-- After an error the callback is given the empty text.
unfoldable pub handle_read : UdpClient → Received → Option UdpClient
unfolding filled c_string
handle_read c r =
    c_string (filled r) >>= λ text. some (record c { messages = c.messages ++ text ∷ [] })

-- `ok` is whether write or sendto sends the bytes. An error aborts a client that is connected.
unfoldable pub send : UdpClient → List ℕ → Bool → Option UdpClient
send c bytes ok =
    if ok
    then some (record c { sent = c.sent ++ bytes ∷ [] })
    else if c.connected
    then none
    else some c
