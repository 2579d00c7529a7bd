-- ===== src/Udp/Client/Closing.antt =====
-- UdpClient.cc: the end of a client.
use network_lib.Base.{false, ◌≡◌, refl, some, ◌∷◌, arith}
use network_lib.Channels.{Channel, Epoll, Index, new, added, disable_all, remove}
use network_lib.Udp.Client.{UdpClient, stop, destroy}

-- A channel can always be disabled and removed.
disable_all-remove :
    (c : Channel) (i : Index) (e : Epoll)
    → (d : Channel) × (f g : Epoll) × (disable_all (record c { index = i }) e ≡ (d, f))
      × (d.fd ≡ c.fd)
      × (remove d f ≡ some g)
unfolding disable_all remove
disable_all-remove c new e = (_, _, _, refl, refl, refl)
disable_all-remove c added e = (_, _, _, refl, refl, refl)

-- `stop` closes the descriptor, whatever was done before.
stop-closed :
    (c : UdpClient)
    → (d : UdpClient) × (stop c ≡ some d)
      × (d.channel.fd ≡ c.channel.fd)
      × (d.closed ≡ c.channel.fd ∷ c.closed)
unfolding stop
stop-closed c =
    let (off, f, g, disabled, same, removed) =
      disable_all-remove c.channel c.channel.index c.epoll in
    (
      record c { connected = false; channel = off; epoll = g; closed = off.fd ∷ c.closed },
      rw disabled (rw removed refl),
      same,
      rw same refl,
    )

-- The destructor stops the client once more: after a `stop` the descriptor is closed a second time.
destroy-stop :
    (c d : UdpClient)
    → stop c ≡ some d
    → (e : UdpClient) × (destroy d ≡ some e) × (e.closed ≡ c.channel.fd ∷ c.channel.fd ∷ c.closed)
unfolding destroy
destroy-stop c d h =
    let (m, up, same, closed) = stop-closed c in
    let (e, down, _, twice) = stop-closed d in (e, down, ground (arith, h, up, same, closed, twice))
