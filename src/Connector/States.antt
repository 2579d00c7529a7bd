-- ===== src/Connector/States.antt =====
-- Connector.cc: from what states its functions go on, and to which they lead.
use network_lib.Base.{
  ℕ, ◌≡◌, ◌≢◌, ◌⊎◌, inl, inr, Bool, true, not, ◌||◌, none, some, ◌∷◌, arith, ◌==◌, Option-cases,
  Bool-cases,
}
use network_lib.Connector.{
  Connector, disconnected, connecting, connected, Errno, start, start_in_loop, stop, stop_in_loop,
  retry, close, handle_write, handle_error, connection_made, remove_and_reset_channel,
  is_connecting,
}

pub start_in_loop-disconnected :
    (c d : Connector) (fd : ℕ) (e : Errno) → start_in_loop c fd e ≡ some d → c.state ≡ disconnected
unfolding start_in_loop
start_in_loop-disconnected c d fd e h = ground arith

pub start-disconnected :
    (c d : Connector) (fd : ℕ) (e : Errno) → start c fd e ≡ some d → c.state ≡ disconnected
unfolding start
start-disconnected c d fd e h = start_in_loop-disconnected (record c { connect = true }) d fd e h

pub start-busy : (c : Connector) (fd : ℕ) (e : Errno) → c.state ≢ disconnected → start c fd e ≡ none
unfolding start start_in_loop
start-busy c fd e h = ground arith

pub stop-connected : (c d : Connector) → stop c ≡ some d → c.state ≡ connected → d.state ≡ connected
unfolding stop stop_in_loop
stop-connected c d h k = ground arith

pub handle_error-connecting : (c d : Connector) → handle_error c ≡ some d → c.state ≡ connecting
unfolding handle_error
handle_error-connecting c d h = ground arith

handed-remove_and_reset_channel :
    (c d : Connector) (fd : ℕ) → remove_and_reset_channel c ≡ some (fd, d) → d.handed ≡ c.handed
unfolding remove_and_reset_channel
handed-remove_and_reset_channel c d fd h = ground arith

-- A writable socket ends an attempt: it fails, or a socket is handed on, or it is closed since the
-- connector was stopped.
pub handle_write_cases :
    (c d : Connector) (err : ℕ) (self : Bool)
    → handle_write c err self ≡ some d
    → (c.state ≢ connected)
      × ((d.handed ≡ c.handed) ⊎ ((d.state ≡ connected) × (fd : ℕ) × (d.handed ≡ fd ∷ c.handed)))
unfolding handle_write retry close connection_made
handle_write_cases c d err self h = elim (Option-cases (remove_and_reset_channel c)) [
  | inl fault ↦ (ground arith, inl (ground arith))
  | inr ((fd, g), e) ↦
      let same = handed-remove_and_reset_channel c g fd e in
      elim (Bool-cases (is_connecting c.state)) [
        | inr idle ↦ (ground arith, inl (ground arith))
        | inl busy ↦ elim (Bool-cases (not (err == 0) || self)) [
          | inl failed ↦ (ground arith, inl (ground (arith, same)))
          | inr made ↦ elim (Bool-cases g.connect) [
            | inl goes ↦ (ground arith, inr (ground arith, fd, ground (arith, same)))
            | inr halts ↦ (ground arith, inl (ground (arith, same)))
          ]
        ]
      ]
]
