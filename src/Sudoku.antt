-- ===== src/Sudoku.antt =====
-- lotus_project/examples/sudoku/server_basic.cc: the server's end of one connection, with the part of
-- lotus_project/lotus/net/TcpConnection.cc that calls it. What finds the
-- answer to a puzzle is an argument. The calls of `send` are noted in `sent`, in order.
pub mod Lines
pub mod Rounds
pub mod Served
pub mod Stream
mod Tests
use network_lib.Base.{
  ℕ, suc, zero, ◌+◌, ◌-◌, Bool, true, false, Option, none, some, List, [], ◌∷◌, ◌++◌, ◌==◌, ltb,
  length, if◌then◌else◌, ◌>>=◌,
}
use network_lib.Buffer.{Buffer, readable_bytes, peek, find_crlf, retrieve_until}
use network_lib.Buffer.Fd.{Readv, failed, got, read_fd}

-- `kCells`
abbrev pub cells : ℕ
cells = 81

abbrev pub crlf : List ℕ
crlf = 0x0d ∷ 0x0a ∷ []

-- The texts before and after the first colon
pub at_colon : List ℕ → Option (List ℕ × List ℕ)
at_colon [] = none
at_colon (x ∷ xs) =
    let rest = at_colon xs >>= λ p. some (x ∷ p.0, p.1) in if x == b':' then some ([], xs) else rest

-- The id and the puzzle of a request.
pub parts : List ℕ → List ℕ × List ℕ
parts request = elim (at_colon request) [ none ↦ ([], request) | some p ↦ p ]

abbrev pub reply : List ℕ → List ℕ → List ℕ
reply [] result = result ++ crlf
reply (x ∷ xs) result = (x ∷ xs) ++ b':' ∷ (result ++ crlf)

-- What is sent in return, or `none` for a bad request.
pub process_request : (List ℕ → List ℕ) → List ℕ → Option (List ℕ)
process_request solve request =
    let (id, puzzle) = parts request in
    if length puzzle == cells then some (reply id (solve puzzle)) else none

-- `shut` says whether `shutdown` was called.
pub record Session : Type 0 where
  pub input : Buffer
  pub sent : List (List ℕ)
  pub shut : Bool

abbrev pub bad_request : List ℕ
bad_request =
    b'B' ∷ b'a' ∷ b'd' ∷ b' ' ∷ b'R' ∷ b'e' ∷ b'q' ∷ b'u' ∷ b'e' ∷ b's' ∷ b't' ∷ b'!' ∷ crlf

abbrev pub id_too_long : List ℕ
id_too_long =
    b'I' ∷ b'd' ∷ b' ' ∷ b't' ∷ b'o' ∷ b'o' ∷ b' ' ∷ b'l' ∷ b'o' ∷ b'n' ∷ b'g' ∷ b'!' ∷ crlf

abbrev pub refuse : Session → List ℕ → Session
refuse s text = record s { sent = s.sent ++ text ∷ []; shut = true }

-- After a request: whether the loop goes on.
abbrev pub answer : Session → Option (List ℕ) → Bool × Session
answer s none = (false, refuse s bad_request)
answer s (some text) = (true, record s { sent = s.sent ++ text ∷ [] })

-- The body of the `while`.
pub round : (List ℕ → List ℕ) → Session → Option (Bool × Session)
unfolding process_request
round solve s = elim (find_crlf s.input) [
  | none ↦ some (false, if ltb 100 (readable_bytes s.input) then refuse s id_too_long else s)
  | some p ↦ retrieve_until s.input (p + 2) >>= λ rest. some (
      answer (record s { input = rest })
        (process_request solve (peek s.input (p - s.input.reader_index))))
]

-- The fuel bounds the rounds.
pub on_message : (List ℕ → List ℕ) → ℕ → Session → Option Session
unfolding round
on_message solve zero s = none
on_message solve (suc n) s = elim (ltb (readable_bytes s.input) (cells + 2)) [
  | true ↦ some s
  | false ↦ round solve s >>= λ r. elim r.0 [ true ↦ on_message solve n r.1 | false ↦ some r.1 ]
]

-- The rest of TcpConnection::handleRead after readFd, with the message callback above: an error is only
-- logged, and at the end of the stream handleClose ends the connection. The Bool says whether it is
-- still open. Each round of the callback retrieves a byte or is the last one.
pub after_read : (List ℕ → List ℕ) → Session → Readv → Option (Bool × Session)
unfolding on_message
after_read solve s (failed e) = some (true, s)
after_read solve s (got []) = some (false, s)
after_read solve s (got (x ∷ xs)) =
    on_message solve (suc (readable_bytes s.input)) s >>= λ t. some (true, t)

-- TcpConnection::handleRead, given what readv returns.
pub receive : (List ℕ → List ℕ) → Session → Readv → Option (Bool × Session)
unfolding after_read
receive solve s outcome =
    read_fd s.input outcome >>= λ b. after_read solve (record s { input = b }) outcome

-- One call after another. A connection that has ended is not read any more.
pub receive_all : (List ℕ → List ℕ) → Session → List Readv → Option (Bool × Session)
unfolding receive
receive_all solve s [] = some (true, s)
receive_all solve s (outcome ∷ rest) =
    receive solve s outcome >>= λ r. elim r.0 [ true ↦ receive_all solve r.1 rest | false ↦ some r ]
