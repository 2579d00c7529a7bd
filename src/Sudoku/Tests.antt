-- ===== src/Sudoku/Tests.antt =====
-- server_basic.cc: two requests, in three parts.
use network_lib.Base.{
  ℕ, zero, suc, ◌≡◌, refl, true, false, some, none, some, List, [], ◌∷◌, ◌++◌, arith, map,
  replicate, Lacks, take, drop,
}
use network_lib.Buffer.{Buffer}
use network_lib.Buffer.Fd.{Readv, failed, got}
use network_lib.Buffer.Valid.{contents}
use network_lib.Sudoku.{Session, at_colon, parts, process_request, receive, receive_all, crlf}
use network_lib.Sudoku.Lines.{IsRequest}
use network_lib.Sudoku.Rounds.{reply_to}
use network_lib.Sudoku.Served.{Delivers}
use network_lib.Sudoku.Stream.{opened, receive_all_lem}

-- An empty puzzle, without and with an id, and what stands for its answer.
abbrev plain : List ℕ
plain = replicate 81 b'0'

abbrev named : List ℕ
named = b'a' ∷ b':' ∷ plain

abbrev same_back : List ℕ → List ℕ
same_back puzzle = puzzle

replicate-Lacks : (n : ℕ) → Lacks 0x0d (replicate n b'0')
replicate-Lacks zero = tt
replicate-Lacks (suc n) = (λ h. omega (arith, h), replicate-Lacks n)

plain-IsRequest : IsRequest plain
unfolding parts at_colon
plain-IsRequest = record { lacks = replicate-Lacks 81; sized = refl; short = omega arith }

named-IsRequest : IsRequest named
unfolding parts at_colon
named-IsRequest = record {
  lacks = (λ h. omega (arith, h), (λ h. omega (arith, h), replicate-Lacks 81));
  sized = refl;
  short = omega arith;
}

abbrev stream : List ℕ
stream = plain ++ (crlf ++ (named ++ crlf))

-- The stream in three parts, with EINTR after the first one.
abbrev pieces : List Readv
pieces =
    got (take 50 stream) ∷ failed 4 ∷ got (take 60 (drop 50 stream)) ∷ got (drop 110 stream) ∷ []

pieces-Delivers : Delivers same_back opened pieces
pieces-Delivers = (
  tt,
  omega arith,
  λ t h. (tt, omega arith, λ u k. (tt, omega arith, λ w l. (tt, omega arith, λ z m. tt))),
)

-- A request with too short a puzzle.
process_request_bad : process_request same_back (b'a' ∷ b':' ∷ b'0' ∷ []) ≡ none
unfolding process_request parts at_colon
process_request_bad = refl

receive_all_lem_example :
    (t : Session) × (receive_all same_back opened pieces ≡ some (true, t))
    × (t.sent ≡ map (reply_to same_back) (plain ∷ named ∷ []))
    × (t.shut ≡ false)
    × (contents t.input ≡ [])
    × ((b : Buffer) × (receive same_back t (got []) ≡ some (false, record t { input = b })))
receive_all_lem_example =
    receive_all_lem same_back pieces (plain ∷ named ∷ []) (plain-IsRequest, (named-IsRequest, tt))
      pieces-Delivers refl (omega arith)
