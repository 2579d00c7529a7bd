-- ===== src/Sudoku/Stream.antt =====
-- server_basic.cc: a stream of requests that arrives in parts of any sizes.
use network_lib.Base.{
  ℕ, ◌+◌, ◌≤◌, ◌≡◌, refl, sym, ap, ◌∙◌, true, false, some, List, [], ◌∷◌, ◌++◌, length, arith, map,
  append_assoc, append-nil, length-append, map-append,
}
use network_lib.Buffer.{Buffer, max_size, make}
use network_lib.Buffer.Valid.{IsValid, contents, make-IsValid}
use network_lib.Buffer.Fd.{Readv, got, extra_size}
use network_lib.Buffer.Fd.Scatter.{received, read_fd-contents}
use network_lib.Sudoku.{Session, after_read, receive, receive_all}
use network_lib.Sudoku.Lines.{AreRequests, join}
use network_lib.Sudoku.Rounds.{reply_to}
use network_lib.Sudoku.Served.{Delivers, receive-Served}

-- The bytes of the parts, in order.
abbrev pub flat : List Readv → List ℕ
flat [] = []
flat (outcome ∷ rest) = received outcome ++ flat rest

-- A session that has replied to all of the requests.
pub record Replied (solve : List ℕ → List ℕ) (rs : List (List ℕ)) (s t : Session) : Type 0 where
  pub valid : IsValid t.input
  pub limit : length t.input.buffer + extra_size ≤ max_size
  pub empty : contents t.input ≡ []
  pub replies : t.sent ≡ s.sent ++ map (reply_to solve) rs
  pub still : t.shut ≡ s.shut

receive_all-Replied :
    (solve : List ℕ → List ℕ) (parts : List Readv) (rs : List (List ℕ)) (s : Session) (m : ℕ)
    → IsValid s.input
    → AreRequests rs
    → Delivers solve s parts
    → contents s.input ++ flat parts ≡ join rs
    → (flat parts ≡ [] → rs ≡ [])
    → length s.input.buffer ≤ m
    → m + length (flat parts) + extra_size ≤ max_size
    → (t : Session) × (receive_all solve s parts ≡ some (true, t)) × Replied solve rs s t
unfolding receive_all
receive_all-Replied solve [] rs s m v qs d e all low k =
    let none_left = all refl in
    (
      s,
      refl,
      record {
        valid = v;
        limit = omega arith;
        empty = sym (append-nil (contents s.input)) ∙ (e ∙ ap (λ xs. join xs) none_left);
        replies =
            sym (append-nil s.sent) ∙ ap (λ xs. s.sent ++ map (reply_to solve) xs) (sym none_left);
        still = refl;
      },
    )
receive_all-Replied solve (outcome ∷ parts) rs s m v qs (goes, fits, more) e all low k =
    let bytes = received outcome in
    let size = length-append bytes (flat parts) in
    let (u, b, one, part, room) =
      receive-Served solve (flat parts) outcome rs s m v qs e goes fits low (omega (arith, size))
        (λ later now. all (rw now later)) in
    let (t, rest, done) =
      receive_all-Replied solve parts part.left u (m + length bytes) part.valid part.requests
        (more u one) part.rest part.all room (omega (arith, size)) in
    (
      t,
      rw one rest,
      record {
        valid = done.valid;
        limit = done.limit;
        empty = done.empty;
        replies =
            done.replies
            ∙ (ap (λ xs. xs ++ map (reply_to solve) part.left) part.replies
                ∙ (append_assoc s.sent (map (reply_to solve) part.served)
                      (map (reply_to solve) part.left)
                    ∙ ap (λ xs. s.sent ++ xs)
                        (sym (map-append (reply_to solve) part.served part.left)
                          ∙ ap (map (reply_to solve)) (sym part.parted))));
        still = done.still ∙ part.still;
      },
    )

-- At the end of the stream the connection ends, and nothing more is sent.
receive_end :
    (solve : List ℕ → List ℕ) (t : Session)
    → IsValid t.input
    → length t.input.buffer + extra_size ≤ max_size
    → (b : Buffer) × (receive solve t (got []) ≡ some (false, record t { input = b }))
unfolding receive after_read
receive_end solve t v h =
    let (b, put, _, _) = read_fd-contents t.input (got []) v (omega arith) h in (b, rw put refl)

abbrev pub opened : Session
opened = record { input = make; sent = []; shut = false }

-- However a stream of well-formed requests is cut into the parts that readv delivers, each of no more
-- bytes than its two blocks take, with errors of readv in between: a new session replies to each
-- request once and in order, is not shut down, and keeps nothing, if the stream is shorter than the
-- vector's limit by its first 1032 bytes and the 65536 of readFd. The connection is then still open,
-- and ends when readv returns 0. A request is well-formed if it has a puzzle of 81 bytes and no
-- carriage return, and is of 99 bytes at most.
pub receive_all_lem :
    (solve : List ℕ → List ℕ) (pieces : List Readv) (rs : List (List ℕ))
    → AreRequests rs
    → Delivers solve opened pieces
    → flat pieces ≡ join rs
    → 1032 + length (flat pieces) + extra_size ≤ max_size
    → (t : Session) × (receive_all solve opened pieces ≡ some (true, t))
      × (t.sent ≡ map (reply_to solve) rs)
      × (t.shut ≡ false)
      × (contents t.input ≡ [])
      × ((b : Buffer) × (receive solve t (got []) ≡ some (false, record t { input = b })))
unfolding make
receive_all_lem solve pieces rs qs d e k =
    let (t, on, done) =
      receive_all-Replied solve pieces rs opened 1032 make-IsValid qs d e
        (λ none_come. no_requests rs (sym e ∙ none_come)) (omega arith) k in
    (t, on, done.replies, done.still, done.empty, receive_end solve t done.valid done.limit)
  where
    no_requests : (rs : List (List ℕ)) → join rs ≡ [] → rs ≡ []
    no_requests [] h = refl
    no_requests ([] ∷ rs) h = absurd (cc)
    no_requests ((x ∷ r) ∷ rs) h = absurd (cc)
