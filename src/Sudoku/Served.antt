-- ===== src/Sudoku/Served.antt =====
-- server_basic.cc and TcpConnection.cc: what a session has replied to after a call of readFd.
use network_lib.Base.{
  ℕ, zero, suc, ◌+◌, ◌-◌, ◌≤◌, ◌<◌, ◌≡◌, refl, sym, ap, ◌∙◌, true, some, List, [], ◌∷◌, ◌++◌,
  length, arith, map, Bool-cases, inl, inr, ltb, append_assoc, append-nil, length-append,
}
use network_lib.Buffer.{Buffer, readable_bytes, writable_bytes, max_size}
use network_lib.Buffer.Valid.{
  IsValid, contents, readable_bytes_lem, writable_bytes_lem, length-contents,
}
use network_lib.Buffer.Fd.{Readv, failed, got, extra_size}
use network_lib.Buffer.Fd.Scatter.{received, read_fd-contents, read_fd-length}
use network_lib.Sudoku.{cells, Session, on_message, after_read, receive}
use network_lib.Sudoku.Lines.{AreRequests, join, cells-le-length}
use network_lib.Sudoku.Rounds.{reply_to, round_line, round_part}

-- The connection goes on after the call of readv: it does not return 0.
abbrev pub Goes : Readv → Type 0
Goes (failed e) = Unit {0}
Goes (got []) = ⊥
Goes (got (x ∷ xs)) = Unit {0}

-- readv(2) delivers no more than the two blocks take, and does not meet the end of the stream.
abbrev pub Delivers : (List ℕ → List ℕ) → Session → List Readv → Type 0
Delivers solve s [] = Unit {0}
Delivers solve s (outcome ∷ rest) =
    Goes outcome
    × (length (received outcome) ≤ writable_bytes s.input + extra_size)
    × ((t : Session) → receive solve s outcome ≡ some (true, t) → Delivers solve t rest)

module _ (solve : List ℕ → List ℕ) (future : List ℕ) where
  -- From `s` to `t` the session has replied to the first ones of the requests `rs`, to all of them if
  -- nothing is yet to come.
  pub record Served (rs : List (List ℕ)) (s t : Session) : Type 0 where
    pub served : List (List ℕ)
    pub left : List (List ℕ)
    pub parted : rs ≡ served ++ left
    pub requests : AreRequests left
    pub valid : IsValid t.input
    pub rest : contents t.input ++ future ≡ join left
    pub replies : t.sent ≡ s.sent ++ map (reply_to solve) served
    pub still : t.shut ≡ s.shut
    pub same : t.input.buffer ≡ s.input.buffer
    pub all : future ≡ [] → left ≡ []

  -- The first request has not arrived as a whole.
  abbrev Waits : Session → List (List ℕ) → Type 0
  Waits s [] = Unit {0}
  Waits s (r ∷ rs) = length (contents s.input) < length r + 2

  Waits-Served :
      (rs : List (List ℕ)) (s : Session)
      → IsValid s.input
      → AreRequests rs
      → contents s.input ++ future ≡ join rs
      → Waits s rs
      → Served rs s s
  Waits-Served rs s v qs e w = record {
    served = [];
    left = rs;
    parted = refl;
    requests = qs;
    valid = v;
    rest = e;
    replies = sym (append-nil s.sent);
    still = refl;
    same = refl;
    all = none_left rs e w;
  }
    where
      none_left :
          (rs : List (List ℕ))
          → contents s.input ++ future ≡ join rs
          → Waits s rs
          → future ≡ []
          → rs ≡ []
      none_left [] e w h = refl
      none_left (r ∷ rs) e w h = absurd (
          omega (
            arith,
            w,
            ap length e,
            length-append (contents s.input) future,
            ap length h,
            length-append r (0x0d ∷ 0x0a ∷ join rs),
          ))

  pub on_message-Served :
      (n : ℕ) (rs : List (List ℕ)) (s : Session)
      → IsValid s.input
      → AreRequests rs
      → contents s.input ++ future ≡ join rs
      → length (contents s.input) < n
      → (t : Session) × (on_message solve n s ≡ some t) × Served rs s t
  unfolding on_message
  on_message-Served zero rs s v qs e h = absurd (omega arith)
  on_message-Served (suc n) [] s v qs e h =
      let few : ltb (readable_bytes s.input) (cells + 2) ≡ true = ground (
        arith,
        readable_bytes_lem s.input v,
        length-contents s.input v,
        ap length e,
        length-append (contents s.input) future,
      ) in
      (s, ground (arith, few), Waits-Served [] s v qs e tt)
  on_message-Served (suc n) (r ∷ rs) s v (q, qs) e h =
      let size = readable_bytes_lem s.input v in
      let count = length-contents s.input v in
      elim (Bool-cases (ltb (readable_bytes s.input) (cells + 2))) [
        | inl few ↦ (
          s,
          ground (arith, few),
          Waits-Served (r ∷ rs) s v (q, qs) e (ground (arith, size, count, cells-le-length r q)),
        )
        | inr many ↦ elim (Bool-cases (ltb (length (contents s.input)) (length r + 2))) [
          | inl part ↦
              let short : length (contents s.input) < length r + 2 = ground arith in
              (
                s,
                ground (
                  arith,
                  many,
                  round_part s.input v future r (join rs) e q solve s.sent s.shut short,
                ),
                Waits-Served (r ∷ rs) s v (q, qs) e short,
              )
          | inr whole ↦
              let (c, once, w, held, kept, less) =
                round_line s.input v future r (join rs) e q solve s.sent s.shut (ground arith) in
              let (t, on, part) =
                on_message-Served n rs
                  (record { input = c; sent = s.sent ++ reply_to solve r ∷ []; shut = s.shut }) w qs
                  held (omega arith) in
              (
                t,
                ground (arith, many, once, on),
                record {
                  served = r ∷ part.served;
                  left = part.left;
                  parted = ap (λ xs. r ∷ xs) part.parted;
                  requests = part.requests;
                  valid = part.valid;
                  rest = part.rest;
                  replies =
                      part.replies
                      ∙ append_assoc s.sent (reply_to solve r ∷ [])
                          (map (reply_to solve) part.served);
                  still = part.still;
                  same = part.same ∙ kept;
                  all = part.all;
                },
              )
        ]
      ]

  -- readFd has put what has arrived into the buffer.
  after_read-Served :
      (outcome : Readv) (rs : List (List ℕ)) (s : Session)
      → IsValid s.input
      → AreRequests rs
      → contents s.input ++ future ≡ join rs
      → Goes outcome
      → (future ≡ [] → received outcome ≡ [] → rs ≡ [])
      → (t : Session) × (after_read solve s outcome ≡ some (true, t)) × Served rs s t
  unfolding after_read
  after_read-Served (failed e) rs s v qs here goes over = (
    s,
    refl,
    record {
      served = [];
      left = rs;
      parted = refl;
      requests = qs;
      valid = v;
      rest = here;
      replies = sym (append-nil s.sent);
      still = refl;
      same = refl;
      all = λ h. over h refl;
    },
  )
  after_read-Served (got []) rs s v qs here goes over = absurd goes
  after_read-Served (got (x ∷ xs)) rs s v qs here goes over =
      let fuel : length (contents s.input) < suc (readable_bytes s.input) =
        omega (arith, length-contents s.input v, readable_bytes_lem s.input v) in
      let (t, on, part) = on_message-Served (suc (readable_bytes s.input)) rs s v qs here fuel in
      (t, rw on refl, part)

  pub receive-Served :
      (outcome : Readv) (rs : List (List ℕ)) (s : Session) (m : ℕ)
      → IsValid s.input
      → AreRequests rs
      → contents s.input ++ (received outcome ++ future) ≡ join rs
      → Goes outcome
      → length (received outcome) ≤ writable_bytes s.input + extra_size
      → length s.input.buffer ≤ m
      → m + length (received outcome) + extra_size ≤ max_size
      → (future ≡ [] → received outcome ≡ [] → rs ≡ [])
      → (t : Session) × (b : Buffer) × (receive solve s outcome ≡ some (true, t))
        × Served rs (record s { input = b }) t
        × (length t.input.buffer ≤ m + length (received outcome))
  unfolding receive
  receive-Served outcome rs s m v qs e goes fits low k over =
      let few : length (received outcome)
          ≤ length s.input.buffer - s.input.writer_index + extra_size =
        omega (arith, writable_bytes_lem s.input v) in
      let (b, put, w, held) = read_fd-contents s.input outcome v few (omega arith) in
      let grown = read_fd-length s.input b outcome v few (omega arith) put in
      let here : contents b ++ future ≡ join rs =
        ap (λ xs. xs ++ future) held
        ∙ (append_assoc (contents s.input) (received outcome) future ∙ e) in
      let (t, on, part) =
        after_read-Served outcome rs (record s { input = b }) w qs here goes over in
      (t, b, rw put on, part, omega (arith, grown, ap length part.same))
