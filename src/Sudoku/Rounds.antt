-- ===== src/Sudoku/Rounds.antt =====
-- server_basic.cc: one round of the message callback's loop, on the part of a stream of requests
-- that has arrived.
use network_lib.Base.{
  ℕ, suc, ◌+◌, ◌-◌, ◌≤◌, ◌<◌, ◌≡◌, refl, sym, Bool, ap, ◌∙◌, true, false, none, some, List, [], ◌∷◌,
  ◌++◌, length, drop, arith, ◌==◌, Option, ltb, take-take, append_assoc, length-append, length-drop,
}
use network_lib.Buffer.{Buffer, readable_bytes, peek, find_crlf, retrieve_until}
use network_lib.Buffer.Valid.{IsValid, contents, readable_bytes_lem, length-contents}
use network_lib.Buffer.Contents.{retrieve-contents}
use network_lib.Buffer.Indices.{retrieve_until_lem, retrieve-buffer}
use network_lib.Buffer.Search.{CrlfAt, FirstCrlf, find_crlf-FirstCrlf}
use network_lib.Sudoku.{cells, crlf, parts, reply, process_request, round}
use network_lib.Sudoku.Lines.{
  IsRequest, take-front, length-le, CrlfAt-length, lt-length, cells-le-length,
}

-- The reply to a request.
abbrev pub reply_to : (List ℕ → List ℕ) → List ℕ → List ℕ
reply_to solve r = reply (parts r).0 (solve (parts r).1)

module _ (b : Buffer) (v : IsValid b) (future r more : List ℕ)
    (stream : contents b ++ future ≡ r ++ 0x0d ∷ 0x0a ∷ more) (q : IsRequest r) where
  -- The whole first line has arrived, or not.
  pub find_crlf_there :
      length r + 2 ≤ length (contents b) → find_crlf b ≡ some (b.reader_index + length r)
  find_crlf_there h = go (find_crlf b) (find_crlf-FirstCrlf b v)
    where
      at_end : CrlfAt (contents b) (length r)
      at_end = CrlfAt-length (contents b) future r more stream h

      go : (o : Option ℕ) → FirstCrlf b o → o ≡ some (b.reader_index + length r)
      go none f = absurd (f (length r) at_end)
      go (some p) (i, e, found, first) =
          let low = length-le (contents b) future r (0x0d ∷ 0x0a ∷ more) i stream q.lacks found.0 in
          let same : i ≡ length r = omega (arith, low, first (length r) at_end) in
          ground (arith, e, same)

  pub find_crlf_missing : length (contents b) < length r + 2 → find_crlf b ≡ none
  find_crlf_missing h = go (find_crlf b) (find_crlf-FirstCrlf b v)
    where
      go : (o : Option ℕ) → FirstCrlf b o → o ≡ none
      go none f = refl
      go (some p) (i, e, found, first) = absurd (
          omega (
            arith,
            length-le (contents b) future r (0x0d ∷ 0x0a ∷ more) i stream q.lacks found.0,
            lt-length (contents b) (suc i) 0x0a found.1,
          ))

  -- The line that is retrieved is the request with its line end.
  pub retrieve_until_line :
      length r + 2 ≤ length (contents b)
      → (c : Buffer) × (retrieve_until b (b.reader_index + length r + 2) ≡ some c)
        × IsValid c
        × (contents c ++ future ≡ more)
        × (c.buffer ≡ b.buffer)
        × (length (contents c) < length (contents b))
  retrieve_until_line h =
      let (c, e, w, held) = (retrieve-contents b (length r + 2) v).0 h in
      let at : b.reader_index + length r + 2 ≡ b.reader_index + (length r + 2) = omega arith in
      let line : contents b ++ future ≡ (r ++ crlf) ++ more =
        stream ∙ sym (append_assoc r crlf more) in
      let size : length (r ++ crlf) ≡ length r + 2 = length-append r crlf in
      let back : drop (length r + 2) (contents b) ++ future ≡ more =
        rw (sym size)
          ((take-front (contents b) future (r ++ crlf) more line (omega (arith, size))).1) in
      (
        c,
        ap (λ p. retrieve_until b p) at ∙ (retrieve_until_lem b (length r + 2) v h ∙ e),
        w,
        ap (λ xs. xs ++ future) held ∙ back,
        retrieve-buffer b c (length r + 2) e,
        omega (arith, ap length held, length-drop (length r + 2) (contents b), cells-le-length r q),
      )

  pub peek_line : length r + 2 ≤ length (contents b) → peek b (length r) ≡ r
  peek_line h =
      sym (
        take-take (length r) (b.writer_index - b.reader_index) (drop b.reader_index b.buffer)
          (omega (arith, length-contents b v)))
      ∙ (take-front (contents b) future r (0x0d ∷ 0x0a ∷ more) stream (omega arith)).0

  -- The round that serves the first request.
  pub round_line :
      (solve : List ℕ → List ℕ) (sent : List (List ℕ)) (shut : Bool)
      → length r + 2 ≤ length (contents b)
      → (c : Buffer) × (round solve (record { input = b; sent = sent; shut = shut })
          ≡ some (true, record { input = c; sent = sent ++ reply_to solve r ∷ []; shut = shut }))
        × IsValid c
        × (contents c ++ future ≡ more)
        × (c.buffer ≡ b.buffer)
        × (length (contents c) < length (contents b))
  unfolding round process_request
  round_line solve sent shut h =
      let (c, e, w, held, same, less) = retrieve_until_line h in
      let there = find_crlf_there h in
      let count : b.reader_index + length r - b.reader_index ≡ length r = omega arith in
      let sized : (length (parts r).1 == cells) ≡ true = rw q.sized refl in
      (c, ground (arith, there, e, count, peek_line h, sized), w, held, same, less)

  -- The round that finds a part of the first request.
  pub round_part :
      (solve : List ℕ → List ℕ) (sent : List (List ℕ)) (shut : Bool)
      → length (contents b) < length r + 2
      → round solve (record { input = b; sent = sent; shut = shut })
        ≡ some (false, record { input = b; sent = sent; shut = shut })
  unfolding round
  round_part solve sent shut h =
      let few : ltb 100 (readable_bytes b) ≡ false =
        ground (arith, readable_bytes_lem b v, length-contents b v, q.short) in
      ground (arith, find_crlf_missing h, few)
