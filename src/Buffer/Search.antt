-- ===== src/Buffer/Search.antt =====
-- Buffer.h: findCRLF finds the first line end among the readable bytes.
use network_lib.Base.{
  ℕ, zero, suc, ◌+◌, ◌-◌, ◌≤◌, ◌<◌, ◌≡◌, refl, inl, inr, Option, none, some, List, [], ◌∷◌, arith,
  length, get_elem?, Bool-cases, ==_iff, ◌==◌,
}
use network_lib.Buffer.{Buffer, search_crlf, find_crlf}
use network_lib.Buffer.Valid.{IsValid, contents, readable_bytes_lem, length-contents}

-- "\r\n" stands at index `i`.
abbrev pub CrlfAt : List ℕ → ℕ → Type 0
CrlfAt xs i = (get_elem? xs i ≡ some 0x0d) × (get_elem? xs (suc i) ≡ some 0x0a)

search_crlf-le : (xs : List ℕ) → search_crlf xs ≤ length xs
unfolding search_crlf
search_crlf-le [] = omega arith
search_crlf-le (x ∷ []) = omega arith
search_crlf-le (x ∷ y ∷ ys) = ground (arith, search_crlf-le (y ∷ ys))

search_crlf_found : (xs : List ℕ) → search_crlf xs < length xs → CrlfAt xs (search_crlf xs)
unfolding search_crlf
search_crlf_found [] h = absurd (omega arith)
search_crlf_found (x ∷ []) h = absurd (omega arith)
search_crlf_found (x ∷ y ∷ ys) h = ground (arith, search_crlf_found (y ∷ ys))

search_crlf_first : (xs : List ℕ) (j : ℕ) → CrlfAt xs j → search_crlf xs ≤ j
unfolding search_crlf
search_crlf_first [] j (p, q) = omega arith
search_crlf_first (x ∷ []) zero (p, q) = absurd (ground arith)
search_crlf_first (x ∷ []) (suc j) (p, q) = omega arith
search_crlf_first (x ∷ y ∷ ys) zero (p, q) = ground arith
search_crlf_first (x ∷ y ∷ ys) (suc j) h = ground (arith, search_crlf_first (y ∷ ys) j h)

-- What `findCRLF` returns: the pointer to the first line end, or NULL where there is none.
abbrev pub FirstCrlf : Buffer → Option ℕ → Type 0
FirstCrlf b none = (j : ℕ) → ¬ CrlfAt (contents b) j
FirstCrlf b (some p) =
    (i : ℕ) × (p ≡ b.reader_index + i)
    × CrlfAt (contents b) i
    × ((j : ℕ) → CrlfAt (contents b) j → i ≤ j)

crlf_inside : (xs : List ℕ) (j : ℕ) → CrlfAt xs j → j < length xs
crlf_inside [] j (p, q) = absurd (ground arith)
crlf_inside (x ∷ xs) zero h = omega arith
crlf_inside (x ∷ xs) (suc j) h = omega (arith, crlf_inside xs j h)

-- `findCRLF` points to the first "\r\n" among the readable bytes, and is NULL only where none of
-- them is one.
pub find_crlf-FirstCrlf : (b : Buffer) → IsValid b → FirstCrlf b (find_crlf b)
unfolding find_crlf
find_crlf-FirstCrlf b v =
    rw (readable_bytes_lem b v) (elim (Bool-cases (b.reader_index + i == b.writer_index)) [
      | inl missing ↦ rw missing (λ j h. absurd (
          omega (
            arith,
            search_crlf_first xs j h,
            crlf_inside xs j h,
            size,
            (==_iff (b.reader_index + i) b.writer_index).0 missing,
          )))
      | inr there ↦ rw there (
        i,
        refl,
        search_crlf_found xs (ground (arith, size, search_crlf-le xs)),
        search_crlf_first xs,
      )
    ])
  where
    xs : List ℕ
    xs = contents b

    i : ℕ
    i = search_crlf xs

    size : length xs ≡ b.writer_index - b.reader_index
    size = length-contents b v
