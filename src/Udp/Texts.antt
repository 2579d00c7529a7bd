-- ===== src/Udp/Texts.antt =====
-- UdpServer.cc and UdpClient.cc: the text that a datagram arrives as.
use network_lib.Base.{
  ℕ, suc, zero, ◌-◌, ◌≤◌, ◌<◌, ◌≡◌, refl, none, some, List, [], ◌∷◌, ◌++◌, length, take, replicate,
  arith, Lacks, append_assoc, append-nil, take-all, take-append_ge,
}
use network_lib.Udp.{got, buff_size, filled, c_string}

c_string-front : (front rest : List ℕ) → Lacks 0 front → c_string (front ++ 0 ∷ rest) ≡ some front
unfolding c_string
c_string-front [] rest h = refl
c_string-front (x ∷ xs) rest h = ground (arith, c_string-front xs rest h.1, h.0)

c_string-Lacks : (xs : List ℕ) → Lacks 0 xs → c_string xs ≡ none
unfolding c_string
c_string-Lacks [] h = refl
c_string-Lacks (x ∷ xs) h = ground (arith, c_string-Lacks xs h.1, h.0)

Lacks-take : (n : ℕ) (xs : List ℕ) → Lacks 0 xs → Lacks 0 (take n xs)
Lacks-take zero xs h = tt
Lacks-take (suc n) [] h = tt
Lacks-take (suc n) (x ∷ xs) h = (h.0, Lacks-take n xs h.1)

-- A datagram of fewer than 1024 bytes without a zero arrives whole; one with a zero among its first
-- 1024 bytes arrives as what stands before the first zero; and one of 1024 bytes or more without a
-- zero makes `std::string(buf)` read past the end of the buffer.
pub c_string-filled :
    (front rest : List ℕ)
    → Lacks 0 front
    → (length front < buff_size
        → (c_string (filled (got front)) ≡ some front)
          × (c_string (filled (got (front ++ 0 ∷ rest))) ≡ some front))
      × (buff_size ≤ length front → c_string (filled (got front)) ≡ none)
unfolding filled
c_string-filled front rest h =
    let size = length front in
    let left = buff_size - size - 1 in
    (
      λ small.
          let room : buff_size - size ≡ suc left = omega arith in
          let pad : List ℕ = replicate (buff_size - length (front ++ 0 ∷ rest)) 0 in
          (
            rw (take-all buff_size front (omega arith))
                (rw room (c_string-front front (replicate left 0) h)),
            rw (take-append_ge front (0 ∷ rest) buff_size (suc left) (omega arith)) (
                rw (append_assoc front (0 ∷ take left rest) pad)
                  (c_string-front front (take left rest ++ pad) h)),
          ),
      λ large.
          let none_left : buff_size - size ≡ 0 = omega arith in
          rw (none_left, append-nil (take buff_size front))
            (c_string-Lacks (take buff_size front) (Lacks-take buff_size front h)),
    )
