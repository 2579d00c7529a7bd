-- ===== src/Connector/Backoff.antt =====
-- Connector.cc: the delays between the attempts to connect.
use network_lib.Base.{
  ℕ, suc, ◌+◌, ◌*◌, ◌^◌, ◌≡◌, refl, ap, ◌∙◌, true, List, [], ◌∷◌, min, length, arith,
}
use native.Mathlib.Nat.{pow-suc}
use network_lib.Connector.{Connector, retry, close, init_retry_delay_ms, max_retry_delay_ms}

-- One attempt after another fails.
abbrev pub retries : Connector → List ℕ → Connector
retries c [] = c
retries c (sockfd ∷ rest) = retries (retry c sockfd) rest

-- The delay before the retry after `n` earlier failures and one more.
abbrev pub delay : ℕ → ℕ
delay n = min (init_retry_delay_ms * 2 ^ n) max_retry_delay_ms

-- The delays of the retries that so many failures ask for, the last one first, before older ones.
abbrev pub delays : ℕ → List ℕ → List ℕ → List ℕ
delays n [] older = older
delays n (sockfd ∷ rest) older = delays (suc n) rest (delay n ∷ older)

delay-suc : (n : ℕ) → delay (suc n) ≡ min (delay n * 2) max_retry_delay_ms
delay-suc n = omega (arith, pow-suc 2 n)

retries_from :
    (c : Connector) (n : ℕ) (fds : List ℕ)
    → c.connect ≡ true
    → c.retry_delay_ms ≡ delay n
    → ((retries c fds).timers ≡ delays n fds c.timers)
      × ((retries c fds).retry_delay_ms ≡ delay (n + length fds))
unfolding retry close
retries_from c n [] on e = (refl, e ∙ ap delay (omega arith))
retries_from c n (x ∷ xs) on e =
    let later = retries_from (retry c x) (suc n) xs (ground arith) (ground (arith, delay-suc n)) in
    (later.0 ∙ ap (delays (suc n) xs) (ground arith), later.1 ∙ ap delay (omega arith))

-- For a connector that is to connect and whose delay is still the initial one, each failure of an
-- attempt asks for one retry: after 500 ms for the first failure, doubled with each further one, and
-- 30 s at most. The retry after failure number `n + 1` waits min (500 * 2 ^ n) 30000 ms.
pub retries-delays :
    (c : Connector) (fds : List ℕ)
    → c.connect ≡ true
    → c.retry_delay_ms ≡ init_retry_delay_ms
    → ((retries c fds).timers ≡ delays 0 fds c.timers)
      × ((retries c fds).retry_delay_ms ≡ delay (length fds))
retries-delays c fds on e =
    let r = retries_from c 0 fds on (e ∙ omega arith) in (r.0, r.1 ∙ ap delay (omega arith))
