-- ===== src/Connector/Delay.antt =====
-- The delay before the connector tries again.
use muzi.Prelude.{ℕ, zero, suc, ◌*◌, ◌^◌, ◌≡◌, refl, ◌∙◌, true, [], ◌∷◌, arith, min}
use native.Mathlib.Nat.{pow-suc}
use muzi.Connector.{Connector, close, run_after, retry, init_retry_delay_ms, max_retry_delay_ms}

-- `n` failed attempts in a row, on the sockets `fd` with the timers `timer`.
abbrev pub retries : ℕ → ℕ → ℕ → Connector → Connector
retries zero timer fd c = c
retries (suc n) timer fd c = (retry timer fd (retries n timer fd c)).0

retries_connect :
    (n timer fd : ℕ) (c : Connector) → c.connect ≡ true → (retries n timer fd c).connect ≡ true
unfolding retry
retries_connect zero timer fd c h = h
retries_connect (suc n) timer fd c h = let tail = retries_connect n timer fd c h in ground arith

delay_after :
    (n timer fd : ℕ) (c : Connector)
    → c.connect ≡ true
    → c.retry_delay ≡ init_retry_delay_ms
    → (retries n timer fd c).retry_delay ≡ min (init_retry_delay_ms * 2 ^ n) max_retry_delay_ms
unfolding retry
delay_after zero timer fd c h e = e
delay_after (suc n) timer fd c h e =
    let tail = delay_after n timer fd c h e in
    let on = retries_connect n timer fd c h in
    let before = (retries n timer fd c).retry_delay in
    let doubled : (retries (suc n) timer fd c).retry_delay ≡ min (before * 2) max_retry_delay_ms =
      ground (arith, on) in
    doubled ∙ omega (arith, tail, pow-suc 2 n)

-- The attempt after `n` failed ones waits 500 ms, doubled at each failure and cut off at 30 s.
pub retry_lem :
    (n timer fd : ℕ) (c : Connector)
    → c.connect ≡ true
    → c.retry_delay ≡ init_retry_delay_ms
    → (retry timer fd (retries n timer fd c)).1
      ≡ close fd ∷ run_after (min (init_retry_delay_ms * 2 ^ n) max_retry_delay_ms) ∷ []
unfolding retry
retry_lem n timer fd c h e = rw (retries_connect n timer fd c h, delay_after n timer fd c h e) refl
