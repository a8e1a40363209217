-- ===== src/Client/Backoff/Delay.antt =====
-- client/sdk/api/P2PClient.h: the delays of `BackOff`.
use p2p_server.Prelude.{ℕ, zero, suc, ◌+◌, ◌-◌, ◌*◌, ◌^◌, ◌≤◌, ◌<◌, ◌≡◌, ltb, if◌then◌else◌, arith}
use p2p_server.Client.{BackOff}
use p2p_server.Client.Backoff.{doubled, delay, next_delay}

abbrev pub capped : ℕ → ℕ → ℕ
capped cap d = if ltb cap d then cap else d

pow_pos : (n : ℕ) → 0 < 2 ^ n
pow_pos zero = omega arith
pow_pos (suc n) = omega (arith, pow_pos n)

grows : (d n : ℕ) → d ≤ d * 2 ^ n
grows d n = let p = pow_pos n in grind arith

pow_step : (d n : ℕ) → d * 2 * 2 ^ n ≡ d * 2 ^ suc n
pow_step d n = grind arith

capped-doubled :
    (n cap d : ℕ) → cap ≤ 2 ^ 31 → capped cap (doubled n cap d) ≡ capped cap (d * 2 ^ n)
unfolding doubled
capped-doubled zero cap d h = ground arith
capped-doubled (suc n) cap d h =
    ground (arith, capped-doubled n cap (d * 2), pow_step d n, grows d (suc n))

-- With a cap of at most 2 ^ 31 milliseconds, the delay after n earlier ones is the base doubled
-- n - 1 times, or the cap if that is less: the loop of 32-bit doublings ends before it overflows,
-- and the count of the next delay is one higher.
pub next_delay-capped :
    (b : BackOff)
    → b.cap_ms ≤ 2 ^ 31
    → b.attempt < 2 ^ 32 - 1
    → ((next_delay b).1 ≡ capped b.cap_ms (b.base_ms * 2 ^ (b.attempt - 1)))
      × ((next_delay b).0.attempt ≡ b.attempt + 1)
unfolding next_delay delay
next_delay-capped b h k = (capped-doubled (b.attempt - 1) b.cap_ms b.base_ms h, omega arith)
