-- ===== src/Client/Backoff.antt =====
-- client/sdk/api/P2PClient.h, `BackOff`, and the loops of the same form in P2PClient.cpp.
pub mod Delay
use p2p_server.Prelude.{ℕ, zero, suc, ◌+◌, ◌-◌, ◌*◌, ◌%◌, ◌^◌, ltb, if◌then◌else◌}
use p2p_server.Client.{BackOff}

-- `for (i = 0; i + 1 < attempt && d < cap; i++) d *= 2`, with `attempt - 1` rounds at most.
unfoldable pub doubled : ℕ → ℕ → ℕ → ℕ
doubled zero cap d = d
doubled (suc rounds) cap d =
    let more = doubled rounds cap (d * 2 % 2 ^ 32) in if ltb d cap then more else d

-- The delay that follows `attempt` earlier ones.
unfoldable pub delay : ℕ → ℕ → ℕ → ℕ
delay attempt cap base = let d = doubled (attempt - 1) cap base in if ltb cap d then cap else d

unfoldable pub next_delay : BackOff → BackOff × ℕ
next_delay b = (record b { attempt = (b.attempt + 1) % 2 ^ 32 }, delay b.attempt b.cap_ms b.base_ms)

abbrev pub reset : BackOff → BackOff
reset b = record b { attempt = 0 }
