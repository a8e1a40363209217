-- ===== src/Prelude/Wire.antt =====
-- Big-endian numbers and fixed-size buffers.
use p2p_server.Prelude.Lists.{
  length, get_or, take, drop, replicate, length-take, length-append, length-replicate,
}
use p2p_server.Prelude.Text.{Bytes}
use Prim.Native.Nat.{ℕ, ◌+◌, ◌*◌, ◌/◌, ◌%◌, ◌^◌, ◌<◌}
use mathlib.Core.Path.{◌≡◌}
use mathlib.Core.List.{[], ◌∷◌, ◌++◌}
use native.Mathlib.Omega.{arith}

-- htons / htonl and a copy: the bytes that a 16-bit or 32-bit field puts on the wire.
abbrev pub be16 : ℕ → Bytes
be16 v = v / 256 % 256 ∷ v % 256 ∷ []

abbrev pub be32 : ℕ → Bytes
be32 v = v / 2 ^ 24 % 256 ∷ v / 2 ^ 16 % 256 ∷ v / 2 ^ 8 % 256 ∷ v % 256 ∷ []

-- The field at an offset, as the number that ntohs / ntohl returns.
abbrev pub read_be16 : Bytes → ℕ → ℕ
read_be16 bs i = get_or bs i 0 * 256 + get_or bs (i + 1) 0

abbrev pub read_be32 : Bytes → ℕ → ℕ
read_be32 bs i =
    get_or bs i 0 * 2 ^ 24
    + get_or bs (i + 1) 0 * 2 ^ 16
    + get_or bs (i + 2) 0 * 2 ^ 8
    + get_or bs (i + 3) 0

-- The `n` bytes from an offset on, as `memcpy(dst, src + i, n)` takes them.
abbrev pub slice : Bytes → ℕ → ℕ → Bytes
slice bs i n = take n (drop i bs)

-- A zeroed buffer of `n` bytes into which at most `n` bytes of a text are copied.
unfoldable pub padded : ℕ → Bytes → Bytes
padded n s = take n (s ++ replicate n 0)

pub length-padded : (n : ℕ) (s : Bytes) → length (padded n s) ≡ n
unfolding padded
length-padded n s = omega (
  arith,
  length-take n (s ++ replicate n 0),
  length-append s (replicate n 0),
  length-replicate {A = ℕ} n 0,
)

pub be16_round : (v : ℕ) → v < 2 ^ 16 → v / 256 % 256 * 256 + v % 256 ≡ v
be16_round v h = omega arith

pub be32_round :
    (v : ℕ)
    → v < 2 ^ 32
    → v / 2 ^ 24 % 256 * 2 ^ 24 + v / 2 ^ 16 % 256 * 2 ^ 16 + v / 2 ^ 8 % 256 * 2 ^ 8 + v % 256 ≡ v
be32_round v h = omega arith
