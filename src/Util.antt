-- ===== src/Util.antt =====
-- common/Util.h: addresses. `addr` is `sin_addr.s_addr` as a little-endian machine reads it, and
-- `port` the number that `ntohs(sin_port)` gives. `inet_ntop` and `inet_pton` are the C library's.
pub mod Laws
pub mod Text
use p2p_server.Prelude.{
  ℕ, suc, ◌+◌, ◌-◌, ◌*◌, ◌/◌, ◌%◌, ◌^◌, ◌==◌, ltb, leb, if◌then◌else◌, Bool, true, false, not, ◌&&◌,
  ◌||◌, List, [], ◌∷◌, ◌++◌, Option, none, some, Bytes,
}

pub record Sockaddr : Type 0 where
  pub addr : ℕ
  pub port : ℕ

-- `addr_to_u64`
unfoldable pub addr_to_u64 : Sockaddr → ℕ
addr_to_u64 a = a.addr * 2 ^ 32 + a.port

-- `u64_to_sockaddr`
unfoldable pub u64_to_sockaddr : ℕ → Sockaddr
u64_to_sockaddr v = record { addr = v / 2 ^ 32 % 2 ^ 32; port = v % 2 ^ 16 }

unfoldable pub sockaddr_eq : Sockaddr → Sockaddr → Bool
sockaddr_eq a b = a.addr == b.addr && a.port == b.port

decimal_octet : ℕ → Bytes
decimal_octet n =
    if ltb n 10
    then (48 + n) ∷ []
    else if ltb n 100
    then (48 + n / 10) ∷ (48 + n % 10) ∷ []
    else (48 + n / 100) ∷ (48 + n / 10 % 10) ∷ (48 + n % 10) ∷ []

-- The dotted text of an address, the octet at the lowest memory address first.
unfoldable pub inet_ntop : ℕ → Bytes
unfolding decimal_octet
inet_ntop a =
    decimal_octet (a % 256)
    ++ b'.' ∷ decimal_octet (a / 2 ^ 8 % 256)
    ++ b'.' ∷ decimal_octet (a / 2 ^ 16 % 256)
    ++ b'.' ∷ decimal_octet (a / 2 ^ 24 % 256)

-- `octets` counts those begun, `value` is the one being read, and `total` the address so far with
-- `place` the weight of the current octet.
pton_loop : Bytes → Bool → ℕ → ℕ → ℕ → ℕ → Option ℕ
pton_loop [] saw octets value total place =
    if ltb octets 4 || not saw then none else some (total + value * place)
pton_loop (c ∷ cs) saw octets value total place =
    let digit = leb 48 c && leb c 57 in
    let next = value * 10 + (c - 48) in
    let more = pton_loop cs true (if saw then octets else octets + 1) next total place in
    let dot = pton_loop cs false octets 0 (total + value * place) (place * 256) in
    if digit
    then if saw && value == 0 || ltb 255 next || (not saw && octets == 4) then none else more
    else if c == b'.' && saw && not (octets == 4)
    then dot
    else none

unfoldable pub inet_pton : Bytes → Option ℕ
unfolding pton_loop
inet_pton text = pton_loop text false 0 0 0 1
