-- ===== src/Util/Laws.antt =====
-- common/Util.h: the 64-bit key of an address determines it.
use p2p_server.Prelude.{◌+◌, ◌^◌, ◌<◌, ◌≡◌, refl, ◌↔◌, true, some, arith}
use p2p_server.Util.{Sockaddr, addr_to_u64, u64_to_sockaddr, sockaddr_eq, inet_ntop, inet_pton}

-- A port is a uint16_t and an address a uint32_t.
pub record IsSockaddr (a : Sockaddr) : Type 0 where
  pub addr_fits : a.addr < 2 ^ 32
  pub port_fits : a.port < 2 ^ 16

pub addr_to_u64-injective :
    (a b : Sockaddr) → IsSockaddr a → IsSockaddr b → addr_to_u64 a ≡ addr_to_u64 b → a ≡ b
unfolding addr_to_u64
addr_to_u64-injective a b ha hb h = ground arith

-- The 64-bit key that the tables use is a faithful name of an address: it decodes to the address,
-- and two addresses that `sockaddr_eq` tells apart have different keys.
pub u64-sockaddr :
    (a b : Sockaddr)
    → IsSockaddr a
    → IsSockaddr b
    → (u64_to_sockaddr (addr_to_u64 a) ≡ a)
      × ((addr_to_u64 a ≡ addr_to_u64 b) ↔ (sockaddr_eq a b ≡ true))
unfolding addr_to_u64 u64_to_sockaddr sockaddr_eq
u64-sockaddr a b ha hb = (ground arith, (λ h. ground arith, λ h. ground arith))

localhost_text : inet_pton (inet_ntop (127 + 2 ^ 24)) ≡ some (127 + 2 ^ 24)
unfolding inet_pton inet_ntop
localhost_text = refl
