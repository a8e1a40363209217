-- ===== src/Crypto/Gf.antt =====
-- common/Crypto.cpp, GF(2^8) arithmetic and the AES tables.
use p2p_server.Prelude.{
  ℕ, zero, suc, ◌-◌, ◌*◌, ◌/◌, ◌%◌, ◌^◌, bit_and, bit_or, bit_xor, ◌==◌, if◌then◌else◌, ◌≡◌, refl,
}

-- One round of `gmul`: the loop's state is (r, a, b).
gmul_loop : ℕ → ℕ → ℕ → ℕ → ℕ
gmul_loop zero r a b = r
gmul_loop (suc n) r a b =
    gmul_loop n (if bit_and b 1 == 0 then r else bit_xor r a)
      (if bit_and a 0x80 == 0 then a * 2 % 256 else bit_xor (a * 2 % 256) 0x1b) (b / 2)

unfoldable pub gmul : ℕ → ℕ → ℕ
unfolding gmul_loop
gmul a b = gmul_loop 8 0 a b

-- The square-and-multiply loop of `ginv`; 254 has eight bits.
ginv_loop : ℕ → ℕ → ℕ → ℕ → ℕ
unfolding gmul
ginv_loop zero res base e = res
ginv_loop (suc n) res base e =
    ginv_loop n (if bit_and e 1 == 0 then res else gmul res base) (gmul base base) (e / 2)

unfoldable pub ginv : ℕ → ℕ
unfolding ginv_loop
ginv a = ginv_loop 8 1 a 254

unfoldable pub rotl8 : ℕ → ℕ → ℕ
rotl8 x n = bit_or (x * 2 ^ n) (x / 2 ^ (8 - n)) % 256

-- `AES.sbox[i]`.
unfoldable pub sbox : ℕ → ℕ
unfolding ginv rotl8
sbox i =
    let x = if i == 0 then 0 else ginv i in
    bit_xor
      (bit_xor (bit_xor (bit_xor (bit_xor x (rotl8 x 1)) (rotl8 x 2)) (rotl8 x 3)) (rotl8 x 4)) 0x63

-- `AES.inv_sbox[s]`: the table is filled from index 0 on, so the last index that maps to `s` stays.
inv_sbox_from : ℕ → ℕ → ℕ
unfolding sbox
inv_sbox_from zero s = 0
inv_sbox_from (suc i) s = let rest = inv_sbox_from i s in if sbox i == s then i else rest

unfoldable pub inv_sbox : ℕ → ℕ
unfolding inv_sbox_from
inv_sbox s = inv_sbox_from 256 s

sbox_zero : sbox 0 ≡ 0x63
unfolding sbox
sbox_zero = refl

sbox_53 : sbox 0x53 ≡ 0xed
unfolding sbox
sbox_53 = refl
