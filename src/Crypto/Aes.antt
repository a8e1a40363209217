-- ===== src/Crypto/Aes.antt =====
-- common/Crypto.cpp, AES-256: key expansion and one block. A state is the list of its 16 bytes.
use p2p_server.Prelude.{
  ℕ, zero, suc, ◌+◌, ◌-◌, ◌*◌, ◌/◌, ◌%◌, ◌^◌, bit_or, bit_xor, ◌==◌, if◌then◌else◌, List, [], ◌∷◌,
  ◌++◌, map, Bytes, get_or, ◌≡◌, refl,
}
use p2p_server.Crypto.Gf.{gmul, sbox, inv_sbox}

abbrev pub aes_block : ℕ
aes_block = 16

abbrev aes_rounds : ℕ
aes_rounds = 14

abbrev rcon : List ℕ
rcon = 0 ∷ 0x01 ∷ 0x02 ∷ 0x04 ∷ 0x08 ∷ 0x10 ∷ 0x20 ∷ 0x40 ∷ 0x80 ∷ 0x1b ∷ 0x36 ∷ []

unfoldable pub rk_byte : List ℕ → ℕ → ℕ
rk_byte rk i = get_or rk (i / 4) 0 / 2 ^ (24 - 8 * (i % 4)) % 256

-- The four bytes of a word through the S-box.
sub_word : ℕ → ℕ
unfolding sbox
sub_word w =
    sbox (w / 2 ^ 24 % 256) * 2 ^ 24
    + sbox (w / 2 ^ 16 % 256) * 2 ^ 16
    + sbox (w / 2 ^ 8 % 256) * 2 ^ 8
    + sbox (w % 256)

-- The word that round `i` of the expansion mixes into rk[i - 8].
expand_word : ℕ → ℕ → ℕ
unfolding sub_word
expand_word i t =
    if i % 8 == 0
    then bit_xor (sub_word (bit_or (t * 2 ^ 8 % 2 ^ 32) (t / 2 ^ 24)))
        (get_or rcon (i / 8) 0 * 2 ^ 24)
    else if i % 8 == 4
    then sub_word t
    else t

expand_loop : ℕ → ℕ → List ℕ → List ℕ
unfolding expand_word
expand_loop zero i rk = rk
expand_loop (suc n) i rk =
    expand_loop n (i + 1)
      (rk ++ (bit_xor (get_or rk (i - 8) 0) (expand_word i (get_or rk (i - 1) 0)) ∷ []))

key_words : ℕ → Bytes → List ℕ
key_words zero key = []
key_words (suc n) (a ∷ b ∷ c ∷ d ∷ key) =
    (a * 2 ^ 24 + b * 2 ^ 16 + c * 2 ^ 8 + d) ∷ key_words n key
key_words (suc n) key = []

-- 8 words of the key, then 52 more.
unfoldable pub aes256_expand_key : Bytes → List ℕ
unfolding expand_loop key_words
aes256_expand_key key = expand_loop 52 8 (key_words 8 key)

-- `st[i] ^= rk_byte(rk, from + i)` for every i.
unfoldable pub add_round_key : List ℕ → ℕ → Bytes → Bytes
unfolding rk_byte
add_round_key rk from [] = []
add_round_key rk from (b ∷ bs) = bit_xor b (rk_byte rk from) ∷ add_round_key rk (from + 1) bs

unfoldable pub shift_rows : Bytes → Bytes
shift_rows st =
    let at = λ (i : ℕ). get_or st i 0 in
    at 0
    ∷ at 5
    ∷ at 10
    ∷ at 15
    ∷ at 4
    ∷ at 9
    ∷ at 14
    ∷ at 3
    ∷ at 8
    ∷ at 13
    ∷ at 2
    ∷ at 7
    ∷ at 12
    ∷ at 1
    ∷ at 6
    ∷ at 11
    ∷ []

unfoldable pub inv_shift_rows : Bytes → Bytes
inv_shift_rows st =
    let at = λ (i : ℕ). get_or st i 0 in
    at 0
    ∷ at 13
    ∷ at 10
    ∷ at 7
    ∷ at 4
    ∷ at 1
    ∷ at 14
    ∷ at 11
    ∷ at 8
    ∷ at 5
    ∷ at 2
    ∷ at 15
    ∷ at 12
    ∷ at 9
    ∷ at 6
    ∷ at 3
    ∷ []

xor4 : ℕ → ℕ → ℕ → ℕ → ℕ
xor4 a b c d = bit_xor (bit_xor (bit_xor a b) c) d

-- Column by column.
unfoldable pub mix_columns : Bytes → Bytes
unfolding gmul xor4
mix_columns (a0 ∷ a1 ∷ a2 ∷ a3 ∷ rest) =
    xor4 (gmul a0 2) (gmul a1 3) a2 a3
    ∷ xor4 a0 (gmul a1 2) (gmul a2 3) a3
    ∷ xor4 a0 a1 (gmul a2 2) (gmul a3 3)
    ∷ xor4 (gmul a0 3) a1 a2 (gmul a3 2)
    ∷ mix_columns rest
mix_columns short = []

unfoldable pub inv_mix_columns : Bytes → Bytes
unfolding gmul xor4
inv_mix_columns (a0 ∷ a1 ∷ a2 ∷ a3 ∷ rest) =
    xor4 (gmul a0 14) (gmul a1 11) (gmul a2 13) (gmul a3 9)
    ∷ xor4 (gmul a0 9) (gmul a1 14) (gmul a2 11) (gmul a3 13)
    ∷ xor4 (gmul a0 13) (gmul a1 9) (gmul a2 14) (gmul a3 11)
    ∷ xor4 (gmul a0 11) (gmul a1 13) (gmul a2 9) (gmul a3 14)
    ∷ inv_mix_columns rest
inv_mix_columns short = []

-- Rounds `round` to 13.
encrypt_rounds : ℕ → ℕ → List ℕ → Bytes → Bytes
unfolding shift_rows mix_columns add_round_key sbox
encrypt_rounds zero round rk st = st
encrypt_rounds (suc n) round rk st =
    encrypt_rounds n (round + 1) rk
      (add_round_key rk (16 * round) (mix_columns (shift_rows (map sbox st))))

unfoldable pub aes256_encrypt_block : List ℕ → Bytes → Bytes
unfolding encrypt_rounds
aes256_encrypt_block rk block =
    let st = encrypt_rounds 13 1 rk (add_round_key rk 0 block) in
    add_round_key rk (16 * aes_rounds) (shift_rows (map sbox st))

-- Rounds 13 down to 1.
decrypt_rounds : ℕ → List ℕ → Bytes → Bytes
unfolding inv_shift_rows inv_mix_columns add_round_key inv_sbox
decrypt_rounds zero rk st = st
decrypt_rounds (suc n) rk st =
    decrypt_rounds n rk
      (inv_mix_columns (add_round_key rk (16 * suc n) (map inv_sbox (inv_shift_rows st))))

unfoldable pub aes256_decrypt_block : List ℕ → Bytes → Bytes
unfolding decrypt_rounds
aes256_decrypt_block rk block =
    let st = decrypt_rounds 13 rk (add_round_key rk (16 * aes_rounds) block) in
    add_round_key rk 0 (map inv_sbox (inv_shift_rows st))

-- FIPS-197, appendix C.3.
abbrev fips_key : Bytes
fips_key =
    0 ∷ 1 ∷ 2 ∷ 3 ∷ 4 ∷ 5 ∷ 6 ∷ 7 ∷ 8 ∷ 9 ∷ 10 ∷ 11 ∷ 12 ∷ 13 ∷ 14 ∷ 15 ∷ 16 ∷ 17 ∷ 18 ∷ 19 ∷ 20
    ∷ 21 ∷ 22 ∷ 23 ∷ 24 ∷ 25 ∷ 26 ∷ 27 ∷ 28 ∷ 29 ∷ 30 ∷ 31 ∷ []

abbrev fips_plain : Bytes
fips_plain =
    0x00 ∷ 0x11 ∷ 0x22 ∷ 0x33 ∷ 0x44 ∷ 0x55 ∷ 0x66 ∷ 0x77 ∷ 0x88 ∷ 0x99 ∷ 0xaa ∷ 0xbb ∷ 0xcc ∷ 0xdd
    ∷ 0xee ∷ 0xff ∷ []

abbrev fips_cipher : Bytes
fips_cipher =
    0x8e ∷ 0xa2 ∷ 0xb7 ∷ 0xca ∷ 0x51 ∷ 0x67 ∷ 0x45 ∷ 0xbf ∷ 0xea ∷ 0xfc ∷ 0x49 ∷ 0x90 ∷ 0x4b ∷ 0x49
    ∷ 0x60 ∷ 0x89 ∷ []

fips_encrypt : aes256_encrypt_block (aes256_expand_key fips_key) fips_plain ≡ fips_cipher
unfolding aes256_encrypt_block aes256_expand_key
fips_encrypt = refl
