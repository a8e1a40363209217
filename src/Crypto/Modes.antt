-- ===== src/Crypto/Modes.antt =====
-- common/Crypto.cpp: AES-256 in CBC mode with PKCS7 padding, and in CTR mode.
pub mod RoundTrip
use p2p_server.Prelude.{
  ℕ, zero, suc, ◌+◌, ◌-◌, ◌/◌, ◌%◌, ◌^◌, ◌==◌, if◌then◌else◌, ltb, Bool, true, false, not, ◌&&◌,
  ◌||◌, List, [], ◌∷◌, ◌++◌, Option, none, some, Bytes, length, get_or, take, drop, replicate,
}
use p2p_server.Prelude.Wire.{be32}
use p2p_server.Crypto.Aes.{aes_block, aes256_expand_key, aes256_encrypt_block, aes256_decrypt_block}
use p2p_server.Crypto.Hmac.{xor_with}

-- The blocks of a padded input, `n` of them.
unfoldable pub cbc_encrypt_blocks : ℕ → (Bytes → Bytes) → Bytes → Bytes → Bytes
cbc_encrypt_blocks zero block prev input = []
cbc_encrypt_blocks (suc n) block prev input =
    let cipher = block (xor_with (take aes_block input) prev) in
    cipher ++ cbc_encrypt_blocks n block cipher (drop aes_block input)

-- `none` is the result -1; else the `*out_len` bytes of `out`.
unfoldable pub aes256_cbc_encrypt : Bytes → Bytes → Bytes → ℕ → Option Bytes
aes256_cbc_encrypt key iv input out_cap =
    let rk = aes256_expand_key key in
    let pad = aes_block - length input % aes_block in
    let total = length input + pad in
    if ltb out_cap total
    then none
    else some (
        cbc_encrypt_blocks (total / aes_block) (aes256_encrypt_block rk) iv
          (input ++ replicate pad pad))

unfoldable pub cbc_decrypt_blocks : ℕ → (Bytes → Bytes) → Bytes → Bytes → Bytes
cbc_decrypt_blocks zero block prev input = []
cbc_decrypt_blocks (suc n) block prev input =
    let cipher = take aes_block input in
    xor_with (block cipher) prev ++ cbc_decrypt_blocks n block cipher (drop aes_block input)

all_eq : ℕ → Bytes → Bool
all_eq v [] = true
all_eq v (b ∷ bs) = b == v && all_eq v bs

-- The check of the padding: the buffer and the length without the padding.
unfoldable pub strip_padding : Bytes → Option (Bytes × ℕ)
unfolding all_eq
strip_padding out =
    let n = length out in
    let pad = get_or out (n - 1) 0 in
    if pad == 0 || ltb aes_block pad
    then none
    else if not (all_eq pad (drop (n - pad) out))
    then none
    else some (out, n - pad)

-- The bytes written to `out`, padding included, and `*out_len`; `none` is the result -1.
unfoldable pub aes256_cbc_decrypt : Bytes → Bytes → Bytes → ℕ → Option (Bytes × ℕ)
aes256_cbc_decrypt key iv input out_cap =
    if length input == 0 || not (length input % aes_block == 0) || ltb out_cap (length input)
    then none
    else strip_padding (
        cbc_decrypt_blocks (length input / aes_block) (aes256_decrypt_block (aes256_expand_key key))
          iv input)

-- `keystream c` is the encrypted counter block with the 32-bit counter `c`.
unfoldable pub ctr_loop : (ℕ → Bytes) → ℕ → ℕ → Bytes → Bytes
ctr_loop keystream fuel counter [] = []
ctr_loop keystream zero counter (b ∷ bs) = b ∷ bs
ctr_loop keystream (suc fuel) counter (b ∷ bs) =
    xor_with (take aes_block (b ∷ bs)) (keystream counter)
    ++ ctr_loop keystream fuel ((counter + 1) % 2 ^ 32) (drop aes_block (b ∷ bs))

unfoldable pub ctr_block : Bytes → Bytes → ℕ → Bytes
ctr_block key nonce counter =
    aes256_encrypt_block (aes256_expand_key key) (take 12 nonce ++ be32 counter)

unfoldable pub aes256_ctr_xor : Bytes → Bytes → Bytes → Bytes
aes256_ctr_xor key nonce input = ctr_loop (ctr_block key nonce) (length input) 0 input
