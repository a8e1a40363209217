-- ===== src/Crypto/Aead.antt =====
-- common/Crypto.cpp: the authenticated encryption and the encryptor classes.
pub mod RoundTrip
use p2p_server.Prelude.{
  ℕ, ◌+◌, ◌-◌, ◌%◌, ◌^◌, bit_or, bit_xor, ◌==◌, if◌then◌else◌, ltb, leb, Bool, not, ◌||◌, List, [],
  ◌∷◌, ◌++◌, Option, none, some, Bytes, length, take, drop, codes, is_empty,
}
use p2p_server.Crypto.Hmac.{hmac_sha256, p2p_stream_xor}
use p2p_server.Crypto.Modes.{aes256_ctr_xor}

abbrev pub aead_max : ℕ
aead_max = 4096

-- The first 16 bytes of the MAC over nonce and ciphertext.
unfoldable pub aead_tag : Bytes → Bytes → Bytes → Bytes
aead_tag key nonce cipher =
    take 16 (hmac_sha256 (hmac_sha256 key (codes "aead-mac")) (nonce ++ cipher))

-- `none` is the result -1; else the ciphertext and the tag.
unfoldable pub p2p_aead_encrypt : Bytes → Bytes → Bytes → ℕ → Option (Bytes × Bytes)
p2p_aead_encrypt key nonce input out_cap =
    if ltb out_cap (length input)
    then none
    else let out = aes256_ctr_xor key nonce input in
      if ltb aead_max (length input) then none else some (out, aead_tag key nonce out)

-- `diff |= mac[i] ^ tag[i]` over 16 bytes.
unfoldable pub tag_diff : Bytes → Bytes → ℕ
tag_diff [] tag = 0
tag_diff (m ∷ mac) [] = 0
tag_diff (m ∷ mac) (t ∷ tag) = bit_or (bit_xor m t) (tag_diff mac tag)

unfoldable pub p2p_aead_decrypt : Bytes → Bytes → Bytes → ℕ → Bytes → Option Bytes
p2p_aead_decrypt key nonce input out_cap tag =
    if ltb out_cap (length input)
    then none
    else if ltb aead_max (length input)
    then none
    else if not (tag_diff (aead_tag key nonce input) tag == 0)
    then none
    else some (aes256_ctr_xor key nonce input)

-- The two subclasses of `Encryptor`.
pub data Encryptor : Type 0 where
  xor_encryptor : Bytes → Bytes → Bytes → Encryptor
  aes_ctr_encryptor : Bytes → Encryptor

-- `encrypt`, with the nonce that `p2p_random_bytes` gives. `out_cap - 28` is of type size_t.
unfoldable pub encrypt : Encryptor → Bytes → Bytes → ℕ → Option Bytes
encrypt (xor_encryptor key uuid iv) nonce input out_cap =
    if ltb out_cap (length input) then none else some (p2p_stream_xor key uuid iv input)
encrypt (aes_ctr_encryptor key) nonce input out_cap =
    if ltb ((out_cap + 2 ^ 64 - 28) % 2 ^ 64) (length input)
    then none
    else elim (p2p_aead_encrypt key nonce input ((out_cap + 2 ^ 64 - 12) % 2 ^ 64)) [
      | none ↦ none
      | some (cipher, tag) ↦ some (nonce ++ cipher ++ tag)
    ]

unfoldable pub decrypt : Encryptor → Bytes → ℕ → Option Bytes
decrypt (xor_encryptor key uuid iv) input out_cap =
    if ltb out_cap (length input) then none else some (p2p_stream_xor key uuid iv input)
decrypt (aes_ctr_encryptor key) input out_cap =
    if leb (length input) 28
    then none
    else let cipher_len = length input - 28 in
      p2p_aead_decrypt key (take 12 input) (take cipher_len (drop 12 input)) out_cap
        (drop (12 + cipher_len) input)
