-- ===== src/Crypto/Aead/RoundTrip.antt =====
-- common/Crypto.cpp: authenticated decryption returns what was encrypted, and nothing else.
use p2p_server.Prelude.{
  ℕ, ◌≤◌, bit_xor, ◌≡◌, refl, ◌==◌, [], ◌∷◌, some, Bytes, bytes_eq, bytes_eq_iff, length, arith,
}
use p2p_server.Prelude.Xor.{xor-eq-zero, or-eq-zero, xor_self}
use p2p_server.Crypto.Hmac.{hmac_sha256}
use p2p_server.Crypto.Sha256.{sha256_final}
use p2p_server.Crypto.Modes.{aes256_ctr_xor}
use p2p_server.Crypto.Modes.RoundTrip.{length-ctr_xor, ctr_xor-ctr_xor}
use p2p_server.Crypto.Aead.{aead_tag, tag_diff, p2p_aead_encrypt, p2p_aead_decrypt}

pub tag_diff_self : (xs : Bytes) → tag_diff xs xs ≡ 0
unfolding tag_diff
tag_diff_self [] = refl
tag_diff_self (x ∷ xs) = rw (xor_self x, tag_diff_self xs)

pub tag_diff-eq-zero : (xs ys : Bytes) → length xs ≡ length ys → tag_diff xs ys ≡ 0 → xs ≡ ys
unfolding tag_diff
tag_diff-eq-zero [] [] l h = refl
tag_diff-eq-zero [] (y ∷ ys) l h = absurd (omega arith)
tag_diff-eq-zero (x ∷ xs) [] l h = absurd (omega arith)
tag_diff-eq-zero (x ∷ xs) (y ∷ ys) l h =
    let split = or-eq-zero (bit_xor x y) (tag_diff xs ys) h in
    cc (xor-eq-zero x y split.0, tag_diff-eq-zero xs ys (omega arith) split.1)

pub length-hmac_sha256 : (key msg : Bytes) → length (hmac_sha256 key msg) ≡ 32
unfolding hmac_sha256 sha256_final
length-hmac_sha256 key msg = refl

-- The comparison in constant time is equality of the 32 bytes.
pub tag_diff_mac :
    (key msg mac : Bytes)
    → length mac ≡ 32
    → (tag_diff (hmac_sha256 key msg) mac == 0) ≡ bytes_eq (hmac_sha256 key msg) mac
tag_diff_mac key msg mac l =
    let expect = hmac_sha256 key msg in
    ground (
      arith,
      length-hmac_sha256 key msg,
      tag_diff_self expect,
      tag_diff-eq-zero expect mac,
      bytes_eq_iff expect mac,
    )

pub length-aead_tag : (key nonce cipher : Bytes) → length (aead_tag key nonce cipher) ≡ 16
unfolding aead_tag hmac_sha256 sha256_final
length-aead_tag key nonce cipher = refl

-- Whatever `p2p_aead_encrypt` produced, `p2p_aead_decrypt` under the same key and nonce, with room
-- for the text, returns the text.
pub aead_decrypt-aead_encrypt :
    (key nonce input cipher tag : Bytes) (out_cap room : ℕ)
    → p2p_aead_encrypt key nonce input out_cap ≡ some (cipher, tag)
    → length input ≤ room
    → p2p_aead_decrypt key nonce cipher room tag ≡ some input
unfolding p2p_aead_encrypt p2p_aead_decrypt
aead_decrypt-aead_encrypt key nonce input cipher tag out_cap room e h = ground (
  arith,
  length-ctr_xor key nonce input,
  ctr_xor-ctr_xor key nonce input,
  tag_diff_self (aead_tag key nonce (aes256_ctr_xor key nonce input)),
)

-- `p2p_aead_decrypt` accepts a 16-byte tag only if it is the tag of that very nonce and ciphertext
-- under the key, and what it then returns has the ciphertext's length.
pub aead_decrypt_authentic :
    (key nonce cipher tag out : Bytes) (room : ℕ)
    → length tag ≡ 16
    → p2p_aead_decrypt key nonce cipher room tag ≡ some out
    → (tag ≡ aead_tag key nonce cipher) × (length out ≡ length cipher) × (length out ≤ room)
unfolding p2p_aead_decrypt
aead_decrypt_authentic key nonce cipher tag out room l e = ground (
  arith,
  length-aead_tag key nonce cipher,
  length-ctr_xor key nonce cipher,
  tag_diff-eq-zero (aead_tag key nonce cipher) tag,
)
