-- ===== src/Examples/Formats.antt =====
-- common and client/sdk/proto: runs of the cryptography and of the frames.
use p2p_server.Prelude.{
  ℕ, ◌≤◌, ◌<◌, ◌≡◌, refl, bit_xor, [], ◌∷◌, ◌++◌, some, Bytes, length, map, arith, codes, replicate,
}
use p2p_server.ProtoDef.{tt_data}
use p2p_server.Crypto.Sha256.{sha256, sha256_init, sha256_update, pad_zeros, length_bytes}
use p2p_server.Crypto.Sha256.Padding.{final_aligned}
use p2p_server.Crypto.Hmac.{hmac_sha256, hmac_key_block}
use p2p_server.Crypto.Modes.{aes256_ctr_xor}
use p2p_server.Crypto.Aead.{p2p_aead_encrypt, p2p_aead_decrypt, aead_tag}
use p2p_server.Crypto.Aead.RoundTrip.{
  aead_decrypt-aead_encrypt, aead_decrypt_authentic, length-aead_tag,
}
use p2p_server.Crypto.Sha256.Streaming.{update-lt, hmac-sha256}
use p2p_server.Codec.{WireTunnel, codec_write_tunnel, codec_read_tunnel, tunnel_bytes}
use p2p_server.Codec.RoundTrip.{IsWireTunnel, read_tunnel-write_tunnel}

abbrev key : Bytes
key = replicate 32 1

abbrev nonce : Bytes
nonce = replicate 12 2

abbrev text : Bytes
text = codes "hello"

abbrev cipher : Bytes
cipher = aes256_ctr_xor key nonce text

encrypted : p2p_aead_encrypt key nonce text 64 ≡ some (cipher, aead_tag key nonce cipher)
unfolding p2p_aead_encrypt
encrypted = refl

decrypted : p2p_aead_decrypt key nonce cipher 64 (aead_tag key nonce cipher) ≡ some text
decrypted =
    aead_decrypt-aead_encrypt key nonce text cipher (aead_tag key nonce cipher) 64 64 encrypted
      (omega arith)

aead_decrypt_authentic_example :
    (aead_tag key nonce cipher ≡ aead_tag key nonce cipher)
    × (length text ≡ length cipher)
    × (length text ≤ 64)
aead_decrypt_authentic_example =
    aead_decrypt_authentic key nonce cipher (aead_tag key nonce cipher) text 64
      (length-aead_tag key nonce cipher) decrypted

hmac-sha256_example :
    hmac_sha256 (codes "k") (codes "m")
    ≡ sha256 (
        map (λ (b : ℕ). bit_xor b 0x5c) (hmac_key_block (codes "k"))
        ++ sha256 (map (λ (b : ℕ). bit_xor b 0x36) (hmac_key_block (codes "k")) ++ codes "m"))
hmac-sha256_example = hmac-sha256 (codes "k") (codes "m")

no_input : length sha256_init.buf < 64
unfolding sha256_init
no_input = omega arith

final_aligned_example :
    let padded =
      pad_zeros 64 (sha256_update (0x80 ∷ []) (sha256_update (codes "abc") sha256_init)) in
    (length padded.buf ≡ 56) × (length (sha256_update (length_bytes 24) padded).buf ≡ 0)
final_aligned_example =
    final_aligned (sha256_update (codes "abc") sha256_init) 24
      (update-lt (codes "abc") sha256_init no_input)

abbrev tunnel : WireTunnel
tunnel = record {
  type = tt_data;
  session_id = 9;
  channel_id = 1;
  flags = 1;
  seq = 65535;
  ack = 0;
  payload = 1 ∷ 2 ∷ [];
}

tunnel-IsWireTunnel : IsWireTunnel tunnel
tunnel-IsWireTunnel = record {
  session_fits = omega arith;
  seq_fits = omega arith;
  ack_fits = omega arith;
  len_fits = omega arith;
}

written : codec_write_tunnel 16 tunnel ≡ some (tunnel_bytes tunnel)
unfolding codec_write_tunnel
written = refl

read_tunnel-write_tunnel_example : codec_read_tunnel (tunnel_bytes tunnel ++ 7 ∷ []) ≡ some tunnel
read_tunnel-write_tunnel_example =
    read_tunnel-write_tunnel 16 tunnel (tunnel_bytes tunnel) (7 ∷ []) tunnel-IsWireTunnel written
