-- ===== src/Crypto/Hmac.antt =====
-- common/Crypto.cpp: HMAC-SHA256, the stream cipher `p2p_stream_xor` and PBKDF2.
pub mod RoundTrip
use p2p_server.Prelude.{
  ℕ, zero, suc, ◌+◌, ◌-◌, ◌/◌, ◌%◌, ◌^◌, bit_xor, ◌==◌, if◌then◌else◌, ltb, List, [], ◌∷◌, ◌++◌,
  map, Bytes, length, take, drop, replicate, codes,
}
use p2p_server.Prelude.Wire.{be32, padded}
use p2p_server.Crypto.Sha256.{sha256, sha256_init, sha256_update, sha256_final}

-- `uint8_t k[64]`: a long key is hashed, a short one is followed by zeros.
unfoldable pub hmac_key_block : Bytes → Bytes
hmac_key_block key = padded 64 (if ltb 64 (length key) then sha256 key else key)

unfoldable pub hmac_sha256 : Bytes → Bytes → Bytes
hmac_sha256 key msg =
    let k = hmac_key_block key in
    let inner = sha256_update msg (sha256_update (map (λ (b : ℕ). bit_xor b 0x36) k) sha256_init) in
    sha256_final (
      sha256_update (sha256_final inner)
        (sha256_update (map (λ (b : ℕ). bit_xor b 0x5c) k) sha256_init))

-- `data[i] ^= key[i]` over the length of the data.
unfoldable pub xor_with : Bytes → Bytes → Bytes
xor_with [] ks = []
xor_with (d ∷ ds) [] = d ∷ ds
xor_with (d ∷ ds) (k ∷ ks) = bit_xor d k ∷ xor_with ds ks

abbrev pub digest_len : ℕ
digest_len = 32

-- The key stream block at an offset: `prf` is uuid (33 bytes), iv (8 bytes) and the block index.
unfoldable pub stream_key : Bytes → Bytes → Bytes → ℕ → Bytes
stream_key secret uuid iv off =
    hmac_sha256 secret (padded 33 uuid ++ padded 8 iv ++ (off / digest_len % 256 ∷ []))

-- The loop from the offset `off` on; a round takes a byte at least.
unfoldable pub stream_loop : (ℕ → Bytes) → ℕ → ℕ → Bytes → Bytes
stream_loop key fuel off [] = []
stream_loop key zero off (d ∷ ds) = d ∷ ds
stream_loop key (suc fuel) off (d ∷ ds) =
    xor_with (take digest_len (d ∷ ds)) (key off)
    ++ stream_loop key fuel (off + length (take digest_len (d ∷ ds))) (drop digest_len (d ∷ ds))

unfoldable pub p2p_stream_xor : Bytes → Bytes → Bytes → Bytes → Bytes
p2p_stream_xor secret uuid iv input = stream_loop (stream_key secret uuid iv) (length input) 0 input

-- U1 xor U2 xor … of one output block, `n` iterations after the first.
pbkdf2_iterate : ℕ → Bytes → Bytes → Bytes → Bytes
pbkdf2_iterate zero pw u out = out
pbkdf2_iterate (suc n) pw u out =
    let u' = hmac_sha256 pw u in pbkdf2_iterate n pw u' (xor_with out u')

-- The output blocks, `left` bytes still to come; a block gives a byte at least.
pbkdf2_blocks : ℕ → ℕ → ℕ → Bytes → Bytes → ℕ → Bytes
unfolding pbkdf2_iterate
pbkdf2_blocks zero left block pw salt iterations = []
pbkdf2_blocks (suc fuel) left block pw salt iterations =
    let u = hmac_sha256 pw (salt ++ be32 block) in
    let out = pbkdf2_iterate (iterations - 1) pw u (take left u) in
    let rest = pbkdf2_blocks fuel (left - 32) ((block + 1) % 2 ^ 32) pw salt iterations in
    if left == 0 then [] else out ++ rest

unfoldable pub pbkdf2_hmac_sha256 : Bytes → Bytes → ℕ → ℕ → Bytes
unfolding pbkdf2_blocks
pbkdf2_hmac_sha256 pw salt iterations out_len =
    if ltb 60 (length salt)
    then replicate out_len 0
    else pbkdf2_blocks (suc out_len) out_len 1 pw salt (if iterations == 0 then 1 else iterations)
