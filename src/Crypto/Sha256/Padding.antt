-- ===== src/Crypto/Sha256/Padding.antt =====
-- common/Crypto.cpp: the padding loop of `final` ends, and the last block is full.
use p2p_server.Prelude.{
  ℕ, zero, suc, ◌+◌, ◌-◌, ◌%◌, ◌^◌, ◌<◌, ◌≡◌, ◌==◌, if◌then◌else◌, [], ◌∷◌, length, drop, ◌/◌,
  length-append, arith,
}
use p2p_server.Crypto.Sha256.{Sha256Ctx, flush, sha256_update, pad_zeros, length_bytes}
use p2p_server.Crypto.Sha256.Streaming.{absorb, fill, update-absorb, update-lt}

one_zero :
    (s : Sha256Ctx)
    → length s.buf < 64
    → length (sha256_update (0 ∷ []) s).buf ≡ (if length s.buf == 63 then 0 else length s.buf + 1)
unfolding absorb flush
one_zero s l = rw (update-absorb (0 ∷ []) s l) (ground (arith, length-append s.buf (0 ∷ [])))

pad_zeros_ends :
    (fuel : ℕ) (s : Sha256Ctx)
    → length s.buf < 64
    → (120 - length s.buf) % 64 < fuel
    → length (pad_zeros fuel s).buf ≡ 56
unfolding pad_zeros
pad_zeros_ends zero s l h = absurd (omega arith)
pad_zeros_ends (suc fuel) s l h =
    ground
      (arith, one_zero s l, update-lt (0 ∷ []) s l, pad_zeros_ends fuel (sha256_update (0 ∷ []) s))

last_eight :
    (bits : ℕ) (s : Sha256Ctx)
    → length s.buf ≡ 56
    → length (sha256_update (length_bytes bits) s).buf ≡ 0
unfolding length_bytes flush
last_eight bits s h = rw (update-absorb (length_bytes bits) s (omega arith)) (
    ground (
      arith,
      fill (drop 1 (length_bytes bits)) (bits / 2 ^ 32 / 2 ^ 24 % 256) s,
      length-append s.buf (length_bytes bits),
    ))

-- After any input the loop of `final` ends at 56 bytes within its 64 rounds, and the eight length
-- bytes then fill the last block exactly: nothing is left unhashed in the buffer.
pub final_aligned :
    (s : Sha256Ctx) (bits : ℕ)
    → length s.buf < 64
    → let padded = pad_zeros 64 (sha256_update (0x80 ∷ []) s) in
      (length padded.buf ≡ 56) × (length (sha256_update (length_bytes bits) padded).buf ≡ 0)
final_aligned s bits l =
    let ends =
      pad_zeros_ends 64 (sha256_update (0x80 ∷ []) s) (update-lt (0x80 ∷ []) s l) (omega arith) in
    (ends, last_eight bits _ ends)
