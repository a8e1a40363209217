-- ===== src/Crypto/Modes/RoundTrip.antt =====
-- common/Crypto.cpp: AES-256-CTR undoes itself.
use p2p_server.Prelude.{
  ℕ, zero, suc, ◌+◌, ◌%◌, ◌^◌, ◌≡◌, refl, ap, [], ◌∷◌, ◌++◌, Bytes, length, take, drop,
  length-append, length-take, length-drop, take_same, drop_same, take-append-drop, arith,
}
use p2p_server.Crypto.Hmac.{xor_with}
use p2p_server.Crypto.Hmac.RoundTrip.{xor_with-xor_with, length-xor_with, xor_with-nil}
use p2p_server.Crypto.Modes.{ctr_loop, ctr_block, aes256_ctr_xor}
use p2p_server.Crypto.Aes.{aes_block}

module _ (key : ℕ → Bytes) where
  ctr_round :
      (fuel c : ℕ) (xs : Bytes)
      → ctr_loop key (suc fuel) c xs
        ≡ xor_with (take aes_block xs) (key c)
          ++ ctr_loop key fuel ((c + 1) % 2 ^ 32) (drop aes_block xs)
  unfolding ctr_loop
  ctr_round fuel c [] = rw (xor_with-nil (key c)) refl
  ctr_round fuel c (x ∷ xs) = refl

  length-ctr_loop : (fuel c : ℕ) (xs : Bytes) → length (ctr_loop key fuel c xs) ≡ length xs
  length-ctr_loop fuel c [] = unfold ctr_loop in refl
  length-ctr_loop zero c (x ∷ xs) = unfold ctr_loop in refl
  length-ctr_loop (suc fuel) c (x ∷ xs) = omega (
    arith,
    ap length (ctr_round fuel c (x ∷ xs)),
    length-append (xor_with (take aes_block (x ∷ xs)) (key c))
        (ctr_loop key fuel ((c + 1) % 2 ^ 32) (drop aes_block (x ∷ xs))),
    length-xor_with (take aes_block (x ∷ xs)) (key c),
    length-ctr_loop fuel ((c + 1) % 2 ^ 32) (drop aes_block (x ∷ xs)),
    length-take aes_block (x ∷ xs),
    length-drop aes_block (x ∷ xs),
  )

  ctr_loop-ctr_loop : (fuel c : ℕ) (xs : Bytes) → ctr_loop key fuel c (ctr_loop key fuel c xs) ≡ xs
  ctr_loop-ctr_loop zero c [] = unfold ctr_loop in refl
  ctr_loop-ctr_loop zero c (x ∷ xs) = unfold ctr_loop in refl
  ctr_loop-ctr_loop (suc fuel) c xs =
      let chunk = take aes_block xs in
      let ys = xor_with chunk (key c) in
      let next = (c + 1) % 2 ^ 32 in
      let rest = ctr_loop key fuel next (drop aes_block xs) in
      let p = length-xor_with chunk (key c) in
      let q = length-ctr_loop fuel next (drop aes_block xs) in
      rw (ctr_round fuel c xs, ctr_round fuel c (ys ++ rest))
        (rw (take_same aes_block xs ys rest p q, drop_same aes_block xs ys rest p q)
          (rw (xor_with-xor_with chunk (key c), ctr_loop-ctr_loop fuel next (drop aes_block xs))
            (take-append-drop aes_block xs)))

pub length-ctr_xor :
    (key nonce input : Bytes) → length (aes256_ctr_xor key nonce input) ≡ length input
unfolding aes256_ctr_xor
length-ctr_xor key nonce input = length-ctr_loop (ctr_block key nonce) (length input) 0 input

pub ctr_xor-ctr_xor :
    (key nonce input : Bytes) → aes256_ctr_xor key nonce (aes256_ctr_xor key nonce input) ≡ input
unfolding aes256_ctr_xor
ctr_xor-ctr_xor key nonce input =
    rw (length-ctr_loop (ctr_block key nonce) (length input) 0 input)
      (ctr_loop-ctr_loop (ctr_block key nonce) (length input) 0 input)
