-- ===== src/Crypto/Hmac/RoundTrip.antt =====
-- common/Crypto.cpp: `p2p_stream_xor` undoes itself.
use p2p_server.Prelude.{
  ℕ, zero, suc, ◌+◌, ◌≡◌, refl, ap, [], ◌∷◌, ◌++◌, Bytes, length, take, drop, length-append,
  length-take, length-drop, take_same, drop_same, take-append-drop, arith,
}
use p2p_server.Prelude.Xor.{xor-xor_self}
use p2p_server.Crypto.Hmac.{xor_with, digest_len, stream_loop, stream_key, p2p_stream_xor}

pub xor_with-xor_with : (ds ks : Bytes) → xor_with (xor_with ds ks) ks ≡ ds
unfolding xor_with
xor_with-xor_with [] ks = refl
xor_with-xor_with (d ∷ ds) [] = refl
xor_with-xor_with (d ∷ ds) (k ∷ ks) = ground (arith, xor-xor_self d k, xor_with-xor_with ds ks)

pub length-xor_with : (ds ks : Bytes) → length (xor_with ds ks) ≡ length ds
unfolding xor_with
length-xor_with [] ks = refl
length-xor_with (d ∷ ds) [] = refl
length-xor_with (d ∷ ds) (k ∷ ks) = ap suc (length-xor_with ds ks)

pub xor_with-nil : (ks : Bytes) → xor_with [] ks ≡ []
unfolding xor_with
xor_with-nil ks = refl

module _ (key : ℕ → Bytes) where
  -- One round, also past the end of the text.
  stream_round :
      (fuel off : ℕ) (xs : Bytes)
      → stream_loop key (suc fuel) off xs
        ≡ xor_with (take digest_len xs) (key off)
          ++ stream_loop key fuel (off + length (take digest_len xs)) (drop digest_len xs)
  unfolding stream_loop
  stream_round fuel off [] = rw (xor_with-nil (key off)) refl
  stream_round fuel off (x ∷ xs) = refl

  length-stream_loop :
      (fuel off : ℕ) (xs : Bytes) → length (stream_loop key fuel off xs) ≡ length xs
  length-stream_loop fuel off [] = unfold stream_loop in refl
  length-stream_loop zero off (x ∷ xs) = unfold stream_loop in refl
  length-stream_loop (suc fuel) off (x ∷ xs) = omega (
    arith,
    ap length (stream_round fuel off (x ∷ xs)),
    length-append (xor_with (take digest_len (x ∷ xs)) (key off))
        (stream_loop key fuel (off + length (take digest_len (x ∷ xs))) (drop digest_len (x ∷ xs))),
    length-xor_with (take digest_len (x ∷ xs)) (key off),
    length-stream_loop fuel (off + length (take digest_len (x ∷ xs))) (drop digest_len (x ∷ xs)),
    length-take digest_len (x ∷ xs),
    length-drop digest_len (x ∷ xs),
  )

  stream_loop-stream_loop :
      (fuel off : ℕ) (xs : Bytes) → stream_loop key fuel off (stream_loop key fuel off xs) ≡ xs
  stream_loop-stream_loop zero off [] = unfold stream_loop in refl
  stream_loop-stream_loop zero off (x ∷ xs) = unfold stream_loop in refl
  stream_loop-stream_loop (suc fuel) off xs =
      let chunk = take digest_len xs in
      let ys = xor_with chunk (key off) in
      let next = off + length chunk in
      let rest = stream_loop key fuel next (drop digest_len xs) in
      let p = length-xor_with chunk (key off) in
      let q = length-stream_loop fuel next (drop digest_len xs) in
      rw (stream_round fuel off xs, stream_round fuel off (ys ++ rest))
        (rw (take_same digest_len xs ys rest p q, drop_same digest_len xs ys rest p q, p)
          (rw
            (
              xor_with-xor_with chunk (key off),
              stream_loop-stream_loop fuel next (drop digest_len xs),
            )
            (take-append-drop digest_len xs)))

pub length-stream_xor :
    (secret uuid iv input : Bytes) → length (p2p_stream_xor secret uuid iv input) ≡ length input
unfolding p2p_stream_xor
length-stream_xor secret uuid iv input =
    length-stream_loop (stream_key secret uuid iv) (length input) 0 input

-- Encrypting twice with `p2p_stream_xor` gives the text back, for every secret, uuid and iv.
pub stream_xor-stream_xor :
    (secret uuid iv input : Bytes)
    → p2p_stream_xor secret uuid iv (p2p_stream_xor secret uuid iv input) ≡ input
unfolding p2p_stream_xor
stream_xor-stream_xor secret uuid iv input =
    rw (length-stream_loop (stream_key secret uuid iv) (length input) 0 input)
      (stream_loop-stream_loop (stream_key secret uuid iv) (length input) 0 input)
