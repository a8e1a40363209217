-- ===== src/Client/Tunnel/Parts.antt =====
-- client/sdk/api/P2PClient.cpp: the parts of an encrypted frame.
use p2p_server.Prelude.{
  ℕ, zero, suc, ◌+◌, ◌-◌, ◌%◌, ◌^◌, ◌≤◌, ◌<◌, ◌≡◌, refl, sym, ◌∙◌, Bool, true, ◌&&◌, [], ◌∷◌, ◌++◌,
  some, Bytes, length, length-append, take-append, drop-append, take, drop, take_all, get_or,
  bit_and, bit_or, ◌==◌, ==_iff, arith,
}
use mathlib.Core.List.{append_assoc}
use p2p_server.Prelude.Wire.{be16_round, slice, read_be16}
use p2p_server.ProtoDef.{tf_enc}
use p2p_server.Codec.{WireTunnel, tunnel_bytes}
use p2p_server.Codec.RoundTrip.{IsWireTunnel}
use p2p_server.Crypto.Modes.{aes256_ctr_xor}
use p2p_server.Crypto.Modes.RoundTrip.{length-ctr_xor}
use p2p_server.Crypto.Aead.{aead_tag, p2p_aead_encrypt, p2p_aead_decrypt}
use p2p_server.Crypto.Aead.RoundTrip.{length-aead_tag, aead_decrypt-aead_encrypt}
use p2p_server.Client.Tunnel.{head_with, seal, unseal}

all_below : ℕ → (ℕ → Bool) → Bool
all_below zero p = true
all_below (suc n) p = p n && all_below n p

all_below-at : (n : ℕ) (p : ℕ → Bool) (x : ℕ) → all_below n p ≡ true → x < n → p x ≡ true
unfolding all_below
all_below-at zero p x h lt = absurd (omega arith)
all_below-at (suc n) p x h lt = ground (arith, all_below-at n p x)

clear_table : all_below 256 (λ f. bit_and (bit_or f 2) 253 == bit_and f 253) ≡ true
unfolding all_below
clear_table = refl

set_table : all_below 256 (λ f. bit_and (bit_or f 2) 2 == 2) ≡ true
unfolding all_below
set_table = refl

split_table : all_below 256 (λ f. bit_and f 253 + bit_and f 2 == f) ≡ true
unfolding all_below
split_table = refl

-- The flag of encryption is set and cleared again.
pub flag_round :
    (f : ℕ)
    → f < 256
    → bit_and f 2 ≡ 0
    → (bit_and (bit_or f 2) 253 ≡ f) × (bit_and (bit_or f 2) 2 ≡ 2)
flag_round f h e =
    let cleared = (==_iff _ _).0 (all_below-at 256 _ f clear_table h) in
    let split = (==_iff _ f).0 (all_below-at 256 _ f split_table h) in
    let kept = (==_iff _ 2).0 (all_below-at 256 _ f set_table h) in (omega arith, kept)

-- The frame with the encrypted payload.
abbrev pub sealed_frame : Bytes → Bytes → WireTunnel → WireTunnel
sealed_frame key nonce t =
    let cipher = aes256_ctr_xor key nonce t.payload in
    record t {
      flags = bit_or t.flags tf_enc;
      payload = nonce ++ (cipher ++ aead_tag key nonce cipher);
    }

encrypt_lem :
    (key nonce text : Bytes) (n : ℕ)
    → length text ≡ n
    → n ≤ 4096
    → p2p_aead_encrypt key nonce text n
      ≡ some (aes256_ctr_xor key nonce text, aead_tag key nonce (aes256_ctr_xor key nonce text))
unfolding p2p_aead_encrypt
encrypt_lem key nonce text n e h = ground arith

pub length-sealed :
    (key nonce : Bytes) (t : WireTunnel)
    → length nonce ≡ 12
    → length (sealed_frame key nonce t).payload ≡ 12 + length t.payload + 16
length-sealed key nonce t h =
    let cipher = aes256_ctr_xor key nonce t.payload in
    omega (
      arith,
      length-append nonce (cipher ++ aead_tag key nonce cipher),
      length-append cipher (aead_tag key nonce cipher),
      length-ctr_xor key nonce t.payload,
      length-aead_tag key nonce cipher,
    )

wire_length : (n : ℕ) → n ≤ 2006 → (12 + n + 16) % 2 ^ 16 ≡ 12 + n + 16
wire_length n h = omega arith

pub seal-tunnel_bytes :
    (key nonce : Bytes) (t : WireTunnel)
    → IsWireTunnel t
    → length nonce ≡ 12
    → length t.payload ≤ 2006
    → seal key nonce (tunnel_bytes t) ≡ some (tunnel_bytes (sealed_frame key nonce t))
unfolding seal tunnel_bytes
seal-tunnel_bytes key nonce t w l h =
    rw
      (
        seal,
        be16_round (length t.payload) w.len_fits,
        take_all (length t.payload) t.payload (omega arith),
        encrypt_lem key nonce t.payload (length t.payload) refl (omega arith),
      )
      (rw
        (
          length-sealed key nonce t l,
          length-ctr_xor key nonce t.payload,
          wire_length (length t.payload) h,
        )
        refl)

drop-plus : (a b : ℕ) (xs : Bytes) → drop (a + b) xs ≡ drop b (drop a xs)
drop-plus zero b xs = rw (zero_plus b) refl
  where
    zero_plus : (k : ℕ) → 0 + k ≡ k
    zero_plus k = omega arith
drop-plus (suc a) b [] = rw (suc_plus a b) (sym (drop_nil b))
  where
    suc_plus : (m n : ℕ) → suc m + n ≡ suc (m + n)
    suc_plus m n = omega arith

    drop_nil : (n : ℕ) → drop {A = ℕ} n [] ≡ []
    drop_nil zero = refl
    drop_nil (suc n) = refl
drop-plus (suc a) b (x ∷ xs) = rw (suc_plus a b) (drop-plus a b xs)
  where
    suc_plus : (m n : ℕ) → suc m + n ≡ suc (m + n)
    suc_plus m n = omega arith

-- The parts of a sealed payload with memory behind it.
module _ (nonce cipher tag beyond : Bytes) where
  part_nonce : length nonce ≡ 12 → take 12 ((nonce ++ (cipher ++ tag)) ++ beyond) ≡ nonce
  part_nonce h =
      rw (append_assoc nonce (cipher ++ tag) beyond)
        (take-append nonce ((cipher ++ tag) ++ beyond) 12 h)

  behind_nonce :
      length nonce ≡ 12 → drop 12 ((nonce ++ (cipher ++ tag)) ++ beyond) ≡ cipher ++ (tag ++ beyond)
  behind_nonce h =
      rw (append_assoc nonce (cipher ++ tag) beyond)
        (drop-append nonce ((cipher ++ tag) ++ beyond) 12 h ∙ append_assoc cipher tag beyond)

  part_cipher :
      (n : ℕ)
      → length nonce ≡ 12
      → length cipher ≡ n
      → take n (drop 12 ((nonce ++ (cipher ++ tag)) ++ beyond)) ≡ cipher
  part_cipher n h k = rw (behind_nonce h) (take-append cipher (tag ++ beyond) n k)

  part_tag :
      (n : ℕ)
      → length nonce ≡ 12
      → length cipher ≡ n
      → length tag ≡ 16
      → take 16 (drop n (drop 12 ((nonce ++ (cipher ++ tag)) ++ beyond))) ≡ tag
  part_tag n h k l =
      rw (behind_nonce h, drop-append cipher (tag ++ beyond) n k) (take-append tag beyond 16 l)

unseal_parts :
    (key memory nonce cipher tag plain : Bytes) (n : ℕ)
    → read_be16 memory 12 ≡ 12 + n + 16
    → slice memory 14 12 ≡ nonce
    → slice memory 26 n ≡ cipher
    → take 16 (drop n (drop 26 memory)) ≡ tag
    → p2p_aead_decrypt key nonce cipher n tag ≡ some plain
    → unseal key memory
      ≡ some (head_with memory (bit_and (get_or memory 7 0) 253) (length plain % 2 ^ 16) ++ plain)
unfolding unseal
unseal_parts key memory nonce cipher tag plain n e a b c d =
    rw (unseal, e, room n, drop-plus 26 n memory, a, b, c, d) refl
  where
    room : (k : ℕ) → 12 + k + 16 - 28 ≡ k
    room k = omega arith

pub unseal-tunnel_bytes :
    (key nonce beyond : Bytes) (t : WireTunnel)
    → IsWireTunnel t
    → length t.payload ≤ 2006
    → length nonce ≡ 12
    → t.flags < 256
    → bit_and t.flags 2 ≡ 0
    → unseal key (tunnel_bytes (sealed_frame key nonce t) ++ beyond) ≡ some (tunnel_bytes t)
unfolding tunnel_bytes
unseal-tunnel_bytes key nonce beyond t w h l f e =
    let n = length t.payload in
    let cipher = aes256_ctr_xor key nonce t.payload in
    let tag = aead_tag key nonce cipher in
    let long : n % 2 ^ 16 ≡ n = omega arith in
    unseal_parts key (tunnel_bytes (sealed_frame key nonce t) ++ beyond) nonce cipher tag t.payload
      n (rw (length-sealed key nonce t l) (be16_round (12 + n + 16) (omega arith)))
      (part_nonce nonce cipher tag beyond l)
      (part_cipher nonce cipher tag beyond n l (length-ctr_xor key nonce t.payload))
      (part_tag nonce cipher tag beyond n l (length-ctr_xor key nonce t.payload)
        (length-aead_tag key nonce cipher))
      (aead_decrypt-aead_encrypt key nonce t.payload cipher tag n n
        (encrypt_lem key nonce t.payload n refl (omega arith)) (omega arith))
    ∙ rw ((flag_round t.flags f e).0, long) refl
