-- ===== src/Crypto/Sha256.antt =====
-- common/Crypto.cpp, SHA-256. `buf` holds the `buflen` bytes in use.
pub mod Streaming
pub mod Padding
use p2p_server.Prelude.{
  ℕ, zero, suc, ◌+◌, ◌-◌, ◌*◌, ◌/◌, ◌%◌, ◌^◌, min, bit_and, bit_or, bit_xor, ◌==◌, if◌then◌else◌,
  List, [], ◌∷◌, ◌++◌, map, Bytes, length, get_or, take, drop, ◌≡◌, refl, codes,
}
use p2p_server.Prelude.Wire.{be32}

abbrev round_constants : List ℕ
round_constants =
    0x428a2f98 ∷ 0x71374491 ∷ 0xb5c0fbcf ∷ 0xe9b5dba5 ∷ 0x3956c25b ∷ 0x59f111f1 ∷ 0x923f82a4
    ∷ 0xab1c5ed5 ∷ 0xd807aa98 ∷ 0x12835b01 ∷ 0x243185be ∷ 0x550c7dc3 ∷ 0x72be5d74 ∷ 0x80deb1fe
    ∷ 0x9bdc06a7 ∷ 0xc19bf174 ∷ 0xe49b69c1 ∷ 0xefbe4786 ∷ 0x0fc19dc6 ∷ 0x240ca1cc ∷ 0x2de92c6f
    ∷ 0x4a7484aa ∷ 0x5cb0a9dc ∷ 0x76f988da ∷ 0x983e5152 ∷ 0xa831c66d ∷ 0xb00327c8 ∷ 0xbf597fc7
    ∷ 0xc6e00bf3 ∷ 0xd5a79147 ∷ 0x06ca6351 ∷ 0x14292967 ∷ 0x27b70a85 ∷ 0x2e1b2138 ∷ 0x4d2c6dfc
    ∷ 0x53380d13 ∷ 0x650a7354 ∷ 0x766a0abb ∷ 0x81c2c92e ∷ 0x92722c85 ∷ 0xa2bfe8a1 ∷ 0xa81a664b
    ∷ 0xc24b8b70 ∷ 0xc76c51a3 ∷ 0xd192e819 ∷ 0xd6990624 ∷ 0xf40e3585 ∷ 0x106aa070 ∷ 0x19a4c116
    ∷ 0x1e376c08 ∷ 0x2748774c ∷ 0x34b0bcb5 ∷ 0x391c0cb3 ∷ 0x4ed8aa4a ∷ 0x5b9cca4f ∷ 0x682e6ff3
    ∷ 0x748f82ee ∷ 0x78a5636f ∷ 0x84c87814 ∷ 0x8cc70208 ∷ 0x90befffa ∷ 0xa4506ceb ∷ 0xbef9a3f7
    ∷ 0xc67178f2 ∷ []

unfoldable pub rotr : ℕ → ℕ → ℕ
rotr x n = bit_or (x / 2 ^ n) (x * 2 ^ (32 - n) % 2 ^ 32)

-- The registers a to h (`hh` in the source).
pub record Regs : Type 0 where
  pub a : ℕ
  pub b : ℕ
  pub c : ℕ
  pub d : ℕ
  pub e : ℕ
  pub f : ℕ
  pub g : ℕ
  pub h : ℕ

pub record Sha256Ctx : Type 0 where
  pub regs : Regs
  pub total : ℕ
  pub buf : Bytes

unfoldable pub sha256_init : Sha256Ctx
sha256_init = record {
  regs = record {
    a = 0x6a09e667;
    b = 0xbb67ae85;
    c = 0x3c6ef372;
    d = 0xa54ff53a;
    e = 0x510e527f;
    f = 0x9b05688c;
    g = 0x1f83d9ab;
    h = 0x5be0cd19;
  };
  total = 0;
  buf = [];
}

message_words : Bytes → List ℕ
message_words (p ∷ q ∷ r ∷ s ∷ rest) =
    (p * 2 ^ 24 + q * 2 ^ 16 + r * 2 ^ 8 + s) ∷ message_words rest
message_words short = []

-- `w[i]` for i from the length of the list on.
schedule : ℕ → ℕ → List ℕ → List ℕ
unfolding rotr
schedule zero i w = w
schedule (suc n) i w =
    let x = get_or w (i - 15) 0 in
    let y = get_or w (i - 2) 0 in
    let s0 = bit_xor (bit_xor (rotr x 7) (rotr x 18)) (x / 2 ^ 3) in
    let s1 = bit_xor (bit_xor (rotr y 17) (rotr y 19)) (y / 2 ^ 10) in
    schedule n (i + 1) (w ++ ((get_or w (i - 16) 0 + s0 + get_or w (i - 7) 0 + s1) % 2 ^ 32 ∷ []))

round : ℕ → ℕ → Regs → Regs
unfolding rotr
round k w r =
    let s1 = bit_xor (bit_xor (rotr r.e 6) (rotr r.e 11)) (rotr r.e 25) in
    let ch = bit_xor (bit_and r.e r.f) (bit_and (2 ^ 32 - 1 - r.e) r.g) in
    let t1 = (r.h + s1 + ch + k + w) % 2 ^ 32 in
    let s0 = bit_xor (bit_xor (rotr r.a 2) (rotr r.a 13)) (rotr r.a 22) in
    let maj = bit_xor (bit_xor (bit_and r.a r.b) (bit_and r.a r.c)) (bit_and r.b r.c) in
    let t2 = (s0 + maj) % 2 ^ 32 in
    record {
      a = (t1 + t2) % 2 ^ 32;
      b = r.a;
      c = r.b;
      d = r.c;
      e = (r.d + t1) % 2 ^ 32;
      f = r.e;
      g = r.f;
      h = r.g;
    }

rounds : List ℕ → List ℕ → Regs → Regs
unfolding round
rounds [] ws r = r
rounds (k ∷ ks) [] r = r
rounds (k ∷ ks) (w ∷ ws) r = rounds ks ws (round k w r)

unfoldable pub sha256_block : Bytes → Regs → Regs
unfolding rounds schedule message_words
sha256_block p old =
    let new = rounds round_constants (schedule 48 16 (message_words p)) old in
    record {
      a = (old.a + new.a) % 2 ^ 32;
      b = (old.b + new.b) % 2 ^ 32;
      c = (old.c + new.c) % 2 ^ 32;
      d = (old.d + new.d) % 2 ^ 32;
      e = (old.e + new.e) % 2 ^ 32;
      f = (old.f + new.f) % 2 ^ 32;
      g = (old.g + new.g) % 2 ^ 32;
      h = (old.h + new.h) % 2 ^ 32;
    }

-- `if (buflen == 64) { block(buf); buflen = 0; }`
unfoldable pub flush : Sha256Ctx → Sha256Ctx
flush s = if length s.buf == 64 then record s { regs = sha256_block s.buf s.regs; buf = [] } else s

-- The loop of `update`, on fuel; a round takes a byte at least while `buflen` is below 64.
unfoldable pub update_loop : ℕ → Bytes → Sha256Ctx → Sha256Ctx
update_loop fuel [] s = s
update_loop zero (x ∷ xs) s = s
update_loop (suc fuel) (x ∷ xs) s =
    let n = min (64 - length s.buf) (length (x ∷ xs)) in
    update_loop fuel (drop n (x ∷ xs)) (flush (record s { buf = s.buf ++ take n (x ∷ xs) }))

unfoldable pub sha256_update : Bytes → Sha256Ctx → Sha256Ctx
sha256_update input s =
    update_loop (length input) input (record s { total = (s.total + length input) % 2 ^ 64 })

-- `while (buflen != 56) update(&zero, 1);` on fuel.
unfoldable pub pad_zeros : ℕ → Sha256Ctx → Sha256Ctx
pad_zeros zero s = s
pad_zeros (suc fuel) s =
    let rest = pad_zeros fuel (sha256_update (0 ∷ []) s) in if length s.buf == 56 then s else rest

abbrev pub digest_bytes : Regs → Bytes
digest_bytes r =
    be32 r.a ++ be32 r.b ++ be32 r.c ++ be32 r.d ++ be32 r.e ++ be32 r.f ++ be32 r.g ++ be32 r.h

unfoldable pub length_bytes : ℕ → Bytes
length_bytes bits = be32 (bits / 2 ^ 32) ++ be32 bits

unfoldable pub sha256_final : Sha256Ctx → Bytes
sha256_final s =
    let bits = s.total * 8 % 2 ^ 64 in
    let padded = pad_zeros 64 (sha256_update (0x80 ∷ []) s) in
    digest_bytes (sha256_update (length_bytes bits) padded).regs

unfoldable pub sha256 : Bytes → Bytes
sha256 input = sha256_final (sha256_update input sha256_init)

sha256_abc :
    sha256 (codes "abc")
    ≡ be32 0xba7816bf
      ++ be32 0x8f01cfea
      ++ be32 0x414140de
      ++ be32 0x5dae2223
      ++ be32 0xb00361a3
      ++ be32 0x96177a9c
      ++ be32 0xb410ff61
      ++ be32 0xf20015ad
unfolding sha256 sha256_final sha256_init sha256_update pad_zeros length_bytes update_loop flush
    sha256_block
sha256_abc = refl
