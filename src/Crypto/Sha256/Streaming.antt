-- ===== src/Crypto/Sha256/Streaming.antt =====
-- common/Crypto.cpp: SHA-256 fed in pieces is SHA-256 of the whole, and HMAC is RFC 2104's formula.
use p2p_server.Prelude.{
  ℕ, zero, suc, ◌+◌, ◌-◌, ◌%◌, ◌^◌, ◌≤◌, ◌<◌, min, ◌≡◌, refl, sym, ap, ◌∙◌, [], ◌∷◌, ◌++◌, map,
  foldl, Bytes, length, take, drop, length-append, length-take, length-drop, take-append-drop,
  arith, bit_xor,
}
use mathlib.Core.List.{append_assoc}
use p2p_server.Crypto.Sha256.{
  Sha256Ctx, flush, update_loop, sha256_update, sha256_final, sha256_init, sha256,
}
use p2p_server.Crypto.Hmac.{hmac_sha256, hmac_key_block}

-- One byte, as the loop takes it when it stands alone.
unfoldable pub absorb : Sha256Ctx → ℕ → Sha256Ctx
absorb s b = flush (record s { buf = s.buf ++ (b ∷ []) })

pub absorb-lt : (s : Sha256Ctx) (b : ℕ) → length s.buf < 64 → length (absorb s b).buf < 64
unfolding absorb flush
absorb-lt s b h = ground (arith, length-append s.buf (b ∷ []))

absorb_room :
    (s : Sha256Ctx) (b : ℕ) → length s.buf < 63 → absorb s b ≡ record s { buf = s.buf ++ (b ∷ []) }
unfolding absorb flush
absorb_room s b h = ground (arith, length-append s.buf (b ∷ []))

-- Bytes that fit: only the last can fill the buffer.
pub fill :
    (xs : Bytes) (x : ℕ) (s : Sha256Ctx)
    → length s.buf + length (x ∷ xs) ≤ 64
    → foldl absorb s (x ∷ xs) ≡ flush (record s { buf = s.buf ++ x ∷ xs })
fill [] x s h = unfold absorb in refl
fill (y ∷ xs) x s h =
    let s' : Sha256Ctx = record s { buf = s.buf ++ (x ∷ []) } in
    rw (absorb_room s x (omega arith)) (
      fill xs y s' (omega (arith, length-append s.buf (x ∷ [])))
      ∙ ap (λ (l : Bytes). flush (record s { buf = l })) (append_assoc s.buf (x ∷ []) (y ∷ xs)))

pub foldl-append :
    (xs ys : Bytes) (s : Sha256Ctx)
    → foldl absorb s (xs ++ ys) ≡ foldl absorb (foldl absorb s xs) ys
foldl-append [] ys s = refl
foldl-append (x ∷ xs) ys s = foldl-append xs ys (absorb s x)

pub foldl-lt :
    (xs : Bytes) (s : Sha256Ctx) → length s.buf < 64 → length (foldl absorb s xs).buf < 64
foldl-lt [] s h = h
foldl-lt (x ∷ xs) s h = foldl-lt xs (absorb s x) (absorb-lt s x h)

-- The round's piece, absorbed byte by byte.
piece :
    (n : ℕ) (x : ℕ) (xs : Bytes) (s : Sha256Ctx)
    → length s.buf + suc n ≤ 64
    → foldl absorb s (take (suc n) (x ∷ xs))
      ≡ flush (record s { buf = s.buf ++ take (suc n) (x ∷ xs) })
piece n x xs s h = fill (take n xs) x s (omega (arith, length-take n xs))

update_loop_round :
    (fuel x : ℕ) (xs : Bytes) (s : Sha256Ctx)
    → let n = min (64 - length s.buf) (length (x ∷ xs)) in
      update_loop (suc fuel) (x ∷ xs) s
      ≡ update_loop fuel (drop n (x ∷ xs)) (flush (record s { buf = s.buf ++ take n (x ∷ xs) }))
unfolding update_loop
update_loop_round fuel x xs s = refl

update_loop-absorb :
    (fuel : ℕ) (xs : Bytes) (s : Sha256Ctx)
    → length xs ≤ fuel
    → length s.buf < 64
    → update_loop fuel xs s ≡ foldl absorb s xs
update_loop-absorb fuel [] s h l = unfold update_loop in refl
update_loop-absorb zero (x ∷ xs) s h l = absurd (omega arith)
update_loop-absorb (suc fuel) (x ∷ xs) s h l =
    let n = min (64 - length s.buf) (length (x ∷ xs)) in
    let e : n ≡ suc (n - 1) = omega arith in
    let cut = piece (n - 1) x xs s (omega arith) in
    let cut' : foldl absorb s (take n (x ∷ xs))
        ≡ flush (record s { buf = s.buf ++ take n (x ∷ xs) }) =
      rw e cut in
    let room : length (foldl absorb s (take n (x ∷ xs))).buf < 64 =
      foldl-lt (take n (x ∷ xs)) s l in
    update_loop_round fuel x xs s
    ∙ rw (← cut') (
        update_loop-absorb fuel (drop n (x ∷ xs)) (foldl absorb s (take n (x ∷ xs)))
          (omega (arith, length-drop n (x ∷ xs))) room
        ∙ sym (foldl-append (take n (x ∷ xs)) (drop n (x ∷ xs)) s)
        ∙ ap (foldl absorb s) (take-append-drop n (x ∷ xs)))

abbrev with_total : ℕ → Sha256Ctx → Sha256Ctx
with_total t s = record s { total = t }

absorb-with_total :
    (t : ℕ) (s : Sha256Ctx) (b : ℕ) → absorb (with_total t s) b ≡ with_total t (absorb s b)
unfolding absorb flush
absorb-with_total t s b = ground arith

foldl-with_total :
    (t : ℕ) (xs : Bytes) (s : Sha256Ctx)
    → foldl absorb (with_total t s) xs ≡ with_total t (foldl absorb s xs)
foldl-with_total t [] s = refl
foldl-with_total t (x ∷ xs) s = rw (absorb-with_total t s x) (foldl-with_total t xs (absorb s x))

-- `update` by a byte-wise definition, with the count of bytes.
pub update-absorb :
    (xs : Bytes) (s : Sha256Ctx)
    → length s.buf < 64
    → sha256_update xs s ≡ record (foldl absorb s xs) { total = (s.total + length xs) % 2 ^ 64 }
unfolding sha256_update
update-absorb xs s l = update_loop-absorb (length xs) xs _ (omega arith) l ∙ foldl-with_total _ xs s

pub update-lt :
    (xs : Bytes) (s : Sha256Ctx) → length s.buf < 64 → length (sha256_update xs s).buf < 64
update-lt xs s l = rw (update-absorb xs s l) (foldl-lt xs s l)

absorb-total : (s : Sha256Ctx) (b : ℕ) → (absorb s b).total ≡ s.total
unfolding absorb flush
absorb-total s b = ground arith

-- Two updates in a row are one update with the joined input.
pub update-update :
    (xs ys : Bytes) (s : Sha256Ctx)
    → length s.buf < 64
    → sha256_update ys (sha256_update xs s) ≡ sha256_update (xs ++ ys) s
update-update xs ys s l =
    let u = sha256_update xs s in
    let first = update-absorb xs s l in
    rw (update-absorb (xs ++ ys) s l, update-absorb ys u (update-lt xs s l), first)
      (rw
        (
          foldl-with_total ((s.total + length xs) % 2 ^ 64) ys (foldl absorb s xs),
          foldl-append xs ys s,
        )
        (ap (λ (t : ℕ). with_total t (foldl absorb (foldl absorb s xs) ys))
          (omega (arith, length-append xs ys))))

init_room : length sha256_init.buf < 64
unfolding sha256_init
init_room = omega arith

-- HMAC as RFC 2104 writes it: H((K xor opad) ++ H((K xor ipad) ++ message)).
pub hmac-sha256 :
    (key msg : Bytes)
    → let k = hmac_key_block key in
      hmac_sha256 key msg
      ≡ sha256
          (map (λ (b : ℕ). bit_xor b 0x5c) k ++ sha256 (map (λ (b : ℕ). bit_xor b 0x36) k ++ msg))
unfolding hmac_sha256 sha256
hmac-sha256 key msg =
    let k = hmac_key_block key in
    let ipad = map (λ (b : ℕ). bit_xor b 0x36) k in
    let opad = map (λ (b : ℕ). bit_xor b 0x5c) k in
    rw (update-update ipad msg sha256_init init_room) (
      ap sha256_final (
        update-update opad (sha256_final (sha256_update (ipad ++ msg) sha256_init)) sha256_init
          init_room))
