-- ===== src/NatServer/Sync/Signed.antt =====
-- server/natserver/src/NatServer.cpp: `sync_send_msg` against `sync_verify`.
use p2p_server.Prelude.{
  ℕ, zero, suc, ◌+◌, ltb, ◌≡◌, ◌≢◌, refl, sym, ap, ◌∙◌, true, false, [], ◌∷◌, ◌++◌, Bytes,
  bytes_eq_iff, bytes_eq_refl, length, is_empty, take, drop, take-append, drop-append, take_all,
  length-append, arith,
}
use p2p_server.Prelude.Wire.{slice}
use p2p_server.Crypto.Hmac.{hmac_sha256}
use p2p_server.Crypto.Aead.RoundTrip.{length-hmac_sha256}
use p2p_server.NatServer.{NatServer}
use p2p_server.NatServer.Sync.{signed, sync_verify}

take-length-append : (xs ys : Bytes) → take (length xs) (xs ++ ys) ≡ xs
take-length-append xs ys = take-append xs ys (length xs) refl

drop-length-append : (xs ys : Bytes) → drop (length xs) (xs ++ ys) ≡ ys
drop-length-append xs ys = drop-append xs ys (length xs) refl

take-drop : (n k : ℕ) (xs : Bytes) → take (n + k) xs ≡ take n xs ++ take k (drop n xs)
take-drop zero k xs = ap (λ (i : ℕ). take i xs) (zero_plus k)
  where
    zero_plus : (j : ℕ) → 0 + j ≡ j
    zero_plus j = omega arith
take-drop (suc n) k [] = take_all (suc n + k) [] (omega arith) ∙ sym (take_all k [] (omega arith))
take-drop (suc n) k (x ∷ xs) =
    ap (λ (i : ℕ). take i (x ∷ xs)) (suc_plus n k) ∙ ap (◌∷◌ x) (take-drop n k xs)
  where
    suc_plus : (i j : ℕ) → suc i + j ≡ suc (i + j)
    suc_plus i j = omega arith

not_empty : (xs : Bytes) → xs ≢ [] → is_empty xs ≡ false
not_empty [] n = absurd (n refl)
not_empty (x ∷ xs) n = refl

-- What a server signs, one with the same secret accepts.
pub accepts_signed :
    (s : NatServer) (body : Bytes)
    → s.cfg.sync_auth_secret ≢ []
    → sync_verify s (signed s.cfg.sync_auth_secret body) (length body) ≡ true
unfolding sync_verify signed
accepts_signed s body full =
    let secret = s.cfg.sync_auth_secret in
    let mac = hmac_sha256 secret body in
    let size : ltb (length (body ++ mac)) (length body + 32) ≡ false =
      ground (arith, length-append body mac, length-hmac_sha256 secret body) in
    rw (not_empty secret full, size, take-length-append body mac, drop-length-append body mac)
      (rw (take_all 32 mac (omega (arith, length-hmac_sha256 secret body))) (bytes_eq_refl mac))

-- A server with a secret accepts what another server with the same secret has signed; and whatever
-- payload it accepts begins with what `signed` makes of the body under that secret.
pub sync_verify-signed :
    (a b : NatServer) (body payload : Bytes) (n : ℕ)
    → a.cfg.sync_auth_secret ≡ b.cfg.sync_auth_secret
    → b.cfg.sync_auth_secret ≢ []
    → sync_verify b payload n ≡ true
    → (sync_verify b (signed a.cfg.sync_auth_secret body) (length body) ≡ true)
      × (take (n + 32) payload ≡ signed b.cfg.sync_auth_secret (take n payload))
unfolding sync_verify signed
sync_verify-signed a b body payload n e full h =
    let secret = b.cfg.sync_auth_secret in
    (
      rw e (accepts_signed b body full),
      ground (
        arith,
        not_empty secret full,
        take-drop n 32 payload,
        bytes_eq_iff (hmac_sha256 secret (take n payload)) (slice payload n 32),
      ),
    )
