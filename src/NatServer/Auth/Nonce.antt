-- ===== src/NatServer/Auth/Nonce.antt =====
-- server/natserver/src/NatServer.cpp: who passes `verify_auth_login`, and how often.
use p2p_server.Prelude.{
  ℕ, ◌+◌, ltb, leb, if◌then◌else◌, ◌≡◌, refl, true, false, ◌&&◌, ◌++◌, none, some, Bytes, bytes_eq,
  bytes_eq_iff, length, arith, Option-cases, inl, inr,
}
use p2p_server.Prelude.Maps.{find, put, bytes_key, find-put, find-erase}
use p2p_server.Prelude.Wire.{padded}
use p2p_server.Crypto.Aead.RoundTrip.{tag_diff_mac}
use p2p_server.CfgFile.{auth_enabled}
use p2p_server.PeerManage.{authed}
use p2p_server.PeerManage.Expiry.{authed_own}
use p2p_server.NatServer.{NatServer}
use p2p_server.NatServer.Auth.{issue_auth_nonce, login_mac, check_login, verify_auth_login}

no_nonce :
    (s : NatServer) (uuid nonce mac : Bytes) (now : ℕ)
    → auth_enabled s.cfg ≡ true
    → find uuid (verify_auth_login s uuid nonce mac now).0.auth_nonces ≡ none
unfolding verify_auth_login check_login
no_nonce s uuid nonce mac now on = elim (Option-cases (find uuid s.auth_nonces)) [
  | inl e ↦ rw (on, e) e
  | inr ((issued, expire), e) ↦
      rw (on, e) (ground (arith, find-erase uuid uuid s.auth_nonces, bytes_eq_iff uuid uuid))
]

same_cfg :
    (s : NatServer) (uuid nonce mac : Bytes) (now : ℕ)
    → (verify_auth_login s uuid nonce mac now).0.cfg ≡ s.cfg
unfolding verify_auth_login check_login
same_cfg s uuid nonce mac now = ground arith

no_login :
    (s : NatServer) (uuid nonce mac : Bytes) (now : ℕ)
    → auth_enabled s.cfg ≡ true
    → find uuid s.auth_nonces ≡ none
    → (verify_auth_login s uuid nonce mac now).1 ≡ false
unfolding verify_auth_login
no_login s uuid nonce mac now on e = rw (on, e) refl

-- A challenge is good for one attempt: whatever a first login with it led to, no second login of
-- that uuid passes before a new challenge is issued, with any nonce, MAC or time.
pub login_once :
    (s : NatServer) (uuid nonce mac nonce' mac' : Bytes) (now now' : ℕ)
    → auth_enabled s.cfg ≡ true
    → (verify_auth_login (verify_auth_login s uuid nonce mac now).0 uuid nonce' mac' now').1 ≡ false
login_once s uuid nonce mac nonce' mac' now now' on =
    no_login (verify_auth_login s uuid nonce mac now).0 uuid nonce' mac' now'
      (rw (same_cfg s uuid nonce mac now) on) (no_nonce s uuid nonce mac now on)

check_login_lem :
    (s : NatServer) (uuid random nonce mac : Bytes) (expire now later : ℕ)
    → length mac ≡ 32
    → let (s', ok) = check_login s uuid nonce mac now (random, expire) in
      (ok ≡ (
        leb now expire
        && bytes_eq random nonce
        && bytes_eq (login_mac s.cfg.auth_secret uuid nonce) mac))
      × (authed s'.peers uuid later
          ≡ (if ok then ltb later (now + 3600) else authed s.peers uuid later))
unfolding check_login
check_login_lem s uuid random nonce mac expire now later l =
    let same = tag_diff_mac s.cfg.auth_secret (padded 33 uuid ++ nonce) mac l in
    (ground (arith, same), ground (arith, authed_own s.peers uuid (now + 3600) later))

-- With logins asked for, after a challenge a login with a MAC of 32 bytes passes exactly if it comes within 30 seconds, with the nonce issued and
-- with the HMAC of the uuid and that nonce under the secret; then the uuid counts as logged in for
-- an hour, and otherwise no more than it did before.
pub login-challenge :
    (s : NatServer) (uuid random nonce mac : Bytes) (t now later : ℕ)
    → auth_enabled s.cfg ≡ true
    → length mac ≡ 32
    → let (s', ok) = verify_auth_login (issue_auth_nonce s uuid random t) uuid nonce mac now in
      (ok ≡ (
        leb now (t + 30)
        && bytes_eq random nonce
        && bytes_eq (login_mac s.cfg.auth_secret uuid nonce) mac))
      × (authed s'.peers uuid later
          ≡ (if ok then ltb later (now + 3600) else authed s.peers uuid later))
unfolding verify_auth_login issue_auth_nonce
login-challenge s uuid random nonce mac t now later on l =
    let entry : Bytes × ℕ = (random, t + 30) in
    let found : find uuid (put uuid entry s.auth_nonces) ≡ some entry =
      ground (arith, find-put uuid uuid entry s.auth_nonces, bytes_eq_iff uuid uuid) in
    rw (on, found)
      (check_login_lem (record s { auth_nonces = put uuid entry s.auth_nonces }) uuid random nonce
        mac (t + 30) now later l)
