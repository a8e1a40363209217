-- ===== src/NatServer/Auth.antt =====
-- server/natserver/src/NatServer.cpp, `issue_auth_nonce` and `verify_auth_login`. The random bytes of
-- a nonce are an argument.
pub mod Nonce
use p2p_server.Prelude.{
  ℕ, ◌+◌, ◌==◌, ltb, leb, if◌then◌else◌, Bool, true, false, not, List, [], ◌++◌, Option, none, some,
  Bytes, bytes_eq, take,
}
use p2p_server.Prelude.Maps.{find, put, erase, bytes_key}
use p2p_server.Prelude.Wire.{padded}
use p2p_server.Crypto.Hmac.{hmac_sha256}
use p2p_server.Crypto.Aead.{tag_diff}
use p2p_server.CfgFile.{auth_enabled}
use p2p_server.PeerManage.{set_auth_expire}
use p2p_server.NatServer.{NatServer}

unfoldable pub issue_auth_nonce : NatServer → Bytes → Bytes → ℕ → NatServer
issue_auth_nonce s uuid random now = record s {
  auth_nonces = put uuid (random, now + 30) s.auth_nonces;
}

-- HMAC-SHA256 of the uuid's 33 bytes and the nonce.
abbrev pub login_mac : Bytes → Bytes → Bytes → Bytes
login_mac secret uuid nonce = hmac_sha256 secret (padded 33 uuid ++ nonce)

-- What follows once the nonce of the uuid is found.
unfoldable pub check_login : NatServer → Bytes → Bytes → Bytes → ℕ → Bytes × ℕ → NatServer × Bool
check_login s uuid nonce mac now (issued, expire) =
    let used = record s { auth_nonces = erase uuid s.auth_nonces } in
    if ltb expire now
    then (used, false)
    else if not (bytes_eq issued nonce)
    then (used, false)
    else if not (tag_diff (login_mac s.cfg.auth_secret uuid nonce) mac == 0)
    then (used, false)
    else (record used { peers = set_auth_expire s.peers uuid (now + 3600) }, true)

unfoldable pub verify_auth_login : NatServer → Bytes → Bytes → Bytes → ℕ → NatServer × Bool
verify_auth_login s uuid nonce mac now =
    if not (auth_enabled s.cfg) then (s, true) else elim (find uuid s.auth_nonces) [
      | none ↦ (s, false)
      | some entry ↦ check_login s uuid nonce mac now entry
    ]
