-- ===== src/Client/Auth/Login.antt =====
-- client/sdk/api/P2PClient.cpp with server/natserver/src: a login from its request to its verdict.
use p2p_server.Prelude.{
  ℕ, ◌+◌, ◌≤◌, ◌≡◌, refl, sym, ap, ◌∙◌, ltb, leb, if◌then◌else◌, true, false, not, ◌&&◌, [], ◌++◌,
  Bytes, bytes_eq_iff, bytes_eq_refl, length, length-append, arith, Option-cases, inl, inr,
  take-append,
}
use mathlib.Core.List.{append-nil}
use p2p_server.Prelude.Maps.{find, bytes_key, find-erase}
use p2p_server.Prelude.Wire.{padded, length-padded, be16}
use p2p_server.ProtoDef.{
  msg_auth_challenge_rsp, msg_auth_challenge_req, msg_auth_login_req, msg_auth_login_rsp, auth_ok,
  auth_bad_mac,
}
use p2p_server.ProtoDef.Requests.{read_uuid, AuthLoginReq}
use p2p_server.ProtoDef.Replies.{uuid_field, auth_challenge_rsp_bytes, auth_login_rsp_bytes}
use p2p_server.ProtoDef.Client.{auth_login_req_bytes}
use p2p_server.ProtoDef.Fields.{
  IsUuid, length-uuid_field, padded_full, read_uuid_first, read_auth_login_req-bytes,
}
use p2p_server.Util.{Sockaddr}
use p2p_server.Net.{send_msg}
use p2p_server.Crypto.Aead.RoundTrip.{length-hmac_sha256}
use p2p_server.CfgFile.{auth_enabled}
use p2p_server.PeerManage.{authed}
use p2p_server.AntiAbuse.{AntiAbuse, is_uuid_blacklisted}
use p2p_server.LicenseMgr.{allowed}
use p2p_server.NatServer.{NatServer}
use p2p_server.NatServer.Auth.{issue_auth_nonce, verify_auth_login, login_mac}
use p2p_server.NatServer.Auth.Nonce.{login-challenge}
use p2p_server.NatServer.Packet.Peers.{Env}
use p2p_server.NatServer.Packet.Admin.{challenge, on_auth_challenge, login, on_auth_login}
use p2p_server.Client.{P2pClient}
use p2p_server.Client.Path.{send_proto}
use p2p_server.Client.Auth.{
  on_auth_challenge_rsp, do_auth_challenge, do_auth_login, on_auth_login_rsp, logged_in,
}

-- A uuid that is not on the black list now is not on it later.
pub still_white :
    (a : AntiAbuse) (uuid : Bytes) (now later : ℕ)
    → (is_uuid_blacklisted a uuid now).1 ≡ false
    → (is_uuid_blacklisted (is_uuid_blacklisted a uuid now).0 uuid later).1 ≡ false
unfolding is_uuid_blacklisted
still_white a uuid now later h = elim (Option-cases (find uuid a.uuid_black)) [
  | inl e ↦ ground (arith, e)
  | inr (expire, e) ↦
      ground (arith, e, h, find-erase uuid uuid a.uuid_black, bytes_eq_iff uuid uuid)
]

read_uuid_alone : (u : Bytes) → IsUuid u → read_uuid (uuid_field u) 0 ≡ u
read_uuid_alone u v =
    ap (λ p. read_uuid p 0) (sym (append-nil (uuid_field u))) ∙ read_uuid_first u [] v

-- What the server does on the request of the client.
challenged :
    (s : NatServer) (env : Env) (uuid : Bytes) (from : Sockaddr)
    → IsUuid uuid
    → (is_uuid_blacklisted s.abuse uuid env.now).1 ≡ false
    → allowed s.license uuid ≡ true
    → on_auth_challenge s env (uuid_field uuid) from ≡ (
      issue_auth_nonce
          (record s { abuse = (is_uuid_blacklisted s.abuse uuid env.now).0 })
          uuid
          env.nonce
          env.now,
      send_msg from msg_auth_challenge_rsp (auth_challenge_rsp_bytes (challenge 0 env.nonce)),
    )
unfolding on_auth_challenge
challenged s env uuid from v white lic =
    rw (length-uuid_field uuid, read_uuid_alone uuid v, white, lic) (ground arith)

-- What the client answers.
answered :
    (c : P2pClient) (nonce : Bytes) (t : ℕ)
    → length nonce ≡ 16
    → (on_auth_challenge_rsp c (auth_challenge_rsp_bytes (challenge 0 nonce)) t).1
      ≡ send_proto msg_auth_login_req
          (auth_login_req_bytes (record {
            uuid = c.cfg.uuid;
            nonce = nonce;
            mac = login_mac c.secret c.cfg.uuid nonce;
          }))
          c.nat_sock
unfolding on_auth_challenge_rsp auth_challenge_rsp_bytes do_auth_login
answered c nonce t l =
    rw
      (
        length-append (padded 16 nonce) (be16 30),
        length-padded 16 nonce,
        take-append (padded 16 nonce) (be16 30) 16 (length-padded 16 nonce),
        padded_full nonce 16 l,
      )
      refl

length-three : (xs ys zs : Bytes) → length (xs ++ ys ++ zs) ≡ length xs + length ys + length zs
length-three xs ys zs = omega (arith, length-append (xs ++ ys) zs, length-append xs ys)

length-auth_login_req_bytes :
    (r : AuthLoginReq)
    → length r.nonce ≡ 16
    → length r.mac ≡ 32
    → length (auth_login_req_bytes r) ≡ 81
unfolding auth_login_req_bytes
length-auth_login_req_bytes r n m =
    length-three (uuid_field r.uuid) r.nonce r.mac ∙ rw (length-uuid_field r.uuid, n, m) refl

-- What the server makes of the answer.
pub let_in :
    (s : NatServer) (env later : Env) (uuid : Bytes) (from : Sockaddr) (when : ℕ)
    → auth_enabled s.cfg ≡ true
    → IsUuid uuid
    → length env.nonce ≡ 16
    → (is_uuid_blacklisted s.abuse uuid later.now).1 ≡ false
    → allowed s.license uuid ≡ true
    → let soon = leb later.now (env.now + 30) in
      let request = auth_login_req_bytes (record {
        uuid = uuid;
        nonce = env.nonce;
        mac = login_mac s.cfg.auth_secret uuid env.nonce;
      }) in
      let (s', out) =
        on_auth_login (issue_auth_nonce s uuid env.nonce env.now) later request from in
      (out
        ≡ send_msg from msg_auth_login_rsp (
            auth_login_rsp_bytes
              (record { result = if soon then auth_ok else auth_bad_mac; session_ttl = 3600 })))
      × (authed s'.peers uuid when
          ≡ (if soon then ltb when (later.now + 3600) else authed s.peers uuid when))
unfolding on_auth_login login issue_auth_nonce
let_in s env later uuid from when on v n white lic =
    let mac = login_mac s.cfg.auth_secret uuid env.nonce in
    let abuse = (is_uuid_blacklisted s.abuse uuid later.now).0 in
    let t = record s { abuse = abuse } in
    let (ok, lasting) =
      login-challenge t uuid env.nonce env.nonce mac env.now later.now when on
        (length-hmac_sha256 s.cfg.auth_secret (padded 33 uuid ++ env.nonce)) in
    let passed : (verify_auth_login (issue_auth_nonce t uuid env.nonce env.now) uuid env.nonce mac
          later.now).1
        ≡ leb later.now (env.now + 30) =
      ok ∙ ground (arith, bytes_eq_refl env.nonce, bytes_eq_refl mac) in
    let read =
      read_auth_login_req-bytes (record { uuid = uuid; nonce = env.nonce; mac = mac }) v n
        (length-hmac_sha256 s.cfg.auth_secret (padded 33 uuid ++ env.nonce)) in
    let size =
      length-auth_login_req_bytes (record { uuid = uuid; nonce = env.nonce; mac = mac }) n
        (length-hmac_sha256 s.cfg.auth_secret (padded 33 uuid ++ env.nonce)) in
    let licensed : (s.cfg.enable_license && not (allowed s.license uuid)) ≡ false =
      ground (arith, lic) in
    rw (read, size, white, licensed, passed) (refl, lasting ∙ rw (passed) refl)

-- A client that holds the server's secret, with a uuid that is licensed and not on the black list,
-- logs in: its request is answered with a nonce, the nonce with a login and, if that reaches the
-- server within 30 seconds, the login with a verdict on which the client counts itself logged in
-- and encrypts its heartbeats; the server then counts the uuid as logged in for an hour.
pub login_succeeds :
    (s : NatServer) (c : P2pClient) (env later : Env) (from from' : Sockaddr) (t t' when : ℕ)
    → auth_enabled s.cfg ≡ true
    → c.secret ≡ s.cfg.auth_secret
    → IsUuid c.cfg.uuid
    → length env.nonce ≡ 16
    → (is_uuid_blacklisted s.abuse c.cfg.uuid env.now).1 ≡ false
    → allowed s.license c.cfg.uuid ≡ true
    → later.now ≤ env.now + 30
    → let answer = auth_challenge_rsp_bytes (challenge 0 env.nonce) in
      let verdict = auth_login_rsp_bytes (record { result = auth_ok; session_ttl = 3600 }) in
      let request = auth_login_req_bytes (record {
        uuid = c.cfg.uuid;
        nonce = env.nonce;
        mac = login_mac c.secret c.cfg.uuid env.nonce;
      }) in
      let (c0, asked) = do_auth_challenge c in
      let (s1, out1) = on_auth_challenge s env (uuid_field c.cfg.uuid) from in
      let (c1, sent) = on_auth_challenge_rsp c0 answer t in
      let (s2, out2) = on_auth_login s1 later request from' in
      let c2 = (on_auth_login_rsp c1 verdict t').0 in
      (asked ≡ send_proto msg_auth_challenge_req (uuid_field c.cfg.uuid) c.nat_sock)
      × (out1 ≡ send_msg from msg_auth_challenge_rsp answer)
      × (sent ≡ send_proto msg_auth_login_req request c.nat_sock)
      × (out2 ≡ send_msg from' msg_auth_login_rsp verdict)
      × (c2.authed ≡ true)
      × (c2.heartbeat_enc ≡ true)
      × (authed s2.peers c.cfg.uuid when ≡ ltb when (later.now + 3600))
unfolding do_auth_challenge on_auth_login_rsp auth_login_rsp_bytes logged_in
login_succeeds s c env later from from' t t' when on same v n white lic soon =
    let a = (is_uuid_blacklisted s.abuse c.cfg.uuid env.now).0 in
    let (out, lasting) =
      let_in (record s { abuse = a }) env later c.cfg.uuid from' when on v n
        (still_white s.abuse c.cfg.uuid env.now later.now white) lic in
    let in_time : leb later.now (env.now + 30) ≡ true = ground (arith, soon) in
    rw (challenged s env c.cfg.uuid from v white lic, same)
      (
        refl,
        refl,
        rw (sym same) (answered (record c { auth_inflight = true }) env.nonce t n),
        out ∙ rw (in_time) refl,
        refl,
        refl,
        lasting ∙ rw (in_time) refl,
      )
