-- ===== src/Client/Auth/Denied.antt =====
-- client/sdk/api/P2PClient.cpp with server/natserver/src: logins that come too late, and answers that
-- never come.
use p2p_server.Prelude.{ℕ, ◌+◌, ◌<◌, ◌≡◌, refl, ◌∙◌, leb, true, false, [], length, is_empty, arith}
use p2p_server.Prelude.Maps.{bytes_key}
use p2p_server.ProtoDef.{msg_auth_login_rsp, auth_bad_mac}
use p2p_server.ProtoDef.Replies.{auth_login_rsp_bytes}
use p2p_server.ProtoDef.Client.{auth_login_req_bytes}
use p2p_server.ProtoDef.Fields.{IsUuid}
use p2p_server.Util.{Sockaddr}
use p2p_server.Net.{send_msg}
use p2p_server.CfgFile.{auth_enabled}
use p2p_server.PeerManage.{authed}
use p2p_server.AntiAbuse.{is_uuid_blacklisted}
use p2p_server.LicenseMgr.{allowed}
use p2p_server.NatServer.{NatServer}
use p2p_server.NatServer.Auth.{issue_auth_nonce, login_mac}
use p2p_server.NatServer.Packet.Peers.{Env}
use p2p_server.NatServer.Packet.Admin.{on_auth_login}
use p2p_server.Client.{P2pClient}
use p2p_server.Client.Auth.{on_auth_login_rsp}
use p2p_server.ProtoDef.Replies.{ext_info_rsp_bytes}
use p2p_server.NatServer.Heartbeat.{heartbeat_refusal}
use p2p_server.Client.Auth.{do_auth_challenge, tick_auth}
use p2p_server.Client.Heartbeat.{on_heartbeat_rsp}
use p2p_server.Client.Auth.Login.{let_in}

-- A login with the right MAC, of a uuid that is licensed and not on the black list, that reaches the
-- server more than 30 seconds after the challenge is answered as a wrong MAC, and the uuid counts as
-- logged in no more than before. On that answer the client's timer asks for no challenge again,
-- whatever the time.
pub late_login_denied :
    (s : NatServer) (c : P2pClient) (env later : Env) (from : Sockaddr) (t t' when : ℕ)
    → auth_enabled s.cfg ≡ true
    → IsUuid c.cfg.uuid
    → length env.nonce ≡ 16
    → (is_uuid_blacklisted s.abuse c.cfg.uuid later.now).1 ≡ false
    → allowed s.license c.cfg.uuid ≡ true
    → env.now + 30 < later.now
    → let verdict = auth_login_rsp_bytes (record { result = auth_bad_mac; session_ttl = 3600 }) in
      let request = auth_login_req_bytes (record {
        uuid = c.cfg.uuid;
        nonce = env.nonce;
        mac = login_mac s.cfg.auth_secret c.cfg.uuid env.nonce;
      }) in
      let (s', out) =
        on_auth_login (issue_auth_nonce s c.cfg.uuid env.nonce env.now) later request from in
      let c' = (on_auth_login_rsp c verdict t).0 in
      (out ≡ send_msg from msg_auth_login_rsp verdict)
      × (authed s'.peers c.cfg.uuid when ≡ authed s.peers c.cfg.uuid when)
      × (c'.authed ≡ c.authed)
      × (tick_auth c' t' ≡ (c', []))
unfolding on_auth_login_rsp auth_login_rsp_bytes tick_auth
late_login_denied s c env later from t t' when on v n white lic late =
    let (out, lasting) = let_in s env later c.cfg.uuid from when on v n white lic in
    let too_late : leb later.now (env.now + 30) ≡ false = ground (arith, late) in
    (out ∙ rw (too_late) refl, lasting ∙ rw (too_late) refl, refl, ground arith)

-- Once a client with a secret has asked for a challenge and has no answer, neither its timer, at any
-- time, nor the server's answer to a heartbeat that a login is needed makes it ask again, send
-- anything or change its state.
pub lost_challenge :
    (s : NatServer) (c : P2pClient) (now : ℕ)
    → is_empty c.secret ≡ false
    → let waiting = (do_auth_challenge c).0 in
      (tick_auth waiting now ≡ (waiting, []))
      × (on_heartbeat_rsp waiting (ext_info_rsp_bytes (heartbeat_refusal s 1)) now ≡ (waiting, []))
unfolding do_auth_challenge tick_auth on_heartbeat_rsp ext_info_rsp_bytes
lost_challenge s c now secret = (ground (arith, secret), ground (arith, secret))
