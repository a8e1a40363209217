-- ===== src/Examples/Client.antt =====
-- client/sdk/api: runs of the client, alone and with the servers.
use p2p_server.Prelude.{
  ℕ, ◌+◌, ◌-◌, ◌*◌, ◌^◌, ◌≡◌, refl, true, false, [], ◌∷◌, ◌++◌, none, some, Bytes, length, ltb,
  arith, codes, replicate, bytes_eq, head_differs,
}
use p2p_server.Prelude.Maps.{find, contains, nat_key, bytes_key}
use p2p_server.ProtoDef.{
  auth_ok, auth_bad_mac, msg_auth_challenge_req, msg_auth_challenge_rsp, msg_auth_login_req,
  msg_auth_login_rsp, msg_proxy_register_req, msg_proxy_register_rsp, msg_proxy_relay_data,
}
use p2p_server.ProtoDef.Replies.{
  uuid_field, auth_challenge_rsp_bytes, auth_login_rsp_bytes, ext_info_rsp_bytes,
  proxy_reg_rsp_bytes,
}
use p2p_server.ProtoDef.Client.{auth_login_req_bytes, proxy_reg_req_bytes, relay_frame_bytes}
use p2p_server.ProtoDef.Fields.{IsUuid}
use p2p_server.Util.{Sockaddr, inet_pton}
use p2p_server.Codec.{WireTunnel, tunnel_bytes, codec_write_head}
use p2p_server.Net.{send_msg}
use p2p_server.Crypto.Hmac.{hmac_sha256}
use p2p_server.PeerManage.{authed}
use p2p_server.AntiAbuse.{is_uuid_blacklisted}
use p2p_server.LicenseMgr.{allowed}
use p2p_server.Proxy.{proxy_auth_key, enter, is_full, granted, handle}
use p2p_server.NatServer.{NatServer, sealed_reply}
use p2p_server.NatServer.Auth.{issue_auth_nonce, login_mac}
use p2p_server.NatServer.Heartbeat.{handle_heartbeat, heartbeat_refusal}
use p2p_server.NatServer.Packet.Peers
use p2p_server.NatServer.Packet.Peers.{on_heartbeat_enc}
use p2p_server.NatServer.Packet.Admin.{challenge, on_auth_challenge, on_auth_login}
use p2p_server.Client.{
  P2pClient, Conn, ServerAddr, Env, Outcome, new_conn, new_backoff, send_to, ◌▷◌, conn_at, set_conn,
  sockaddr_from,
}
use p2p_server.Client.Life.{no_config, new_client}
use p2p_server.Client.Path.{send_proto, relay_register, send_relayed, on_tunnel_frame}
use p2p_server.Client.Auth.{do_auth_challenge, on_auth_challenge_rsp, on_auth_login_rsp, tick_auth}
use p2p_server.Client.Auth.Login.{login_succeeds}
use p2p_server.Client.Auth.Denied.{late_login_denied, lost_challenge}
use p2p_server.Client.Backoff.{next_delay}
use p2p_server.Client.Backoff.Delay.{capped, next_delay-capped}
use p2p_server.Client.Heartbeat.{
  heartbeat_req, sealed_heartbeat, on_heartbeat_rsp, on_heartbeat_rsp_enc,
}
use p2p_server.Client.Heartbeat.Sealed.{on_heartbeat_enc-sealed, on_heartbeat_rsp_enc-sealed}
use p2p_server.Client.Packet.{named, relay_heard, handle_proto}
use p2p_server.Client.Packet.Relayed.{relay_register-admitted, send_relayed-on_relay_data}
use p2p_server.Client.Tick.{tick_connections}
use p2p_server.Client.Tick.Erased.{unanswered_connect}
use p2p_server.Client.Tick.Forced.{tick_connections-Ends}
use p2p_server.Client.Tunnel.{encrypt_tunnel_frame, decrypt_tunnel_frame}
use p2p_server.Client.Tunnel.Sealed.{Share, decrypt-encrypt}
use p2p_server.Client.Tunnel.Key.{KeysDerived}
use p2p_server.Codec.RoundTrip.{IsWireTunnel, length-tunnel_bytes}
use p2p_server.Examples.Directory.{home, away, closed_server, closed, nonce}
use p2p_server.Examples.Relay.{one_peer}

abbrev relay_server : ServerAddr
relay_server = record { ip = codes "127.0.0.1"; port = 9100 }

-- The client of a uuid, with the secret of `closed_server` and one relay.
abbrev client_of : Bytes → P2pClient
client_of uuid = record new_client {
  cfg = record no_config { uuid = uuid };
  secret = codes "s";
  local_port = 4000;
  nat_sock = home;
  proxies = relay_server ∷ [];
}

abbrev alice : P2pClient
alice = client_of (codes "a")

abbrev bob : P2pClient
bob = client_of (codes "b")

abbrev env : Env
env = record {
  now = 20000;
  nonce = λ n. replicate 12 n;
  iv = replicate 8 7;
  agent = false;
  description = none;
  beyond = [];
}

abbrev at : ℕ → p2p_server.NatServer.Packet.Peers.Env
at now = record { now = now; nonce = nonce; draws = []; invite_draws = []; beyond = [] }

named_a : IsUuid (codes "a")
named_a = record {
  named = omega arith;
  fits = omega arith;
  plain = (λ e. absurd (omega (arith, e)), tt);
}

named_b : IsUuid (codes "b")
named_b = record {
  named = omega arith;
  fits = omega arith;
  plain = (λ e. absurd (omega (arith, e)), tt);
}

white : (now : ℕ) → (is_uuid_blacklisted closed_server.abuse (codes "a") now).1 ≡ false
unfolding is_uuid_blacklisted find
white now = refl

licensed : allowed closed_server.license (codes "a") ≡ true
unfolding allowed
licensed = refl

abbrev login_of_alice : Bytes
login_of_alice =
    auth_login_req_bytes
      (record { uuid = codes "a"; nonce = nonce; mac = login_mac (codes "s") (codes "a") nonce })

login_succeeds_example :
    let answer = auth_challenge_rsp_bytes (challenge 0 nonce) in
    let verdict = auth_login_rsp_bytes (record { result = auth_ok; session_ttl = 3600 }) in
    let (s1, out1) = on_auth_challenge closed_server (at 10) (uuid_field (codes "a")) away in
    let (c0, asked) = do_auth_challenge alice in
    let (c1, sent) = on_auth_challenge_rsp c0 answer 100 in
    let (s2, out2) = on_auth_login s1 (at 40) login_of_alice away in
    let c2 = (on_auth_login_rsp c1 verdict 200).0 in
    (asked ≡ send_proto msg_auth_challenge_req (uuid_field (codes "a")) home)
    × (out1 ≡ send_msg away msg_auth_challenge_rsp answer)
    × (sent ≡ send_proto msg_auth_login_req login_of_alice home)
    × (out2 ≡ send_msg away msg_auth_login_rsp verdict)
    × (c2.authed ≡ true)
    × (c2.heartbeat_enc ≡ true)
    × (authed s2.peers (codes "a") 100 ≡ ltb 100 (40 + 3600))
login_succeeds_example =
    login_succeeds closed_server alice (at 10) (at 40) away away 100 200 100 closed refl named_a
      refl (white 10) licensed (omega arith)

late_login_denied_example :
    let verdict = auth_login_rsp_bytes (record { result = auth_bad_mac; session_ttl = 3600 }) in
    let (s', out) =
      on_auth_login
        (issue_auth_nonce closed_server (codes "a") nonce 10)
        (at 41)
        login_of_alice
        away in
    let c' = (on_auth_login_rsp alice verdict 100).0 in
    (out ≡ send_msg away msg_auth_login_rsp verdict)
    × (authed s'.peers (codes "a") 50 ≡ authed closed_server.peers (codes "a") 50)
    × (c'.authed ≡ alice.authed)
    × (tick_auth c' 9000000 ≡ (c', []))
late_login_denied_example =
    late_login_denied closed_server alice (at 10) (at 41) away 100 9000000 50 closed named_a refl
      (white 41) licensed (omega arith)

lost_challenge_example :
    let waiting = (do_auth_challenge alice).0 in
    (tick_auth waiting 9000000 ≡ (waiting, []))
    × (on_heartbeat_rsp waiting (ext_info_rsp_bytes (heartbeat_refusal closed_server 1)) 9000000
        ≡ (waiting, []))
lost_challenge_example = lost_challenge closed_server alice 9000000 refl

on_heartbeat_enc-sealed_example :
    on_heartbeat_enc closed_server (at 10) (sealed_heartbeat alice env) away
    ≡ handle_heartbeat closed_server (heartbeat_req alice) [] away (some env.iv) 10
on_heartbeat_enc-sealed_example =
    on_heartbeat_enc-sealed closed_server alice env (at 10) away refl refl named_a (omega arith)
      refl

on_heartbeat_rsp_enc-sealed_example :
    on_heartbeat_rsp_enc alice
      (sealed_reply closed_server.cfg
        (codes "a")
        env.iv
        (ext_info_rsp_bytes (heartbeat_refusal closed_server 1)))
      100
    ≡ on_heartbeat_rsp alice (ext_info_rsp_bytes (heartbeat_refusal closed_server 1)) 100
on_heartbeat_rsp_enc-sealed_example =
    on_heartbeat_rsp_enc-sealed closed_server alice env.iv (heartbeat_refusal closed_server 1) 100
      refl refl refl

next_delay-capped_example :
    ((next_delay (record new_backoff { attempt = 7 })).1 ≡ capped 30000 (1000 * 2 ^ (7 - 1)))
    × ((next_delay (record new_backoff { attempt = 7 })).0.attempt ≡ 7 + 1)
next_delay-capped_example =
    next_delay-capped (record new_backoff { attempt = 7 }) (omega arith) (omega arith)

-- A frame with one byte of payload.
abbrev frame : WireTunnel
frame = record {
  type = 1;
  session_id = 9;
  channel_id = 1;
  flags = 1;
  seq = 3;
  ack = 0;
  payload = 65 ∷ [];
}

frame-IsWireTunnel : IsWireTunnel frame
frame-IsWireTunnel = record {
  session_fits = omega arith;
  seq_fits = omega arith;
  ack_fits = omega arith;
  len_fits = omega arith;
}

secret_shared : Share alice bob
secret_shared = record {
  same_secret = refl;
  has_secret = refl;
  named = refl;
  peer_named = refl;
  distinct = head_differs 98 97 [] [] refl;
}

no_keys : (uuid : Bytes) → KeysDerived (client_of uuid)
unfolding find
no_keys uuid peer key e = ground (arith, e)

decrypt-encrypt_example :
    (sealed : Bytes) × ((encrypt_tunnel_frame alice env (codes "b") (tunnel_bytes frame)).1
      ≡ some sealed)
    × ((decrypt_tunnel_frame bob env (codes "a") sealed).1 ≡ some (tunnel_bytes frame))
decrypt-encrypt_example =
    decrypt-encrypt alice bob env env frame secret_shared (no_keys (codes "a"))
      (no_keys (codes "b")) frame-IsWireTunnel (omega arith) refl (omega arith) (omega arith) refl

abbrev relay_addr : Sockaddr
relay_addr = record { addr = 16777343; port = 9100 }

at_relay : sockaddr_from relay_server ≡ some relay_addr
unfolding sockaddr_from inet_pton
at_relay = refl

room : is_full one_peer (codes "b") ≡ false
unfolding is_full find
room = refl

relay_register-admitted_example :
    let payload =
      proxy_reg_req_bytes
        (record { uuid = codes "b"; hmac = hmac_sha256 proxy_auth_key (codes "b") }) in
    let bytes = codec_write_head msg_proxy_register_req (length payload) ++ payload in
    let answer = proxy_reg_rsp_bytes (granted away) in
    (relay_register bob ≡ send_to none relay_addr bytes ∷ [])
    × (handle one_peer bytes away 20
        ≡ (enter one_peer (codes "b") away 20, send_msg away msg_proxy_register_rsp answer))
    × (find (codes "b") (handle one_peer bytes away 20).0.uuid2addr
        ≡ some (record { addr = away; last_reg = 20 }))
    × ((handle_proto bob env msg_proxy_register_rsp answer).0.relay_registered ≡ true)
relay_register-admitted_example =
    relay_register-admitted bob one_peer env relay_server [] relay_addr away 20 refl at_relay
      named_b room

abbrev to_alice : Conn
to_alice = record new_conn { peer_uuid = codes "a" }

a_found : find (codes "a") one_peer.uuid2addr ≡ some (record { addr = home; last_reg = 10 })
unfolding find bytes_eq
a_found = refl

send_relayed-on_relay_data_example :
    let payload = relay_frame_bytes (record { src_uuid = codes "b"; dst_uuid = codes "a" }) in
    let tx = tunnel_bytes frame in
    let bytes = codec_write_head msg_proxy_relay_data (66 + length tx) ++ payload ++ tx in
    let known = set_conn alice (codes "b") (named (conn_at alice (codes "b")) (codes "b")) in
    (send_relayed bob to_alice tx ≡ send_to none relay_addr bytes ∷ [])
    × ((handle one_peer bytes away 20).1
        ≡ record { to = home; msg_id = msg_proxy_relay_data; payload = payload ++ tx } ∷ [])
    × (handle_proto alice env msg_proxy_relay_data (payload ++ tx)
        ≡ (on_tunnel_frame known env tx (codes "b") ▷ λ t. relay_heard t (codes "b")))
    × ((conn_at
          (handle_proto alice env msg_proxy_relay_data (payload ++ tx)).0
          (codes "b")).relay.relay_ok
        ≡ true)
send_relayed-on_relay_data_example =
    send_relayed-on_relay_data bob alice one_peer to_alice env relay_server [] relay_addr away
      (record { addr = home; last_reg = 10 }) (tunnel_bytes frame) 20 refl at_relay named_b named_a
      refl a_found (omega (arith, length-tunnel_bytes frame))
      (omega (arith, length-tunnel_bytes frame))

-- A connection that was asked for at the time 0.
abbrev asked : Conn
asked = record to_alice {
  connecting = true;
  punch = record new_conn.punch { punch_deadline = 6000 };
}

abbrev waiting : P2pClient
waiting = record bob { conns = (codes "a", asked) ∷ [] }

unanswered_connect_example : tick_connections waiting env ≡ none
unanswered_connect_example =
    unanswered_connect waiting env asked [] refl refl refl refl refl (omega arith)

abbrev forced : P2pClient
forced = record waiting { cfg = record waiting.cfg { force_relay = true } }

tick_connections-Ends_example :
    (r : Outcome) × (tick_connections forced env ≡ some r)
    × ((peer : Bytes) → contains peer forced.conns ≡ true → contains peer r.0.conns ≡ true)
tick_connections-Ends_example = tick_connections-Ends forced env refl
