-- ===== src/Client/Auth.antt =====
-- client/sdk/api/P2PClient.cpp: logging in.
pub mod Login
pub mod Denied
use p2p_server.Prelude.{
  ℕ, ◌+◌, ◌%◌, ◌^◌, ◌==◌, ltb, leb, if◌then◌else◌, Bool, true, false, not, ◌&&◌, ◌||◌, List, [],
  ◌∷◌, ◌++◌, Bytes, length, is_empty, get_or, codes,
}
use p2p_server.Prelude.Maps.{Map}
use p2p_server.Prelude.Wire.{padded, slice}
use p2p_server.ProtoDef.{
  msg_auth_challenge_req, msg_auth_login_req, auth_ok, auth_bad_nonce, auth_bad_mac, auth_blacklist,
  auth_whitelist_rej,
}
use p2p_server.ProtoDef.Replies.{uuid_field}
use p2p_server.ProtoDef.Client.{auth_login_req_bytes}
use p2p_server.Crypto.Hmac.{hmac_sha256}
use p2p_server.Client.{P2pClient, Conn, Output, on_error, Outcome}
use p2p_server.Client.Backoff.{next_delay, reset}
use p2p_server.Client.Path.{send_proto, send_connect_req}

unfoldable pub do_auth_challenge : P2pClient → Outcome
do_auth_challenge s = (
  record s { auth_inflight = true },
  send_proto msg_auth_challenge_req (uuid_field s.cfg.uuid) s.nat_sock,
)

-- The next attempt is put off by the delay of the back-off.
unfoldable pub put_off : P2pClient → ℕ → P2pClient
put_off s now =
    let (backoff, wait) = next_delay s.auth_backoff in
    record s { auth_backoff = backoff; next_auth_try = now + wait }

-- No further attempt.
abbrev pub give_up : P2pClient → ℕ → P2pClient
give_up s now = record s { auth_denied = true; next_auth_try = now + 3600000 }

unfoldable pub do_auth_login : P2pClient → List Output
do_auth_login s =
    send_proto msg_auth_login_req
      (auth_login_req_bytes (record {
        uuid = s.cfg.uuid;
        nonce = s.auth_nonce;
        mac = hmac_sha256 s.secret (padded 33 s.cfg.uuid ++ s.auth_nonce);
      }))
      s.nat_sock

-- A challenge that is refused.
unfoldable pub challenge_refused : P2pClient → ℕ → ℕ → Outcome
challenge_refused s result now =
    if result == 1
    then (give_up s now, on_error (codes "uuid blacklisted") ∷ [])
    else if result == 2
    then (give_up s now, on_error (codes "uuid not in whitelist") ∷ [])
    else (put_off s now, [])

unfoldable pub on_auth_challenge_rsp : P2pClient → Bytes → ℕ → Outcome
on_auth_challenge_rsp s p now =
    if ltb (length p) 19
    then (put_off (record s { auth_inflight = false }) now, [])
    else if not (get_or p 0 0 == 0)
    then challenge_refused (record s { auth_inflight = false }) (get_or p 0 0) now
    else let s' = record s { auth_nonce = slice p 1 16 } in (s', do_auth_login s')

-- Whether a connection still waits for the answer to its request.
abbrev pub is_waiting : Conn → Bool
is_waiting c = c.connecting && not c.punch.have_direct && not c.relay.relay_ok

-- The requests of the connections that wait are sent again.
unfoldable pub ask_again : P2pClient → Map Bytes Conn → Map Bytes Conn × List Output
ask_again s [] = ([], [])
ask_again s ((peer, c) ∷ m) =
    let (rest, out) = ask_again s m in
    if is_waiting c
    then (
      (peer, record c { backoff_attempt = (c.backoff_attempt + 1) % 2 ^ 32 }) ∷ rest,
      send_connect_req s c.peer_uuid ++ out,
    )
    else ((peer, c) ∷ rest, out)

unfoldable pub logged_in : P2pClient → ℕ → Outcome
logged_in s now =
    let (conns, out) = ask_again s s.conns in
    (
      record s {
        authed = true;
        auth_backoff = reset s.auth_backoff;
        heartbeat_enc = true;
        next_heartbeat_ms = now + 100;
        conns = conns;
      },
      out,
    )

unfoldable pub login_error : ℕ → Bytes
login_error result =
    if result == auth_whitelist_rej
    then codes "uuid rejected by whitelist"
    else if result == auth_blacklist
    then codes "uuid blacklisted"
    else if result == auth_bad_mac
    then codes "auth login failed (bad secret?)"
    else codes "auth login failed"

unfoldable pub on_auth_login_rsp : P2pClient → Bytes → ℕ → Outcome
on_auth_login_rsp old p now =
    let s = record old { auth_inflight = false } in
    let result = get_or p 0 0 in
    if ltb (length p) 1 then (s, []) else if result == auth_ok then logged_in s now else (
      if result == auth_bad_nonce then put_off s now else give_up s now,
      on_error (login_error result) ∷ [],
    )

-- Whether a challenge may be asked for now.
abbrev pub may_ask : P2pClient → Bool
may_ask s = not s.auth_inflight && not s.auth_denied

unfoldable pub tick_auth : P2pClient → ℕ → Outcome
tick_auth s now =
    if not s.authed && not (is_empty s.secret) && may_ask s && leb s.next_auth_try now
    then do_auth_challenge s
    else (s, [])
