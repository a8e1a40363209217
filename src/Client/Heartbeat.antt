-- ===== src/Client/Heartbeat.antt =====
-- client/sdk/api/P2PClient.cpp: heartbeats and the answers to them.
pub mod Refused
pub mod Sealed
use p2p_server.Prelude.{
  ℕ, ◌+◌, ◌-◌, ◌%◌, ◌^◌, ◌==◌, ltb, leb, if◌then◌else◌, Bool, true, false, none, not, ◌&&◌, ◌||◌,
  List, [], ◌∷◌, ◌++◌, Bytes, length, is_empty, get_or, map, drop, codes,
}
use p2p_server.Prelude.Wire.{padded, read_be16, slice}
use p2p_server.ProtoDef.{msg_heartbeat_req, msg_heartbeat_req_enc, nat_unknown, max_ip_len}
use p2p_server.ProtoDef.Requests.{UuidReq}
use p2p_server.ProtoDef.Client.{uuid_req_bytes, size_of_ext_info_rsp}
use p2p_server.Crypto.Hmac.{p2p_stream_xor}
use p2p_server.Util.{inet_pton}
use p2p_server.Net.{Datagram, datagram_bytes}
use p2p_server.NatDetect
use p2p_server.NatDetect.{NatDetect, Phase}
use p2p_server.Client.{P2pClient, Env, Output, send_to, on_ready, on_error, Outcome, ◌▷◌}
use p2p_server.Client.Backoff.{next_delay, reset}
use p2p_server.Client.Path.{send_proto}
use p2p_server.Client.Auth.{do_auth_challenge, may_ask}

abbrev pub heartbeat_req : P2pClient → UuidReq
heartbeat_req s = record {
  uuid = s.cfg.uuid;
  dev_type = 2;
  nattype = s.nat_type;
  lan_port = s.local_port;
  session_pts = 1;
  extlen = 0;
}

-- uuid, iv and the encrypted request.
unfoldable pub sealed_heartbeat : P2pClient → Env → Bytes
sealed_heartbeat s env =
    let uuid = padded 33 s.cfg.uuid in
    uuid ++ env.iv ++ p2p_stream_xor s.secret uuid env.iv (uuid_req_bytes (heartbeat_req s))

unfoldable pub do_heartbeat : P2pClient → Env → List Output
do_heartbeat s env =
    if s.heartbeat_enc
    then send_proto msg_heartbeat_req_enc (sealed_heartbeat s env) s.nat_sock
    else send_proto msg_heartbeat_req (uuid_req_bytes (heartbeat_req s)) s.nat_sock

-- The datagrams of the detection, by the main socket.
abbrev pub by_sock : List Datagram → List Output
by_sock ds = map (λ (d : Datagram). send_to none d.to (datagram_bytes d)) ds

abbrev pub is_done : NatDetect → Bool
is_done d = elim d.phase [ Phase.done ↦ true | _ ↦ false ]

unfoldable pub start_detect : P2pClient → ℕ → Outcome
start_detect s now =
    let (d, out) = NatDetect.start s.nat_detect (inet_pton s.nat_server.ip) s.nat_server.port now in
    if is_done s.nat_detect then (s, []) else (record s { nat_detect = d }, by_sock out)

unfoldable pub fire_ready : P2pClient → Outcome
fire_ready s =
    if s.ready_fired
    then (s, [])
    else (record s { ready_fired = true }, on_ready s.pub_ip s.pub_port s.nat_type ∷ [])

-- An answer with the result 0 and its whole length.
unfoldable pub registered : P2pClient → Bytes → ℕ → Outcome
registered old p now =
    let s = record old {
      heartbeat_fail = 0;
      heartbeat_backoff = reset old.heartbeat_backoff;
      pub_ip = slice p 1 max_ip_len;
      pub_port = read_be16 p 17;
      alt_port = read_be16 p 37;
    } in
    if not s.authed && not (is_empty s.secret) && may_ask s
    then do_auth_challenge s
    else start_detect s now ▷ fire_ready

unfoldable pub on_heartbeat_rsp : P2pClient → Bytes → ℕ → Outcome
on_heartbeat_rsp s p now =
    if ltb (length p) 2
    then (s, [])
    else if get_or p 0 0 == 1
    then (if is_empty s.secret
        then (s, on_error (codes "server requires auth but no secret configured") ∷ [])
        else if may_ask s
        then do_auth_challenge s
        else (s, []))
    else if get_or p 0 0 == 2
    then (s, on_error (codes "server rejected this uuid") ∷ [])
    else if ltb (length p) size_of_ext_info_rsp
    then (s, [])
    else registered s p now

unfoldable pub on_heartbeat_rsp_enc : P2pClient → Bytes → ℕ → Outcome
on_heartbeat_rsp_enc s p now =
    if ltb (length p) 43 || ltb size_of_ext_info_rsp (length p - 41)
    then (s, [])
    else on_heartbeat_rsp s (p2p_stream_xor s.secret (slice p 0 33) (slice p 33 8) (drop 41 p)) now

unfoldable pub tick_heartbeat : P2pClient → Env → Outcome
tick_heartbeat s env =
    let (backoff, wait) = next_delay s.heartbeat_backoff in
    if leb s.next_heartbeat_ms env.now
    then (
      if ltb 0 s.heartbeat_fail
          then record s { heartbeat_backoff = backoff; next_heartbeat_ms = env.now + wait }
          else record s {
            heartbeat_backoff = reset s.heartbeat_backoff;
            next_heartbeat_ms = env.now + s.cfg.heartbeat_ms;
          },
      do_heartbeat s env,
    )
    else (s, [])

unfoldable pub tick_nat_detect : P2pClient → ℕ → Outcome
tick_nat_detect old now =
    let known = is_done old.nat_detect && old.nat_type == nat_unknown in
    let s = record old { nat_type = if known then old.nat_detect.nattype else old.nat_type } in
    let (d, out) =
      NatDetect.tick s.nat_detect (inet_pton s.nat_server.ip) s.nat_server.port s.alt_port now in
    if is_done s.nat_detect then (s, []) else (record s { nat_detect = d }, by_sock out)
