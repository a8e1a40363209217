-- ===== src/Client/Path.antt =====
-- client/sdk/api/P2PClient.cpp: what is sent on which path, the sessions, and the end of a
-- connection.
use p2p_server.Prelude.{
  ℕ, ◌+◌, ◌*◌, ◌/◌, ◌%◌, ◌^◌, ltb, leb, if◌then◌else◌, Bool, not, ◌&&◌, ◌||◌, List, [], ◌∷◌, ◌++◌,
  Option, none, some, Bytes, bytes_eq, length, is_empty, codes,
}
use p2p_server.Prelude.Maps.{find, put, erase, retain, nat_key, bytes_key}
use p2p_server.ProtoDef.{max_pkt, msg_proxy_relay_data, msg_connect_req, msg_proxy_register_req}
use p2p_server.ProtoDef.Requests.{size_of_relay_frame}
use p2p_server.ProtoDef.Client.{relay_frame_bytes, connect_req_bytes, proxy_reg_req_bytes}
use p2p_server.Util.{Sockaddr}
use p2p_server.Codec.{codec_write_head}
use p2p_server.Crypto.Hmac.{hmac_sha256}
use p2p_server.Session.{
  Session, new_session, Event, delivered, transmitted, frame_bytes, control, on_frame,
}
use p2p_server.Client.{
  P2pClient, ServerAddr, Conn, Env, Output, send_to, on_message, on_disconnected, juice_send,
  juice_destroy, Outcome, ◌▷◌, sockaddr_from,
}
use p2p_server.Client.Tunnel.{encrypt_tunnel_frame, decrypt_tunnel_frame}

-- `addr_key`: the address in host order and the port.
unfoldable pub addr_key : Sockaddr → ℕ
addr_key a =
    (a.addr % 256 * 2 ^ 24
        + a.addr / 2 ^ 8 % 256 * 2 ^ 16
        + a.addr / 2 ^ 16 % 256 * 2 ^ 8
        + a.addr / 2 ^ 24 % 256)
      * 2 ^ 16
    + a.port

-- `send_proto` to an address.
unfoldable pub send_proto : ℕ → Bytes → Sockaddr → List Output
send_proto msg_id payload to =
    if ltb max_pkt (length payload + 8)
    then []
    else send_to none to (codec_write_head msg_id (length payload) ++ payload) ∷ []

-- What is sent to the first proxy, nothing if its text is no address.
unfoldable pub to_proxy : List ServerAddr → (Sockaddr → List Output) → List Output
to_proxy [] send = []
to_proxy (a ∷ rest) send = elim (sockaddr_from a) [ none ↦ [] | some to ↦ send to ]

unfoldable pub send_connect_req : P2pClient → Bytes → List Output
send_connect_req s peer =
    send_proto msg_connect_req
      (connect_req_bytes (record { src_uuid = s.cfg.uuid; dst_uuid = peer })) s.nat_sock

-- The client's own copy of the key.
abbrev pub client_proxy_auth_key : Bytes
client_proxy_auth_key = codes "p2p-proxy-auth-2024"

unfoldable pub relay_register : P2pClient → List Output
relay_register s = to_proxy s.proxies (
    send_proto msg_proxy_register_req (
      proxy_reg_req_bytes
        (record { uuid = s.cfg.uuid; hmac = hmac_sha256 client_proxy_auth_key s.cfg.uuid })))

-- `relay_ready` of `send_tunnel_via`.
unfoldable pub relay_ready : P2pClient → Conn → ℕ → Bool
relay_ready s c now =
    c.relay.relay_ok
    || (s.relay_registered
        && not (is_empty s.proxies)
        && (s.cfg.force_relay || leb c.punch.punch_deadline now))

-- The socket of the pool that heard the peer, else the main one.
unfoldable pub direct_socket : Conn → Option ℕ
direct_socket c = elim c.punch.direct_sock_idx [
  | none ↦ none
  | some i ↦ if ltb i c.punch.punch_socks then some i else none
]

unfoldable pub send_direct : Conn → Option ℕ → Bytes → List Output
send_direct c socket tx =
    send_to socket c.punch.direct tx
    ∷ (if c.punch.have_lan then send_to socket c.punch.direct_lan tx ∷ [] else [])

unfoldable pub send_relayed : P2pClient → Conn → Bytes → List Output
send_relayed s c tx =
    if ltb max_pkt (8 + size_of_relay_frame + length tx)
    then []
    else to_proxy s.proxies λ to.
      send_to none to (
        codec_write_head msg_proxy_relay_data (size_of_relay_frame + length tx)
        ++ relay_frame_bytes (record { src_uuid = s.cfg.uuid; dst_uuid = c.peer_uuid })
        ++ tx)
      ∷ []

-- The path that a frame takes.
unfoldable pub route : P2pClient → Env → Conn → Bytes → List Output
route s env c tx =
    let ready = relay_ready s c env.now in
    if c.punch.juice && c.punch.direct_ok
    then juice_send c.peer_uuid tx ∷ []
    else if c.punch.direct_ok && c.punch.have_direct || (not ready && c.punch.have_direct)
    then send_direct c (direct_socket c) tx
    else if ready && s.relay_registered && not (is_empty s.proxies)
    then send_relayed s c tx
    else []

abbrev pub or_plain : Bytes → Option Bytes → Bytes
or_plain frame none = frame
or_plain frame (some out) = out

unfoldable pub send_tunnel_via : P2pClient → Env → Conn → Bytes → Outcome
send_tunnel_via s env c frame =
    let (s', sealed) = encrypt_tunnel_frame s env c.peer_uuid frame in
    if s.tunnel_enc then (s', route s' env c (or_plain frame sealed)) else (s, route s env c frame)

-- The session of a peer, a new one with the next id if there is none.
unfoldable pub session_for : P2pClient → Bytes → P2pClient × Session
session_for s peer = elim (find peer s.sessions) [
  | some session ↦ (s, session)
  | none ↦ (
    record s {
      next_session_id = (s.next_session_id + 1) % 2 ^ 16;
      sessions = s.sessions ++ (peer, new_session s.next_session_id) ∷ [];
    },
    new_session s.next_session_id,
  )
]

-- The callback `on_tx` of a session.
unfoldable pub on_tx : P2pClient → Env → Bytes → Bytes → Outcome
on_tx s env peer frame = elim (find peer s.conns) [
  | none ↦ (s, [])
  | some c ↦ send_tunnel_via s env c frame
]

-- What the callbacks of a session do, event by event.
unfoldable pub run_events : P2pClient → Env → Bytes → List Event → Outcome
run_events s env peer [] = (s, [])
run_events s env peer (delivered channel payload ∷ events) =
    (s, on_message peer channel payload ∷ []) ▷ λ t. run_events t env peer events
run_events s env peer (transmitted frame ∷ events) =
    on_tx s env peer frame ▷ λ t. run_events t env peer events

-- A session's step is stored and its callbacks run.
abbrev pub after_session : P2pClient → Env → Bytes → Session → List Event → Outcome
after_session s env peer session events =
    run_events (record s { sessions = put peer session s.sessions }) env peer events

unfoldable pub on_tunnel_frame : P2pClient → Env → Bytes → Bytes → Outcome
on_tunnel_frame s env frame peer =
    let (opened, plain) = decrypt_tunnel_frame s env peer frame in
    let (s', session) = session_for (if s.tunnel_enc then opened else s) peer in
    let (session', events) =
      on_frame session (if s.tunnel_enc then or_plain frame plain else frame) in
    after_session s' env peer session' events

-- A frame of 14 bytes on the session of a peer, sent on the path of a connection.
unfoldable pub send_control : P2pClient → Env → Bytes → Conn → ℕ → Outcome
send_control s env peer c type =
    let (s', session) = session_for s peer in
    send_tunnel_via s' env c (frame_bytes (control session type 0))

-- The connection, its session, its addresses and its agent are given up. The text that the callback
-- is given lies in the connection erased before; it is taken to be still there.
unfoldable pub close_conn : P2pClient → Conn → Outcome
close_conn s c = (
  record s {
    addr_to_peer = retain (λ k peer. not (bytes_eq peer c.peer_uuid)) s.addr_to_peer;
    sessions = erase c.peer_uuid s.sessions;
    conns = erase c.peer_uuid s.conns;
  },
  (if c.punch.juice then juice_destroy c.peer_uuid ∷ [] else [])
      ++ on_disconnected c.peer_uuid ∷ [],
)
