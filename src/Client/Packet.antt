-- ===== src/Client/Packet.antt =====
-- client/sdk/api/P2PClient.cpp: what a datagram does, `handle_packet` and `handle_proto`, and the
-- socket that it came by.
pub mod Relayed
use p2p_server.Prelude.{
  ℕ, ◌+◌, ◌-◌, ◌*◌, ◌/◌, ◌%◌, ◌==◌, ltb, leb, if◌then◌else◌, Bool, true, false, not, ◌&&◌, ◌||◌,
  List, [], ◌∷◌, ◌++◌, Option, none, some, Bytes, bytes_eq, length, is_empty, get_or, take, drop,
  codes,
}
use p2p_server.Prelude.Maps.{Map, find, contains, nat_key, bytes_key}
use p2p_server.ProtoDef.{
  msg_heartbeat_rsp, msg_heartbeat_rsp_enc, msg_auth_challenge_rsp, msg_auth_login_rsp,
  msg_nat_detect_rsp, msg_connect_ack, msg_connect_invite, msg_ice_sdp, msg_proxy_register_rsp,
  msg_proxy_relay_data, tunnel_magic, max_uuid_len,
}
use p2p_server.ProtoDef.Requests.{RelayFrame, size_of_relay_frame, read_relay_frame}
use p2p_server.Util.{Sockaddr}
use p2p_server.Codec.{codec_read_head}
use p2p_server.CfgFile.Text.{starts_with}
use p2p_server.NatServer.Sync.{decimal}
use p2p_server.NatDetect
use p2p_server.Client.{
  P2pClient, Conn, Env, Output, on_connected, on_error, Outcome, ◌▷◌, conn_at, set_conn,
}
use p2p_server.Client.Path.{addr_key, on_tunnel_frame}
use p2p_server.Client.Auth.{on_auth_challenge_rsp, on_auth_login_rsp}
use p2p_server.Client.Heartbeat.{on_heartbeat_rsp, on_heartbeat_rsp_enc}
use p2p_server.Client.Ice.{on_ice_sdp}
use p2p_server.Client.Connect.{on_connect_ack, on_connect_invite}

-- `backoff_attempt = 0` of every connection.
unfoldable pub reset_attempts : Map Bytes Conn → Map Bytes Conn
reset_attempts [] = []
reset_attempts ((peer, c) ∷ m) = (peer, record c { backoff_attempt = 0 }) ∷ reset_attempts m

unfoldable pub on_register_rsp : P2pClient → Bytes → Outcome
on_register_rsp s p =
    if ltb (length p) 1
    then (s, [])
    else if get_or p 0 0 == 0
    then (record s { relay_registered = true; conns = reset_attempts s.conns }, [])
    else (s, on_error (codes "relay register failed result=" ++ decimal (get_or p 0 0)) ∷ [])

-- A frame came by the relay.
unfoldable pub relay_heard : P2pClient → Bytes → Outcome
relay_heard s peer =
    let c = conn_at s peer in
    if c.relay.relay_ok then (s, []) else (
      set_conn s peer (record c { relay = record c.relay { relay_ok = true }; connected = true }),
      if c.connected then [] else on_connected peer true ∷ [],
    )

-- The connection of a peer that may be unknown so far.
abbrev pub named : Conn → Bytes → Conn
named c peer = if is_empty c.peer_uuid then record c { peer_uuid = peer } else c

unfoldable pub on_relay_data : P2pClient → Env → Bytes → Outcome
on_relay_data s env p =
    let frame = read_relay_frame p in
    let peer = frame.src_uuid in
    if ltb (length p) (size_of_relay_frame + 14)
      || not (bytes_eq frame.dst_uuid s.cfg.uuid)
      || is_empty peer
    then (s, [])
    else on_tunnel_frame (set_conn s peer (named (conn_at s peer) peer)) env
        (drop size_of_relay_frame p) peer
      ▷ λ t. relay_heard t peer

unfoldable pub handle_proto : P2pClient → Env → ℕ → Bytes → Outcome
handle_proto s env msg_id p =
    if msg_id == msg_heartbeat_rsp
    then on_heartbeat_rsp s p env.now
    else if msg_id == msg_heartbeat_rsp_enc
    then on_heartbeat_rsp_enc s p env.now
    else if msg_id == msg_auth_challenge_rsp
    then on_auth_challenge_rsp s p env.now
    else if msg_id == msg_auth_login_rsp
    then on_auth_login_rsp s p env.now
    else if msg_id == msg_nat_detect_rsp
    then (record s { nat_detect = NatDetect.feed s.nat_detect env.beyond p }, [])
    else if msg_id == msg_connect_ack
    then on_connect_ack s env p
    else if msg_id == msg_connect_invite
    then on_connect_invite s env p
    else if msg_id == msg_ice_sdp
    then on_ice_sdp s p
    else if msg_id == msg_proxy_register_rsp
    then on_register_rsp s p
    else if msg_id == msg_proxy_relay_data
    then on_relay_data s env p
    else (s, [])

-- A frame came by the direct path.
unfoldable pub direct_heard : P2pClient → Bytes → Outcome
direct_heard s peer =
    let c = conn_at s peer in
    if c.punch.direct_ok then (s, []) else (
      set_conn s peer (record c { punch = record c.punch { direct_ok = true }; connected = true }),
      if c.connected then [] else on_connected c.peer_uuid false ∷ [],
    )

unfoldable pub on_direct_frame : P2pClient → Env → Bytes → Sockaddr → Outcome
on_direct_frame s env input from = elim (find (addr_key from) s.addr_to_peer) [
  | none ↦ (s, [])
  | some peer ↦
      on_tunnel_frame (set_conn s peer (conn_at s peer)) env input peer ▷ λ t. direct_heard t peer
]

abbrev pub is_tunnel : Bytes → Bool
is_tunnel input =
    leb 2 (length input)
    && get_or input 0 0 == tunnel_magic / 256
    && get_or input 1 0 == tunnel_magic % 256

unfoldable pub handle_packet : P2pClient → Env → Bytes → Sockaddr → Outcome
handle_packet s env input from = elim (codec_read_head input) [
  | some h ↦
      handle_proto s env h.msg_id
        (if leb h.length (length input - 8) then take h.length (drop 8 input) else [])
  | none ↦ if is_tunnel input then on_direct_frame s env input from else (s, [])
]

-- A datagram that came by socket `i` of a connection's pool, in `worker_loop`.
unfoldable pub receive_punch : P2pClient → Env → Bytes → ℕ → Bytes → Sockaddr → Outcome
receive_punch s env peer i input from =
    let c = conn_at s peer in
    let known = contains (addr_key from) s.addr_to_peer in
    elim c.punch.direct_sock_idx [
      | some j ↦ handle_packet s env input from
      | none ↦
          handle_packet
            (if known
              then set_conn s peer
                  (record c { punch = record c.punch { direct_sock_idx = some i } })
              else s)
            env input from
    ]
