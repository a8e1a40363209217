-- ===== src/Client/Ice.antt =====
-- client/sdk/api/P2PClient.cpp: the ICE agent of a connection, its callbacks, and the exchange of
-- descriptions. A callback names the peer of the connection that its `user_ptr` points to.
use p2p_server.Prelude.{
  ◌+◌, ltb, if◌then◌else◌, Bool, true, false, not, ◌&&◌, ◌||◌, List, [], ◌∷◌, ◌++◌, Option, none,
  some, Bytes, bytes_eq, length, is_empty, take,
}
use p2p_server.Prelude.Maps.{Map, find, bytes_key}
use p2p_server.Prelude.Wire.{read_be16, slice}
use p2p_server.ProtoDef.{msg_ice_sdp}
use p2p_server.ProtoDef.Requests.{read_uuid}
use p2p_server.ProtoDef.Client.{ice_sdp_bytes, size_of_ice_sdp}
use p2p_server.Client.{
  P2pClient, Conn, Env, Output, on_connected, juice_gather, juice_remote, Outcome, set_conn,
}
use p2p_server.Client.Path.{send_proto, on_tunnel_frame}

abbrev pub or_kept : Bytes → Option Bytes → Bytes
or_kept old none = old
or_kept old (some sdp) = sdp

-- The connection with an agent, unless it has one or a relay is forced.
unfoldable pub ensure_ice_agent : Bool → Env → Conn → Conn × List Output
ensure_ice_agent force_relay env c =
    if c.punch.juice || force_relay
    then (c, [])
    else if env.agent
    then (
      record c {
        punch = record c.punch {
          juice = true;
          local_sdp = or_kept c.punch.local_sdp env.description;
        };
      },
      juice_gather c.peer_uuid ∷ [],
    )
    else (c, [])

unfoldable pub apply_remote_ice_sdp : Conn → Bytes → Conn × List Output
apply_remote_ice_sdp c sdp = if not c.punch.juice || is_empty sdp then (c, []) else (
  record c { punch = record c.punch { remote_sdp = sdp } },
  juice_remote c.peer_uuid sdp ∷ [],
)

unfoldable pub send_ice_sdp : P2pClient → Bytes → Bytes → List Output
send_ice_sdp s peer sdp =
    if is_empty peer || is_empty sdp
    then []
    else send_proto msg_ice_sdp (ice_sdp_bytes peer (take 4096 sdp)) s.nat_sock

-- The first connection that waits for a description.
unfoldable pub first_waiting : Map Bytes Conn → Option Bytes
first_waiting [] = none
first_waiting ((peer, c) ∷ m) =
    if c.connecting && c.punch.juice && is_empty c.punch.remote_sdp
    then some peer
    else first_waiting m

-- The connection that a description is for.
unfoldable pub sdp_target : P2pClient → Bytes → Option Bytes
sdp_target s dst = if bytes_eq dst s.cfg.uuid then first_waiting s.conns else some dst

abbrev pub put_aside : P2pClient → Bytes → P2pClient
put_aside s sdp = record s { pending_remote_sdp = sdp }

unfoldable pub give_sdp : P2pClient → Bytes → Bytes → Outcome
give_sdp s peer sdp = elim (find peer s.conns) [
  | none ↦ (s, [])
  | some c ↦
      let (c', out) = apply_remote_ice_sdp c sdp in
      if c.punch.juice then (set_conn s peer c', out) else (put_aside s sdp, [])
]

unfoldable pub on_ice_sdp : P2pClient → Bytes → Outcome
on_ice_sdp s p =
    let slen = read_be16 p 33 in
    let sdp = slice p size_of_ice_sdp slen in
    if ltb (length p) size_of_ice_sdp || ltb (length p) (size_of_ice_sdp + slen)
    then (s, [])
    else elim (sdp_target s (read_uuid p 0)) [
      | none ↦ (put_aside s sdp, [])
      | some peer ↦ give_sdp s peer sdp
    ]

-- A callback acts on a connection that still belongs to the client.
unfoldable pub with_owned : P2pClient → Bytes → (Conn → Outcome) → Outcome
with_owned s peer act = elim (find peer s.conns) [
  | none ↦ (s, [])
  | some c ↦ if c.owned then act c else (s, [])
]

-- `on_juice_state`: `up` is whether the state is CONNECTED or COMPLETED.
unfoldable pub on_juice_state : P2pClient → Bytes → Bool → Outcome
on_juice_state s peer up =
    if not up
    then (s, [])
    else with_owned s peer λ c. (
      set_conn s peer (record c { punch = record c.punch { direct_ok = true }; connected = true }),
      if c.connected then [] else on_connected c.peer_uuid false ∷ [],
    )

unfoldable pub on_juice_candidate : P2pClient → Bytes → Bytes → Outcome
on_juice_candidate s peer sdp = with_owned s peer λ c. (
  set_conn s peer (record c {
    punch = record c.punch {
      local_sdp = c.punch.local_sdp ++ (if is_empty c.punch.local_sdp then [] else 10 ∷ []) ++ sdp;
    };
  }),
  [],
)

unfoldable pub on_juice_gathering_done : P2pClient → Env → Bytes → Outcome
on_juice_gathering_done s env peer = with_owned s peer λ c.
    let sdp = or_kept c.punch.local_sdp env.description in
    (
      set_conn s peer (record c { punch = record c.punch { local_sdp = sdp } }),
      send_ice_sdp s c.peer_uuid sdp,
    )

unfoldable pub on_juice_recv : P2pClient → Env → Bytes → Bytes → Outcome
on_juice_recv s env peer input =
    if is_empty input
    then (s, [])
    else with_owned s peer λ c. on_tunnel_frame s env input c.peer_uuid
