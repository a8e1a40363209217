-- ===== src/NatServer/Packet/Registry.antt =====
-- server/natserver/src/RecvProcess.cpp: the messages between servers.
use p2p_server.Prelude.{
  ℕ, ◌+◌, ◌-◌, ◌%◌, ◌^◌, ltb, leb, if◌then◌else◌, Bool, not, ◌||◌, [], Bytes, length, take,
}
use p2p_server.Prelude.Wire.{read_be16, read_be32, slice}
use p2p_server.ProtoDef.{max_extinfo}
use p2p_server.ProtoDef.Requests.{
  size_of_sync_peer_entry, size_of_ext_info_req, size_of_sync_snapshot_req, read_uuid,
}
use p2p_server.Util.{Sockaddr}
use p2p_server.NatServer.{NatServer, Outcome}
use p2p_server.NatServer.Sync.{
  sync_verify, handle_sync_entry, handle_sync_del, handle_sync_snapshot_req,
}
use p2p_server.NatServer.Packet.Peers.{Env}

unfoldable pub on_sync_entry : NatServer → Env → Bytes → Sockaddr → Outcome
on_sync_entry s env p from =
    let extlen = read_be16 p 77 in
    let body = size_of_sync_peer_entry + extlen in
    if ltb (length p) size_of_sync_peer_entry
      || ltb max_extinfo extlen
      || ltb (length p) body
      || not (sync_verify s p body)
    then (s, [])
    else handle_sync_entry s (take size_of_sync_peer_entry p)
        (slice p size_of_sync_peer_entry extlen) env.beyond from env.now

-- `SyncPeerDel` is one uuid.
unfoldable pub on_sync_del : NatServer → Bytes → Sockaddr → Outcome
on_sync_del s p from =
    if ltb (length p) size_of_ext_info_req || not (sync_verify s p size_of_ext_info_req)
    then (s, [])
    else handle_sync_del s (read_uuid p 0) from

-- The difference of the clocks as 32 bits is within 300 seconds either way.
unfoldable pub is_fresh_stamp : ℕ → ℕ → Bool
is_fresh_stamp now ts =
    let skew = (now % 2 ^ 32 + 2 ^ 32 - ts) % 2 ^ 32 in leb skew 300 || leb (2 ^ 32 - 300) skew

unfoldable pub on_sync_snapshot_req : NatServer → Env → Bytes → Sockaddr → Outcome
on_sync_snapshot_req s env p from =
    if ltb (length p) size_of_sync_snapshot_req
      || not (sync_verify s p size_of_sync_snapshot_req)
      || not (is_fresh_stamp env.now (read_be32 p 0))
    then (s, [])
    else (s, handle_sync_snapshot_req s from)
