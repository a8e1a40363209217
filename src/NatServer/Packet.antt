-- ===== src/NatServer/Packet.antt =====
-- server/natserver/src/RecvProcess.cpp: `handle_packet`. What the code reads besides the datagram
-- (the time, random bytes, the draws of a proxy, the memory behind a struct) is a record.
pub mod Peers
pub mod Admin
pub mod Registry
pub mod Connect
use p2p_server.Prelude.{
  ℕ, ◌==◌, ltb, if◌then◌else◌, Bool, not, ◌||◌, List, [], Option, none, some, Bytes, length, take,
  drop,
}
use p2p_server.ProtoDef.{
  msg_heartbeat_req, msg_add_uid_req, msg_heartbeat_req_enc, msg_snd_extinfo_req,
  msg_ask_extinfo_req, msg_connect_req, msg_ice_sdp, msg_get_dev_list_req, msg_get_server_list_req,
  msg_delete_uid_req, msg_check_uid_req, msg_auth_challenge_req, msg_auth_login_req,
  msg_admin_stats_req, msg_admin_blacklist_req, msg_sync_peer_entry, msg_sync_peer_del,
  msg_sync_snapshot_req, msg_sp_ask_extinfo_rsp,
}
use p2p_server.Util.{Sockaddr}
use p2p_server.Net.{open_packet}
use p2p_server.NatServer.{NatServer, Outcome}
use p2p_server.NatServer.Packet.Peers.{
  Env, on_heartbeat, on_heartbeat_enc, on_snd_extinfo, on_ask_extinfo, on_ice_sdp, on_dev_list,
  on_server_list, on_delete_uid, on_check_uid, on_proxy_avail,
}
use p2p_server.NatServer.Packet.Connect.{on_connect}
use p2p_server.NatServer.Packet.Admin.{
  on_auth_challenge, on_auth_login, on_admin_stats, on_admin_blacklist,
}
use p2p_server.NatServer.Packet.Registry.{on_sync_entry, on_sync_del, on_sync_snapshot_req}

-- The switch.
unfoldable pub dispatch : NatServer → Env → ℕ → Bytes → Sockaddr → Outcome
dispatch s env msg_id p from =
    if msg_id == msg_heartbeat_req || msg_id == msg_add_uid_req
    then on_heartbeat s env p from
    else if msg_id == msg_heartbeat_req_enc
    then on_heartbeat_enc s env p from
    else if msg_id == msg_snd_extinfo_req
    then on_snd_extinfo s env p from
    else if msg_id == msg_ask_extinfo_req
    then on_ask_extinfo s p from
    else if msg_id == msg_connect_req
    then on_connect s env p from
    else if msg_id == msg_ice_sdp
    then on_ice_sdp s p
    else if msg_id == msg_get_dev_list_req
    then on_dev_list s p from
    else if msg_id == msg_get_server_list_req
    then on_server_list s from
    else if msg_id == msg_delete_uid_req
    then on_delete_uid s p
    else if msg_id == msg_check_uid_req
    then on_check_uid s p from
    else if msg_id == msg_auth_challenge_req
    then on_auth_challenge s env p from
    else if msg_id == msg_auth_login_req
    then on_auth_login s env p from
    else if msg_id == msg_admin_stats_req
    then on_admin_stats s env from
    else if msg_id == msg_admin_blacklist_req
    then on_admin_blacklist s env p from
    else if msg_id == msg_sync_peer_entry
    then on_sync_entry s env p from
    else if msg_id == msg_sync_peer_del
    then on_sync_del s p from
    else if msg_id == msg_sync_snapshot_req
    then on_sync_snapshot_req s env p from
    else if msg_id == msg_sp_ask_extinfo_rsp
    then on_proxy_avail s env p from
    else (s, [])

unfoldable pub handle_packet : NatServer → Env → Bytes → Sockaddr → Outcome
handle_packet s env input from = elim (open_packet input) [
  | none ↦ (s, [])
  | some (msg_id, p) ↦ dispatch s env msg_id p from
]
