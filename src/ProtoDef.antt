-- ===== src/ProtoDef.antt =====
-- common/ProtoDef.h: the constants of the protocol. A message id is the byte on the wire.
pub mod Requests
pub mod Replies
pub mod Client
pub mod Fields
pub mod Terminated
pub mod Answers
use p2p_server.Prelude.{ℕ, Bytes, codes}

abbrev pub nat_magic : ℕ
nat_magic = 0x584e

abbrev pub proto_ver : ℕ
proto_ver = 0x02

abbrev pub max_uuid_len : ℕ
max_uuid_len = 32

abbrev pub max_ip_len : ℕ
max_ip_len = 16

abbrev pub max_pkt : ℕ
max_pkt = 2048

abbrev pub max_extinfo : ℕ
max_extinfo = 1024

abbrev pub msg_heartbeat_req : ℕ
msg_heartbeat_req = 0x01

abbrev pub msg_heartbeat_rsp : ℕ
msg_heartbeat_rsp = 0x02

abbrev pub msg_snd_extinfo_req : ℕ
msg_snd_extinfo_req = 0x03

abbrev pub msg_ask_extinfo_req : ℕ
msg_ask_extinfo_req = 0x04

abbrev pub msg_ask_extinfo_rsp : ℕ
msg_ask_extinfo_rsp = 0x05

abbrev pub msg_connect_req : ℕ
msg_connect_req = 0x06

abbrev pub msg_connect_ack : ℕ
msg_connect_ack = 0x07

abbrev pub msg_connect_invite : ℕ
msg_connect_invite = 0x08

abbrev pub msg_get_dev_list_req : ℕ
msg_get_dev_list_req = 0x09

abbrev pub msg_get_dev_list_rsp : ℕ
msg_get_dev_list_rsp = 0x0a

abbrev pub msg_get_server_list_req : ℕ
msg_get_server_list_req = 0x0b

abbrev pub msg_get_server_list_rsp : ℕ
msg_get_server_list_rsp = 0x0c

abbrev pub msg_add_uid_req : ℕ
msg_add_uid_req = 0x0d

abbrev pub msg_delete_uid_req : ℕ
msg_delete_uid_req = 0x0e

abbrev pub msg_check_uid_req : ℕ
msg_check_uid_req = 0x0f

abbrev pub msg_sp_ask_extinfo_req : ℕ
msg_sp_ask_extinfo_req = 0x10

abbrev pub msg_sp_ask_extinfo_rsp : ℕ
msg_sp_ask_extinfo_rsp = 0x11

abbrev pub msg_check_uid_rsp : ℕ
msg_check_uid_rsp = 0x12

abbrev pub msg_nat_detect_req : ℕ
msg_nat_detect_req = 0x13

abbrev pub msg_nat_detect_rsp : ℕ
msg_nat_detect_rsp = 0x14

abbrev pub msg_auth_challenge_req : ℕ
msg_auth_challenge_req = 0x15

abbrev pub msg_auth_challenge_rsp : ℕ
msg_auth_challenge_rsp = 0x16

abbrev pub msg_auth_login_req : ℕ
msg_auth_login_req = 0x17

abbrev pub msg_auth_login_rsp : ℕ
msg_auth_login_rsp = 0x18

abbrev pub msg_admin_stats_req : ℕ
msg_admin_stats_req = 0x19

abbrev pub msg_admin_stats_rsp : ℕ
msg_admin_stats_rsp = 0x1a

abbrev pub msg_admin_blacklist_req : ℕ
msg_admin_blacklist_req = 0x1d

abbrev pub msg_admin_blacklist_rsp : ℕ
msg_admin_blacklist_rsp = 0x1e

abbrev pub msg_ice_sdp : ℕ
msg_ice_sdp = 0x1f

abbrev pub msg_heartbeat_req_enc : ℕ
msg_heartbeat_req_enc = 0x1b

abbrev pub msg_heartbeat_rsp_enc : ℕ
msg_heartbeat_rsp_enc = 0x1c

abbrev pub msg_sync_peer_entry : ℕ
msg_sync_peer_entry = 0x30

abbrev pub msg_sync_peer_del : ℕ
msg_sync_peer_del = 0x31

abbrev pub msg_sync_snapshot_req : ℕ
msg_sync_snapshot_req = 0x32

abbrev pub msg_proxy_register_req : ℕ
msg_proxy_register_req = 0x20

abbrev pub msg_proxy_register_rsp : ℕ
msg_proxy_register_rsp = 0x21

abbrev pub msg_proxy_unregister_req : ℕ
msg_proxy_unregister_req = 0x22

abbrev pub msg_proxy_relay_data : ℕ
msg_proxy_relay_data = 0x23

abbrev pub msg_proxy_punch_helper : ℕ
msg_proxy_punch_helper = 0x24

abbrev pub nat_unknown : ℕ
nat_unknown = 0

abbrev pub nat_full_cone : ℕ
nat_full_cone = 1

abbrev pub nat_port_restricted : ℕ
nat_port_restricted = 2

abbrev pub nat_symmetric : ℕ
nat_symmetric = 3

abbrev pub tunnel_magic : ℕ
tunnel_magic = 0x5054

abbrev pub tunnel_ver : ℕ
tunnel_ver = 0x01

abbrev pub max_tunnel_payload : ℕ
max_tunnel_payload = 1200

abbrev pub tt_data : ℕ
tt_data = 0

abbrev pub tt_ack : ℕ
tt_ack = 1

abbrev pub tt_ping : ℕ
tt_ping = 2

abbrev pub tt_pong : ℕ
tt_pong = 3

abbrev pub tt_close : ℕ
tt_close = 4

abbrev pub tf_reliable : ℕ
tf_reliable = 0x01

abbrev pub tf_enc : ℕ
tf_enc = 0x02

abbrev pub sync_hop_max : ℕ
sync_hop_max = 3

abbrev pub sync_hop_snap : ℕ
sync_hop_snap = 0xff

abbrev pub sync_snapshot_interval : ℕ
sync_snapshot_interval = 30

abbrev pub connect_ok : ℕ
connect_ok = 0

abbrev pub connect_offline : ℕ
connect_offline = 1

abbrev pub connect_not_found : ℕ
connect_not_found = 2

abbrev pub auth_ok : ℕ
auth_ok = 0

abbrev pub auth_bad_nonce : ℕ
auth_bad_nonce = 1

abbrev pub auth_bad_mac : ℕ
auth_bad_mac = 2

abbrev pub auth_blacklist : ℕ
auth_blacklist = 3

abbrev pub auth_whitelist_rej : ℕ
auth_whitelist_rej = 4

abbrev pub tunnel_key_prefix : Bytes
tunnel_key_prefix = codes "P2P-TUNNEL-KEY:"
