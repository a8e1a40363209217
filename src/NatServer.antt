-- ===== src/NatServer.antt =====
-- server/natserver/src/NatServer.{h,cpp}: the state of the directory server and the reply to a
-- heartbeat. `time(nullptr)` is the argument `now`. A handler runs as one step: the locks of the
-- parts are held in turn, and other workers' steps in between are not modelled.
pub mod Heartbeat
pub mod Auth
pub mod Sync
pub mod ProxyPool
pub mod Queue
pub mod Packet
use p2p_server.Prelude.{
  ℕ, ◌+◌, ◌%◌, ◌^◌, if◌then◌else◌, Bool, List, [], ◌∷◌, ◌++◌, Option, none, some, Bytes, take, drop,
  length, is_empty,
}
use p2p_server.Prelude.Maps.{Map}
use p2p_server.Prelude.Wire.{padded}
use p2p_server.ProtoDef.{msg_heartbeat_rsp, msg_heartbeat_rsp_enc}
use p2p_server.ProtoDef.Replies.{ExtInfoRsp, ext_info_rsp_bytes}
use p2p_server.Crypto.Hmac.{p2p_stream_xor}
use p2p_server.Util.{Sockaddr}
use p2p_server.Net.{Datagram, send_msg}
use p2p_server.CfgFile.{CfgData}
use p2p_server.PeerManage.{PeerManager}
use p2p_server.AntiAbuse.{AntiAbuse}
use p2p_server.LicenseMgr.{LicenseMgr}

pub record IncomingPacket : Type 0 where
  pub buf : Bytes
  pub from : Sockaddr

pub record ProxyHealth : Type 0 where
  pub ip : Bytes
  pub port : ℕ
  pub available : ℕ
  pub used : ℕ
  pub max_proxy : ℕ
  pub last_seen : ℕ
  pub down : ℕ

pub record NatServer : Type 0 where
  pub cfg : CfgData
  pub nat_port : ℕ
  pub proxy_port : ℕ
  pub wan_ip : Bytes
  pub alt_port : ℕ
  pub peers : PeerManager
  pub abuse : AntiAbuse
  pub license : LicenseMgr
  pub sync_on : Bool
  pub sync_addrs : List Sockaddr
  pub sync_seen : Map Bytes ℕ
  pub mq : List IncomingPacket
  pub proxy_health : List ProxyHealth
  pub auth_nonces : Map Bytes (Bytes × ℕ)
  pub total_pkts : ℕ
  pub connect_ok : ℕ
  pub connect_fail : ℕ

-- A handler's result: the new state and the datagrams sent.
abbrev pub Outcome : Type 0
Outcome = NatServer × List Datagram

-- The head of the encrypted reply: the uuid's 33 bytes and the vector of the request.
abbrev pub enc_head : Bytes → Bytes → Bytes
enc_head uuid iv = padded 33 uuid ++ padded 8 iv

unfoldable pub sealed_reply : CfgData → Bytes → Bytes → Bytes → Bytes
sealed_reply cfg uuid iv rsp =
    enc_head uuid iv
    ++ (if is_empty cfg.auth_secret then rsp else p2p_stream_xor cfg.auth_secret uuid iv rsp)

-- `none` for the plain reply, else the vector of the encrypted request.
unfoldable pub send_heartbeat_rsp :
    NatServer → Sockaddr → Bytes → ExtInfoRsp → Option Bytes → List Datagram
send_heartbeat_rsp s to uuid rsp none = send_msg to msg_heartbeat_rsp (ext_info_rsp_bytes rsp)
send_heartbeat_rsp s to uuid rsp (some iv) =
    send_msg to msg_heartbeat_rsp_enc (sealed_reply s.cfg uuid iv (ext_info_rsp_bytes rsp))
