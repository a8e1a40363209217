-- ===== src/NatServer/Packet/Connect.antt =====
-- server/natserver/src/RecvProcess.cpp, MSG_CONNECT_REQ: introducing two peers to each other.
pub mod Introduce
use p2p_server.Prelude.{
  ℕ, ◌+◌, ◌%◌, ◌^◌, ◌==◌, ltb, if◌then◌else◌, Bool, not, ◌&&◌, List, [], ◌∷◌, ◌++◌, Option, none,
  some, Bytes, length,
}
use p2p_server.ProtoDef.{msg_connect_ack, msg_connect_invite, connect_not_found, nat_unknown}
use p2p_server.ProtoDef
use p2p_server.ProtoDef.Requests.{size_of_connect_req, ConnectReq, read_connect_req}
use p2p_server.ProtoDef.Replies.{
  ProxyCandidate, ConnectAck, connect_ack_bytes, ConnectInvite, connect_invite_bytes,
}
use p2p_server.Util.{Sockaddr, inet_ntop}
use p2p_server.Net.{Datagram, send_msg}
use p2p_server.CfgFile.{auth_enabled}
use p2p_server.PeerManage.{Peer, get, authed}
use p2p_server.LicenseMgr.{allowed}
use p2p_server.NatServer.{NatServer, Outcome}
use p2p_server.NatServer.ProxyPool.{pick_proxy}
use p2p_server.NatServer.Packet.Peers.{Env}

-- The answer that carries a code and the uuid asked for.
abbrev pub connect_refusal : Bytes → ℕ → ConnectAck
connect_refusal dst_uuid result = record {
  result = result;
  dst_uuid = dst_uuid;
  dst_pub_ip = [];
  dst_pub_port = 0;
  dst_lan_ip = [];
  dst_lan_port = 0;
  dst_nattype = 0;
  proxy_count = 0;
  proxies = [];
}

abbrev pub connect_granted : Bytes → Peer → List ProxyCandidate → ConnectAck
connect_granted dst_uuid dst proxies = record {
  result = ProtoDef.connect_ok;
  dst_uuid = dst_uuid;
  dst_pub_ip = inet_ntop dst.pub_addr.addr;
  dst_pub_port = dst.pub_addr.port;
  dst_lan_ip = inet_ntop dst.lan_addr.addr;
  dst_lan_port = dst.lan_addr.port;
  dst_nattype = dst.nattype;
  proxy_count = length proxies;
  proxies = proxies;
}

-- The initiator as the target is told of it: its entry, or its address if it has none.
unfoldable pub invite_of : Bytes → Sockaddr → Option Peer → List ProxyCandidate → ConnectInvite
invite_of src_uuid from none proxies = record {
  src_uuid = src_uuid;
  src_pub_ip = inet_ntop from.addr;
  src_pub_port = from.port;
  src_lan_ip = inet_ntop from.addr;
  src_lan_port = from.port;
  src_nattype = nat_unknown;
  proxy_count = length proxies;
  proxies = proxies;
}
invite_of src_uuid from (some src) proxies = record {
  src_uuid = src_uuid;
  src_pub_ip = inet_ntop from.addr;
  src_pub_port = from.port;
  src_lan_ip = inet_ntop src.lan_addr.addr;
  src_lan_port = src.lan_addr.port;
  src_nattype = src.nattype;
  proxy_count = length proxies;
  proxies = proxies;
}

abbrev pub inc_connect_ok : NatServer → NatServer
inc_connect_ok s = record s { connect_ok = (s.connect_ok + 1) % 2 ^ 64 }

abbrev pub inc_connect_fail : NatServer → NatServer
inc_connect_fail s = record s { connect_fail = (s.connect_fail + 1) % 2 ^ 64 }

unfoldable pub refuse_connect : NatServer → Sockaddr → Bytes → ℕ → Outcome
refuse_connect s from dst_uuid result = (
  inc_connect_fail s,
  send_msg from msg_connect_ack (connect_ack_bytes (connect_refusal dst_uuid result)),
)

unfoldable pub introduce : NatServer → Env → ConnectReq → Sockaddr → Peer → Outcome
introduce s env req from dst = (
  inc_connect_ok s,
  send_msg from msg_connect_ack
        (connect_ack_bytes (connect_granted req.dst_uuid dst (pick_proxy s env.draws env.now)))
      ++ send_msg dst.pub_addr msg_connect_invite (
          connect_invite_bytes (
            invite_of req.src_uuid from (get s.peers req.src_uuid)
              (pick_proxy s env.invite_draws env.now))),
)

unfoldable pub connect : NatServer → Env → ConnectReq → Sockaddr → Outcome
connect s env req from =
    if auth_enabled s.cfg && not (authed s.peers req.src_uuid env.now)
    then refuse_connect s from req.dst_uuid 3
    else if s.cfg.enable_license && not (allowed s.license req.src_uuid)
    then refuse_connect s from req.dst_uuid connect_not_found
    else elim (get s.peers req.dst_uuid) [
      | none ↦ refuse_connect s from req.dst_uuid connect_not_found
      | some dst ↦ introduce s env req from dst
    ]

unfoldable pub on_connect : NatServer → Env → Bytes → Sockaddr → Outcome
on_connect s env p from =
    if ltb (length p) size_of_connect_req then (s, []) else connect s env (read_connect_req p) from
