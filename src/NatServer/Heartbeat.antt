-- ===== src/NatServer/Heartbeat.antt =====
-- server/natserver/src/NatServer.cpp, `handle_heartbeat`: the gates and the registration.
pub mod Gate
use p2p_server.Prelude.{
  ℕ, ◌==◌, if◌then◌else◌, Bool, true, false, not, ◌&&◌, ◌||◌, List, [], ◌∷◌, ◌++◌, Option, none,
  some, Bytes,
}
use p2p_server.ProtoDef.Requests.{UuidReq}
use p2p_server.ProtoDef.Replies.{ExtInfoRsp}
use p2p_server.Util.{Sockaddr, inet_ntop}
use p2p_server.CfgFile.{auth_enabled}
use p2p_server.PeerManage.{Report, authed, upsert}
use p2p_server.AntiAbuse.{is_uuid_blacklisted}
use p2p_server.LicenseMgr.{allowed}
use p2p_server.NatServer.{NatServer, Outcome, send_heartbeat_rsp}
use p2p_server.NatServer.Sync.{broadcast_peer_entry}

-- The answer that carries a code and the second port.
abbrev pub heartbeat_refusal : NatServer → ℕ → ExtInfoRsp
heartbeat_refusal s result = record {
  result = result;
  pub_ip = [];
  pub_port = 0;
  lan_ip = [];
  lan_port = 0;
  nat_sock2_port = s.alt_port;
}

abbrev pub heartbeat_granted : NatServer → UuidReq → Sockaddr → ExtInfoRsp
heartbeat_granted s req from = record {
  result = 0;
  pub_ip = inet_ntop from.addr;
  pub_port = from.port;
  lan_ip = inet_ntop from.addr;
  lan_port = req.lan_port;
  nat_sock2_port = s.alt_port;
}

abbrev pub heartbeat_report : UuidReq → Bytes → Sockaddr → Report
heartbeat_report req extinfo from = record {
  pub_addr = from;
  lan_addr = record from { port = req.lan_port };
  dev_type = req.dev_type;
  nattype = req.nattype;
  extinfo = extinfo;
}

-- The registration, once the gates are passed.
unfoldable pub admit_heartbeat : NatServer → UuidReq → Bytes → Sockaddr → Option Bytes → ℕ → Outcome
admit_heartbeat s req extinfo from iv now =
    let s' = record s {
      peers = (upsert s.peers req.uuid (heartbeat_report req extinfo from) now).0;
    } in
    (
      s',
      broadcast_peer_entry s' req extinfo from now
          ++ send_heartbeat_rsp s' from req.uuid (heartbeat_granted s' req from) iv,
    )

-- `iv` is `none` for a plain heartbeat, else the vector of the encrypted one.
unfoldable pub handle_heartbeat :
    NatServer → UuidReq → Bytes → Sockaddr → Option Bytes → ℕ → Outcome
handle_heartbeat s req extinfo from iv now =
    if auth_enabled s.cfg && not (authed s.peers req.uuid now)
    then (s, send_heartbeat_rsp s from req.uuid (heartbeat_refusal s 1) iv)
    else let (abuse, black) = is_uuid_blacklisted s.abuse req.uuid now in
      let s' = record s { abuse = abuse } in
      if black || (s.cfg.enable_license && not (allowed s.license req.uuid))
      then (s', send_heartbeat_rsp s' from req.uuid (heartbeat_refusal s 2) iv)
      else admit_heartbeat s' req extinfo from iv now
