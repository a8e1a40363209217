-- ===== src/NatServer/Packet/Peers.antt =====
-- server/natserver/src/RecvProcess.cpp: the messages about peers.
use p2p_server.Prelude.{
  ℕ, ◌+◌, ◌-◌, ◌%◌, ◌^◌, ◌==◌, ltb, leb, if◌then◌else◌, Bool, false, ◌&&◌, ◌||◌, List, [], ◌∷◌,
  ◌++◌, Option, none, some, Bytes, bytes_eq, length, is_empty, take, drop, codes, set,
}
use p2p_server.Prelude.Wire.{read_be16, slice}
use p2p_server.ProtoDef.{
  max_extinfo, max_pkt, msg_snd_extinfo_req, msg_ask_extinfo_rsp, msg_ice_sdp, msg_get_dev_list_rsp,
  msg_get_server_list_rsp, msg_check_uid_rsp,
}
use p2p_server.ProtoDef.Requests.{
  size_of_uuid_req, read_uuid_req, size_of_ext_info_req, read_uuid, DevListReq,
  size_of_dev_list_req, read_dev_list_req, size_of_proxy_avail_rsp, read_proxy_avail_rsp,
}
use p2p_server.ProtoDef.Replies.{
  ExtInfoRsp, ext_info_rsp_bytes, dev_list_rsp_bytes, DevListEntry, dev_list_entry_bytes,
  server_list_rsp_bytes, ip_field,
}
use p2p_server.Crypto.Hmac.{p2p_stream_xor}
use p2p_server.Util.{Sockaddr, inet_ntop}
use p2p_server.Net.{send_msg}
use p2p_server.PeerManage.{Peer, Report, get, upsert, remove, exists, snapshot}
use p2p_server.LicenseMgr
use p2p_server.NatServer.{NatServer, Outcome}
use p2p_server.NatServer.Heartbeat.{handle_heartbeat}
use p2p_server.NatServer.ProxyPool.{collect_proxy_avail}

-- The time, the random bytes of a nonce, the draws for the two picks of a proxy, and the bytes in
-- memory behind an entry that is forwarded.
pub record Env : Type 0 where
  pub now : ℕ
  pub nonce : Bytes
  pub draws : List ℕ
  pub invite_draws : List ℕ
  pub beyond : Bytes

unfoldable pub on_heartbeat : NatServer → Env → Bytes → Sockaddr → Outcome
on_heartbeat s env p from =
    let req = read_uuid_req p in
    let fits = leb req.extlen max_extinfo && leb (size_of_uuid_req + req.extlen) (length p) in
    if ltb (length p) size_of_uuid_req
    then (s, [])
    else handle_heartbeat s req (if fits then slice p size_of_uuid_req req.extlen else []) from none
        env.now

-- The request in the clear: the decrypted body, or the body as it is without a secret.
unfoldable pub open_body : NatServer → Bytes → Bytes
open_body s p =
    if is_empty s.cfg.auth_secret
    then drop 41 p
    else p2p_stream_xor s.cfg.auth_secret (set (slice p 0 33) 32 0) (slice p 33 8) (drop 41 p)

unfoldable pub on_heartbeat_enc : NatServer → Env → Bytes → Sockaddr → Outcome
on_heartbeat_enc s env p from =
    let body = open_body s p in
    let ext = length body - size_of_uuid_req in
    if ltb (length p) (41 + size_of_uuid_req)
    then (s, [])
    else handle_heartbeat s (record (read_uuid_req body) { uuid = read_uuid p 0 })
        (if leb ext max_extinfo then drop size_of_uuid_req body else []) from (some (slice p 33 8))
        env.now

-- The answer with the sender's address, the result 0 and nothing of another peer.
abbrev pub ext_rsp : NatServer → Sockaddr → ExtInfoRsp
ext_rsp s from = record {
  result = 0;
  pub_ip = inet_ntop from.addr;
  pub_port = from.port;
  lan_ip = [];
  lan_port = 0;
  nat_sock2_port = s.alt_port;
}

abbrev pub report_again : Peer → Bytes → Report
report_again p extinfo = record {
  pub_addr = p.pub_addr;
  lan_addr = p.lan_addr;
  dev_type = p.dev_type;
  nattype = p.nattype;
  extinfo = extinfo;
}

-- The extension info of a peer that is there is stored, and the message sent on to its address. The
-- length is kept in 16 bits.
unfoldable pub on_snd_extinfo : NatServer → Env → Bytes → Sockaddr → Outcome
on_snd_extinfo s env p from =
    let extlen = (length p - size_of_ext_info_req) % 2 ^ 16 in
    let extinfo = if leb extlen max_extinfo then slice p size_of_ext_info_req extlen else [] in
    if ltb (length p) size_of_ext_info_req
    then (s, send_msg from msg_ask_extinfo_rsp (ext_info_rsp_bytes (ext_rsp s from)))
    else elim (get s.peers (read_uuid p 0)) [
      | none ↦ (s, [])
      | some self ↦ (
        record s { peers = (upsert s.peers self.uuid (report_again self extinfo) env.now).0 },
        send_msg self.pub_addr msg_snd_extinfo_req p,
      )
    ]

unfoldable pub ask_answer : NatServer → Sockaddr → Option Peer → Bytes
ask_answer s from none = ext_info_rsp_bytes (record (ext_rsp s from) { result = 2 })
ask_answer s from (some pe) =
    ext_info_rsp_bytes
      (record (ext_rsp s from) { lan_ip = inet_ntop pe.lan_addr.addr; lan_port = pe.lan_addr.port })
    ++ (if leb (39 + length pe.extinfo) max_pkt then pe.extinfo else [])

unfoldable pub on_ask_extinfo : NatServer → Bytes → Sockaddr → Outcome
on_ask_extinfo s p from = (
  s,
  send_msg from msg_ask_extinfo_rsp (
      if ltb (length p) size_of_ext_info_req
      then ext_info_rsp_bytes (ext_rsp s from)
      else ask_answer s from (get s.peers (read_uuid p 0))),
)

-- The struct of the message is not packed: the length stands at the offset 34.
unfoldable pub on_ice_sdp : NatServer → Bytes → Outcome
on_ice_sdp s p =
    if ltb (length p) 37 || ltb (length p) (37 + read_be16 p 34)
    then (s, [])
    else elim (get s.peers (read_uuid p 0)) [
      | none ↦ (s, [])
      | some dst ↦ (s, send_msg dst.pub_addr msg_ice_sdp (set p 32 0))
    ]

abbrev pub list_entry : Peer → DevListEntry
list_entry p = record {
  uuid = p.uuid;
  ip = inet_ntop p.pub_addr.addr;
  port = p.pub_addr.port;
  dev_type = p.dev_type;
}

unfoldable pub list_bytes : List Peer → Bytes
list_bytes [] = []
list_bytes (p ∷ ps) = dev_list_entry_bytes (list_entry p) ++ list_bytes ps

abbrev pub wanted : ℕ → ℕ
wanted want = if want == 0 || ltb 100 want then 20 else want

unfoldable pub on_dev_list : NatServer → Bytes → Sockaddr → Outcome
on_dev_list s p from =
    let req : DevListReq =
      if leb size_of_dev_list_req (length p)
      then read_dev_list_req p
      else record { start_index = 0; want_num = 0 } in
    let snap = snapshot s.peers in
    let page = take (wanted req.want_num) (drop req.start_index snap) in
    (
      s,
      send_msg from msg_get_dev_list_rsp (
          dev_list_rsp_bytes (record {
            total = length snap % 2 ^ 16;
            start_index = req.start_index;
            count = length page;
          })
          ++ list_bytes page),
    )

unfoldable pub is_member : Bytes → List Bytes → Bool
is_member ip [] = false
is_member ip (x ∷ xs) = bytes_eq x ip || is_member ip xs

abbrev pub nat_list : NatServer → List Bytes
nat_list s =
    if is_empty s.wan_ip || bytes_eq s.wan_ip (codes "0.0.0.0") || is_member s.wan_ip s.cfg.nat_ips
    then s.cfg.nat_ips
    else s.cfg.nat_ips ++ s.wan_ip ∷ []

unfoldable pub ip_fields : List Bytes → Bytes
ip_fields [] = []
ip_fields (ip ∷ ips) = ip_field (take 15 ip) ++ ip_fields ips

-- The buffer holds 640 bytes; a longer list is written past its end.
unfoldable pub on_server_list : NatServer → Sockaddr → Outcome
on_server_list s from =
    let nats = nat_list s in
    (
      s,
      send_msg from msg_get_server_list_rsp (
          server_list_rsp_bytes (record {
            nat_count = length nats % 2 ^ 16;
            proxy_count = length s.cfg.proxy_ips % 2 ^ 16;
          })
          ++ ip_fields nats
          ++ ip_fields s.cfg.proxy_ips),
    )

-- The request is a `UuidReq`, or its first 33 bytes.
unfoldable pub on_delete_uid : NatServer → Bytes → Outcome
on_delete_uid s p =
    let uuid = if leb 33 (length p) then read_uuid p 0 else [] in
    (
      record s { peers = (remove s.peers uuid).0; license = (LicenseMgr.remove s.license uuid).0 },
      [],
    )

unfoldable pub on_check_uid : NatServer → Bytes → Sockaddr → Outcome
on_check_uid s p from =
    let uuid = if leb size_of_ext_info_req (length p) then read_uuid p 0 else [] in
    let known = exists s.peers uuid || LicenseMgr.exists s.license uuid in
    (s, send_msg from msg_check_uid_rsp ((if known then 1 else 0) ∷ []))

unfoldable pub on_proxy_avail : NatServer → Env → Bytes → Sockaddr → Outcome
on_proxy_avail s env p from =
    if ltb (length p) size_of_proxy_avail_rsp
    then (s, [])
    else (collect_proxy_avail s from (read_proxy_avail_rsp p) env.now, [])
