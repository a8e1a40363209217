-- ===== src/ProtoDef/Replies.antt =====
-- common/ProtoDef.h: the packed reply structs as the bytes sent. A field that the source leaves
-- zeroed is [] or 0; a text field is copied into a zeroed buffer.
use p2p_server.Prelude.{ℕ, Bytes, List, [], ◌∷◌, ◌++◌, take}
use p2p_server.Prelude.Wire.{be16, be32, padded}
use p2p_server.ProtoDef.{max_uuid_len, max_ip_len}
use p2p_server.ProtoDef.Requests.{SyncPeerEntry, ProxyAvailRsp}

abbrev pub uuid_field : Bytes → Bytes
uuid_field u = padded 33 (take max_uuid_len u)

abbrev pub ip_field : Bytes → Bytes
ip_field ip = padded max_ip_len ip

pub record ExtInfoRsp : Type 0 where
  pub result : ℕ
  pub pub_ip : Bytes
  pub pub_port : ℕ
  pub lan_ip : Bytes
  pub lan_port : ℕ
  pub nat_sock2_port : ℕ

unfoldable pub ext_info_rsp_bytes : ExtInfoRsp → Bytes
ext_info_rsp_bytes r =
    r.result ∷ ip_field r.pub_ip
    ++ be16 r.pub_port
    ++ ip_field r.lan_ip
    ++ be16 r.lan_port
    ++ be16 r.nat_sock2_port

pub record ProxyCandidate : Type 0 where
  pub ip : Bytes
  pub port : ℕ

candidate_bytes : ProxyCandidate → Bytes
candidate_bytes c = ip_field c.ip ++ be16 c.port

candidate_list_bytes : List ProxyCandidate → Bytes
unfolding candidate_bytes
candidate_list_bytes [] = []
candidate_list_bytes (c ∷ cs) = candidate_bytes c ++ candidate_list_bytes cs

-- `ProxyCandidate proxies[3]`, those behind the count zeroed.
unfoldable pub candidates_bytes : List ProxyCandidate → Bytes
unfolding candidate_list_bytes
candidates_bytes cs = padded 54 (candidate_list_bytes cs)

pub record ConnectAck : Type 0 where
  pub result : ℕ
  pub dst_uuid : Bytes
  pub dst_pub_ip : Bytes
  pub dst_pub_port : ℕ
  pub dst_lan_ip : Bytes
  pub dst_lan_port : ℕ
  pub dst_nattype : ℕ
  pub proxy_count : ℕ
  pub proxies : List ProxyCandidate

unfoldable pub connect_ack_bytes : ConnectAck → Bytes
connect_ack_bytes r =
    r.result ∷ uuid_field r.dst_uuid
    ++ ip_field r.dst_pub_ip
    ++ be16 r.dst_pub_port
    ++ ip_field r.dst_lan_ip
    ++ be16 r.dst_lan_port
    ++ r.dst_nattype ∷ r.proxy_count ∷ candidates_bytes r.proxies

pub record ConnectInvite : Type 0 where
  pub src_uuid : Bytes
  pub src_pub_ip : Bytes
  pub src_pub_port : ℕ
  pub src_lan_ip : Bytes
  pub src_lan_port : ℕ
  pub src_nattype : ℕ
  pub proxy_count : ℕ
  pub proxies : List ProxyCandidate

unfoldable pub connect_invite_bytes : ConnectInvite → Bytes
connect_invite_bytes r =
    uuid_field r.src_uuid
    ++ ip_field r.src_pub_ip
    ++ be16 r.src_pub_port
    ++ ip_field r.src_lan_ip
    ++ be16 r.src_lan_port
    ++ r.src_nattype ∷ r.proxy_count ∷ candidates_bytes r.proxies

pub record DevListRsp : Type 0 where
  pub total : ℕ
  pub count : ℕ
  pub start_index : ℕ

unfoldable pub dev_list_rsp_bytes : DevListRsp → Bytes
dev_list_rsp_bytes r = be16 r.total ++ be16 r.count ++ be16 r.start_index

pub record DevListEntry : Type 0 where
  pub uuid : Bytes
  pub ip : Bytes
  pub port : ℕ
  pub dev_type : ℕ

unfoldable pub dev_list_entry_bytes : DevListEntry → Bytes
dev_list_entry_bytes e = uuid_field e.uuid ++ ip_field e.ip ++ be16 e.port ++ e.dev_type ∷ []

pub record ServerListRsp : Type 0 where
  pub nat_count : ℕ
  pub proxy_count : ℕ

unfoldable pub server_list_rsp_bytes : ServerListRsp → Bytes
server_list_rsp_bytes r = be16 r.nat_count ++ be16 r.proxy_count

pub record ProxyAvailReq : Type 0 where
  pub nat_ip : Bytes
  pub nat_port : ℕ

unfoldable pub proxy_avail_req_bytes : ProxyAvailReq → Bytes
proxy_avail_req_bytes r = ip_field (take 15 r.nat_ip) ++ be16 r.nat_port

unfoldable pub proxy_avail_rsp_bytes : ProxyAvailRsp → Bytes
proxy_avail_rsp_bytes r = r.available ∷ be16 r.used ++ be16 r.max_proxy

pub record ProxyRegRsp : Type 0 where
  pub result : ℕ
  pub pub_ip : Bytes
  pub pub_port : ℕ

unfoldable pub proxy_reg_rsp_bytes : ProxyRegRsp → Bytes
proxy_reg_rsp_bytes r = r.result ∷ ip_field r.pub_ip ++ be16 r.pub_port

pub record NatDetectRsp : Type 0 where
  pub server_index : ℕ
  pub server_ip : Bytes
  pub server_port : ℕ
  pub mapped_ip : Bytes
  pub mapped_port : ℕ
  pub main_port : ℕ
  pub alt_port : ℕ

unfoldable pub nat_detect_rsp_bytes : NatDetectRsp → Bytes
nat_detect_rsp_bytes r =
    r.server_index ∷ ip_field r.server_ip
    ++ be16 r.server_port
    ++ ip_field r.mapped_ip
    ++ be16 r.mapped_port
    ++ be16 r.main_port
    ++ be16 r.alt_port

pub record AuthChallengeRsp : Type 0 where
  pub result : ℕ
  pub nonce : Bytes
  pub nonce_ttl : ℕ

unfoldable pub auth_challenge_rsp_bytes : AuthChallengeRsp → Bytes
auth_challenge_rsp_bytes r = r.result ∷ padded 16 r.nonce ++ be16 r.nonce_ttl

pub record AuthLoginRsp : Type 0 where
  pub result : ℕ
  pub session_ttl : ℕ

unfoldable pub auth_login_rsp_bytes : AuthLoginRsp → Bytes
auth_login_rsp_bytes r = r.result ∷ be16 r.session_ttl

pub record AdminStatsRsp : Type 0 where
  pub total_pkts : ℕ
  pub peers_online : ℕ
  pub devices : ℕ
  pub apps : ℕ
  pub blacklist_ips : ℕ
  pub authed_peers : ℕ
  pub proxy_ok : ℕ
  pub connect_ok : ℕ
  pub connect_fail : ℕ

unfoldable pub admin_stats_rsp_bytes : AdminStatsRsp → Bytes
admin_stats_rsp_bytes r =
    be32 r.total_pkts
    ++ be32 r.peers_online
    ++ be32 r.devices
    ++ be32 r.apps
    ++ be32 r.blacklist_ips
    ++ be32 r.authed_peers
    ++ be32 r.proxy_ok
    ++ be32 r.connect_ok
    ++ be32 r.connect_fail

pub record AdminBlacklistEntry : Type 0 where
  pub key : Bytes
  pub expire : ℕ

entry_bytes : AdminBlacklistEntry → Bytes
entry_bytes e = padded 64 (take 63 e.key) ++ be32 e.expire

entries_bytes : List AdminBlacklistEntry → Bytes
unfolding entry_bytes
entries_bytes [] = []
entries_bytes (e ∷ es) = entry_bytes e ++ entries_bytes es

pub record AdminBlacklistRsp : Type 0 where
  pub result : ℕ
  pub ip_count : ℕ
  pub uuid_count : ℕ
  pub entry_count : ℕ
  pub entries : List AdminBlacklistEntry

-- 28 entries of 68 bytes, those behind the count zeroed.
unfoldable pub admin_blacklist_rsp_bytes : AdminBlacklistRsp → Bytes
unfolding entries_bytes
admin_blacklist_rsp_bytes r =
    r.result ∷ be32 r.ip_count
    ++ be32 r.uuid_count
    ++ r.entry_count ∷ padded 1904 (entries_bytes r.entries)

unfoldable pub sync_peer_entry_bytes : SyncPeerEntry → Bytes
sync_peer_entry_bytes e =
    uuid_field e.uuid
    ++ ip_field e.pub_ip
    ++ be16 e.pub_port
    ++ ip_field e.lan_ip
    ++ be16 e.lan_port
    ++ e.dev_type ∷ e.nattype ∷ e.hop ∷ e.reserved ∷ be32 e.hb_time
    ++ be16 e.extlen
