-- ===== src/NatServer/Packet/Admin.antt =====
-- server/natserver/src/RecvProcess.cpp: logging in, the statistics and the blacklists.
pub mod Authorised
use p2p_server.Prelude.{
  ℕ, suc, ◌+◌, ◌-◌, ◌%◌, ◌^◌, ◌==◌, ltb, leb, if◌then◌else◌, Bool, true, false, not, ◌&&◌, ◌||◌,
  List, [], ◌∷◌, ◌++◌, Option, none, some, Bytes, bytes_eq, length, is_empty, take, c_str,
}
use p2p_server.Prelude.Maps.{Map}
use p2p_server.ProtoDef.{
  max_uuid_len, msg_auth_challenge_rsp, msg_auth_login_rsp, msg_admin_stats_rsp,
  msg_admin_blacklist_rsp, auth_ok, auth_bad_mac, auth_blacklist, auth_whitelist_rej,
}
use p2p_server.ProtoDef.Requests.{
  size_of_ext_info_req, read_uuid, AuthLoginReq, size_of_auth_login_req, read_auth_login_req,
  AdminBlacklistReq, size_of_admin_blacklist_req, read_admin_blacklist_req,
}
use p2p_server.ProtoDef.Replies.{
  AuthChallengeRsp, auth_challenge_rsp_bytes, AuthLoginRsp, auth_login_rsp_bytes, AdminStatsRsp,
  admin_stats_rsp_bytes, AdminBlacklistEntry, AdminBlacklistRsp, admin_blacklist_rsp_bytes,
}
use p2p_server.Crypto.Hmac.{hmac_sha256}
use p2p_server.Util.{Sockaddr, inet_pton}
use p2p_server.Net.{send_msg}
use p2p_server.PeerManage.{device_count, client_count, authed_count}
use p2p_server.AntiAbuse.{
  AntiAbuse, is_uuid_blacklisted, is_ip_blacklisted_ip, blacklist_ip, blacklist_uuid,
  unblacklist_ip, unblacklist_uuid, ip_blacklist_snapshot, uuid_blacklist_snapshot,
}
use p2p_server.LicenseMgr.{allowed}
use p2p_server.NatServer.{NatServer, ProxyHealth, Outcome}
use p2p_server.NatServer.Auth.{issue_auth_nonce, verify_auth_login}
use p2p_server.NatServer.Packet.Peers.{Env}

abbrev pub challenge : ℕ → Bytes → AuthChallengeRsp
challenge result nonce = record { result = result; nonce = nonce; nonce_ttl = 30 }

unfoldable pub on_auth_challenge : NatServer → Env → Bytes → Sockaddr → Outcome
on_auth_challenge s env p from =
    let uuid = if leb size_of_ext_info_req (length p) then read_uuid p 0 else [] in
    let (abuse, black) = is_uuid_blacklisted s.abuse uuid env.now in
    let s' = record s { abuse = abuse } in
    if black
    then (s', send_msg from msg_auth_challenge_rsp (auth_challenge_rsp_bytes (challenge 1 [])))
    else if s.cfg.enable_license && not (allowed s.license uuid)
    then (s', send_msg from msg_auth_challenge_rsp (auth_challenge_rsp_bytes (challenge 2 [])))
    else (
      issue_auth_nonce s' uuid env.nonce env.now,
      send_msg from msg_auth_challenge_rsp (auth_challenge_rsp_bytes (challenge 0 env.nonce)),
    )

-- The code of the answer to a login.
unfoldable pub login : NatServer → AuthLoginReq → ℕ → NatServer × ℕ
login s req now =
    let (abuse, black) = is_uuid_blacklisted s.abuse req.uuid now in
    let s' = record s { abuse = abuse } in
    let (s'', ok) = verify_auth_login s' req.uuid req.nonce req.mac now in
    if black
    then (s', auth_blacklist)
    else if s.cfg.enable_license && not (allowed s.license req.uuid)
    then (s', auth_whitelist_rej)
    else (s'', if ok then auth_ok else auth_bad_mac)

unfoldable pub on_auth_login : NatServer → Env → Bytes → Sockaddr → Outcome
on_auth_login s env p from =
    let (s', result) = login s (read_auth_login_req p) env.now in
    if ltb (length p) size_of_auth_login_req then (s, []) else (
      s',
      send_msg from msg_auth_login_rsp
          (auth_login_rsp_bytes (record { result = result; session_ttl = 3600 })),
    )

unfoldable pub count_available : List ProxyHealth → ℕ
count_available [] = 0
count_available (h ∷ hs) = if h.available == 0 then count_available hs else suc (count_available hs)

unfoldable pub stats : NatServer → ℕ → AdminStatsRsp
stats s now = record {
  total_pkts = s.total_pkts % 2 ^ 32;
  peers_online = length s.peers.peers % 2 ^ 32;
  devices = device_count s.peers % 2 ^ 32;
  apps = client_count s.peers % 2 ^ 32;
  blacklist_ips = length s.abuse.ip_black % 2 ^ 32;
  authed_peers = authed_count s.peers now % 2 ^ 32;
  proxy_ok = count_available s.proxy_health;
  connect_ok = s.connect_ok % 2 ^ 32;
  connect_fail = s.connect_fail % 2 ^ 32;
}

unfoldable pub on_admin_stats : NatServer → Env → Sockaddr → Outcome
on_admin_stats s env from =
    (s, send_msg from msg_admin_stats_rsp (admin_stats_rsp_bytes (stats s env.now)))

unfoldable pub add_ip : AntiAbuse → Option ℕ → ℕ → AntiAbuse × ℕ
add_ip a none now = (a, 4)
add_ip a (some ip) now = (blacklist_ip a ip now, 0)

unfoldable pub delete_ip : AntiAbuse → Option ℕ → ℕ → AntiAbuse × ℕ
delete_ip a none now = (a, 4)
delete_ip a (some ip) now =
    let (a', black) = is_ip_blacklisted_ip a ip now in
    if black then (unblacklist_ip a' ip, 0) else (a', 3)

abbrev pub is_bad_uuid : Bytes → Bool
is_bad_uuid key = is_empty key || ltb max_uuid_len (length key)

unfoldable pub add_uuid : AntiAbuse → Bytes → ℕ → AntiAbuse × ℕ
add_uuid a key now = if is_bad_uuid key then (a, 4) else (blacklist_uuid a key now, 0)

unfoldable pub delete_uuid : AntiAbuse → Bytes → ℕ → AntiAbuse × ℕ
delete_uuid a key now =
    let (a', black) = is_uuid_blacklisted a key now in
    if is_bad_uuid key then (a, 4) else if black then (unblacklist_uuid a' key, 0) else (a', 3)

-- The switch on the operation; the query changes nothing.
unfoldable pub admin_op : AntiAbuse → ℕ → Bytes → ℕ → AntiAbuse × ℕ
admin_op a op key now =
    if op == 1
    then add_ip a (inet_pton key) now
    else if op == 2
    then delete_ip a (inet_pton key) now
    else if op == 3
    then add_uuid a key now
    else if op == 4
    then delete_uuid a key now
    else if op == 5
    then (a, 0)
    else (a, 2)

unfoldable pub entries_of : Map Bytes ℕ → List AdminBlacklistEntry
entries_of [] = []
entries_of ((key, expire) ∷ m) = record { key = key; expire = expire % 2 ^ 32 } ∷ entries_of m

-- The first 28 entries, addresses before uuids.
unfoldable pub query : AntiAbuse → List AdminBlacklistEntry
query a = take 28 (entries_of (ip_blacklist_snapshot a) ++ entries_of (uuid_blacklist_snapshot a))

abbrev pub denied : AdminBlacklistRsp
denied = record { result = 1; ip_count = 0; uuid_count = 0; entry_count = 0; entries = [] }

abbrev pub outcome_of : AntiAbuse → ℕ → List AdminBlacklistEntry → AdminBlacklistRsp
outcome_of a result entries = record {
  result = result;
  ip_count = length a.ip_black % 2 ^ 32;
  uuid_count = length a.uuid_black % 2 ^ 32;
  entry_count = length entries;
  entries = entries;
}

unfoldable pub is_authorised : NatServer → AdminBlacklistReq → Bool
is_authorised s req =
    not (is_empty s.cfg.admin_secret)
    && bytes_eq (hmac_sha256 s.cfg.admin_secret (req.op ∷ req.key)) req.mac

unfoldable pub admin_blacklist : NatServer → AdminBlacklistReq → ℕ → NatServer × AdminBlacklistRsp
admin_blacklist s req now =
    let (a, result) = admin_op s.abuse req.op (c_str req.key) now in
    if is_authorised s req
    then (record s { abuse = a }, outcome_of a result (if req.op == 5 then query a else []))
    else (s, denied)

unfoldable pub on_admin_blacklist : NatServer → Env → Bytes → Sockaddr → Outcome
on_admin_blacklist s env p from =
    let (s', rsp) = admin_blacklist s (read_admin_blacklist_req p) env.now in
    if ltb (length p) size_of_admin_blacklist_req
    then (s, [])
    else (s', send_msg from msg_admin_blacklist_rsp (admin_blacklist_rsp_bytes rsp))
