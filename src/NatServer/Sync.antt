-- ===== src/NatServer/Sync.antt =====
-- server/natserver/src/NatServer.cpp: the registry that the servers keep in step. A wire entry is
-- its 79 bytes, read by `read_sync_peer_entry`.
pub mod Signed
pub mod Forward
pub mod Deletion
use p2p_server.Prelude.{
  ℕ, zero, suc, ◌+◌, ◌-◌, ◌*◌, ◌/◌, ◌%◌, ◌^◌, ◌==◌, ltb, leb, if◌then◌else◌, Bool, true, false, not,
  ◌&&◌, ◌||◌, List, [], ◌∷◌, ◌++◌, Option, none, some, Bytes, bytes_eq, length, is_empty, take,
  drop, set,
}
use p2p_server.Prelude.Maps.{Map, find, insert, retain, bytes_key}
use p2p_server.Prelude.Wire.{be32, slice}
use p2p_server.ProtoDef.{
  max_pkt, max_uuid_len, max_extinfo, msg_sync_peer_entry, msg_sync_peer_del, msg_sync_snapshot_req,
  sync_hop_max, sync_hop_snap,
}
use p2p_server.ProtoDef.Requests.{
  UuidReq, SyncPeerEntry, size_of_sync_peer_entry, read_sync_peer_entry,
}
use p2p_server.ProtoDef.Replies.{uuid_field, sync_peer_entry_bytes}
use p2p_server.Crypto.Hmac.{hmac_sha256}
use p2p_server.Util.{Sockaddr, sockaddr_eq, inet_ntop, inet_pton}
use p2p_server.Net.{Datagram, send_msg}
use p2p_server.PeerManage.{Peer, PeerManager, Report, upsert_synced, remove, snapshot}
use p2p_server.NatServer.{NatServer, Outcome}

unfoldable pub sync_enabled : NatServer → Bool
sync_enabled s = s.sync_on && not (is_empty s.sync_addrs)

-- The payload with its MAC, if there is a secret.
unfoldable pub signed : Bytes → Bytes → Bytes
signed secret payload = if is_empty secret then payload else payload ++ hmac_sha256 secret payload

unfoldable pub sync_send_msg : NatServer → Sockaddr → ℕ → Bytes → List Datagram
sync_send_msg s to msg_id payload =
    if ltb (max_pkt - 32) (length payload)
    then []
    else send_msg to msg_id (signed s.cfg.sync_auth_secret payload)

-- `payload` is the whole payload, of which the first `body_len` bytes are signed.
unfoldable pub sync_verify : NatServer → Bytes → ℕ → Bool
sync_verify s payload body_len =
    if is_empty s.cfg.sync_auth_secret
    then true
    else if ltb (length payload) (body_len + 32)
    then false
    else bytes_eq (hmac_sha256 s.cfg.sync_auth_secret (take body_len payload))
        (slice payload body_len 32)

unfoldable pub is_excepted : Option Sockaddr → Sockaddr → Bool
is_excepted none to = false
is_excepted (some from) to = sockaddr_eq from to

unfoldable pub broadcast_to :
    NatServer → List Sockaddr → ℕ → Bytes → Option Sockaddr → List Datagram
broadcast_to s [] msg_id payload except = []
broadcast_to s (to ∷ tos) msg_id payload except =
    if is_excepted except to
    then broadcast_to s tos msg_id payload except
    else sync_send_msg s to msg_id payload ++ broadcast_to s tos msg_id payload except

abbrev pub broadcast_sync_msg : NatServer → ℕ → Bytes → Option Sockaddr → List Datagram
broadcast_sync_msg s msg_id payload except = broadcast_to s s.sync_addrs msg_id payload except

unfoldable pub decimal_digits : ℕ → ℕ → Bytes → Bytes
decimal_digits zero n acc = acc
decimal_digits (suc fuel) n acc =
    let more = decimal_digits fuel (n / 10) ((48 + n % 10) ∷ acc) in
    if ltb n 10 then (48 + n) ∷ acc else more

-- `%u` of a 32-bit number, which has ten digits at most.
abbrev pub decimal : ℕ → Bytes
decimal n = decimal_digits 10 n []

-- `ntohl(s_addr)`, the address with its first octet the highest.
abbrev pub host_order : ℕ → ℕ
host_order a =
    a % 256 * 2 ^ 24 + a / 2 ^ 8 % 256 * 2 ^ 16 + a / 2 ^ 16 % 256 * 2 ^ 8 + a / 2 ^ 24 % 256

-- `"%s|%u|%u:%u"`
unfoldable pub seen_key : Bytes → ℕ → Sockaddr → Bytes
seen_key uuid hb_time from =
    uuid
    ++ b'|' ∷ decimal hb_time
    ++ b'|' ∷ decimal (host_order from.addr)
    ++ b':' ∷ decimal from.port

unfoldable pub is_recent : ℕ → Option ℕ → Bool
is_recent now none = false
is_recent now (some t) = ltb now (t + 300)

unfoldable pub noted : ℕ → Map Bytes ℕ → Map Bytes ℕ
noted now m = if ltb 16384 (length m) then retain (λ k t. ltb now (t + 300)) m else m

unfoldable pub seen_sync_entry : NatServer → Bytes → ℕ → Sockaddr → ℕ → NatServer × Bool
seen_sync_entry s uuid hb_time from now =
    let key = seen_key uuid hb_time from in
    if is_recent now (find key s.sync_seen)
    then (s, true)
    else (record s { sync_seen = noted now (insert key now s.sync_seen) }, false)

abbrev pub entry_of : Peer → ℕ → SyncPeerEntry
entry_of p hop = record {
  uuid = p.uuid;
  pub_ip = inet_ntop p.pub_addr.addr;
  pub_port = p.pub_addr.port;
  lan_ip = inet_ntop p.lan_addr.addr;
  lan_port = p.lan_addr.port;
  dev_type = p.dev_type;
  nattype = p.nattype;
  hop = hop;
  reserved = 0;
  hb_time = p.last_heartbeat % 2 ^ 32;
  extlen = p.extlen;
}

unfoldable pub send_peer_entry : NatServer → Sockaddr → Peer → ℕ → List Datagram
send_peer_entry s to p hop = sync_send_msg s to msg_sync_peer_entry (
    sync_peer_entry_bytes (entry_of p hop)
    ++ (if leb p.extlen max_extinfo then take p.extlen p.extinfo else []))

unfoldable pub send_to_all : NatServer → List Sockaddr → Peer → List Datagram
send_to_all s [] p = []
send_to_all s (to ∷ tos) p = send_peer_entry s to p 1 ++ send_to_all s tos p

-- Nothing else of the peer is sent, so the other fields are 0 here.
unfoldable pub broadcast_peer_entry : NatServer → UuidReq → Bytes → Sockaddr → ℕ → List Datagram
broadcast_peer_entry s req extinfo from now =
    if not (sync_enabled s)
    then []
    else send_to_all s s.sync_addrs (record {
      uuid = req.uuid;
      pub_addr = from;
      lan_addr = record from { port = req.lan_port };
      dev_type = req.dev_type;
      nattype = req.nattype;
      last_heartbeat = now;
      register_time = 0;
      auth_expire = 0;
      extlen = length extinfo % 2 ^ 16;
      extinfo = extinfo;
    })

-- The address that `inet_pton` writes, or what was there before.
unfoldable pub pton_or : ℕ → Bytes → ℕ
pton_or old text = elim (inet_pton text) [ none ↦ old | some a ↦ a ]

abbrev pub report_of : SyncPeerEntry → Bytes → Report
report_of e extinfo =
    let a = pton_or 0 e.pub_ip in
    record {
      pub_addr = record { addr = a; port = e.pub_port };
      lan_addr = record { addr = pton_or a e.lan_ip; port = e.lan_port };
      dev_type = e.dev_type;
      nattype = e.nattype;
      extinfo = extinfo;
    }

-- The entry as it is forwarded, one hop further.
abbrev pub next_hop : Bytes → ℕ → Bytes
next_hop entry hop = set (set entry 32 0) 71 (hop + 1)

-- The forwarded message is `sizeof(f) + extinfo.size()` bytes from the start of `f`, a copy of the
-- entry alone: behind it come the bytes `beyond` that lie there in memory.
unfoldable pub forward_entry : NatServer → Bytes → ℕ → Bytes → Bytes → Sockaddr → List Datagram
forward_entry s entry hop extinfo beyond from =
    if not (hop == sync_hop_snap) && ltb hop sync_hop_max
    then broadcast_sync_msg s msg_sync_peer_entry
        (next_hop entry hop ++ take (length extinfo) beyond) (some from)
    else []

unfoldable pub store_entry : NatServer → SyncPeerEntry → Bytes → NatServer
store_entry s e extinfo = record s {
  peers = (upsert_synced s.peers e.uuid (report_of e extinfo) e.hb_time).0;
}

unfoldable pub handle_sync_entry : NatServer → Bytes → Bytes → Bytes → Sockaddr → ℕ → Outcome
handle_sync_entry s entry extinfo beyond from now =
    let e = read_sync_peer_entry entry in
    if not (sync_enabled s) || is_empty e.uuid
    then (s, [])
    else if e.hop == sync_hop_snap
    then (store_entry s e extinfo, forward_entry s entry e.hop extinfo beyond from)
    else let (s', seen) = seen_sync_entry s e.uuid e.hb_time from now in
      if seen
      then (s', [])
      else (store_entry s' e extinfo, forward_entry s' entry e.hop extinfo beyond from)

unfoldable pub handle_sync_del : NatServer → Bytes → Sockaddr → Outcome
handle_sync_del s uuid from = if not (sync_enabled s) then (s, []) else (
  record s { peers = (remove s.peers uuid).0 },
  broadcast_sync_msg s msg_sync_peer_del (uuid_field uuid) (some from),
)

unfoldable pub send_snapshot : NatServer → Sockaddr → List Peer → List Datagram
send_snapshot s to [] = []
send_snapshot s to (p ∷ ps) = send_peer_entry s to p sync_hop_snap ++ send_snapshot s to ps

unfoldable pub handle_sync_snapshot_req : NatServer → Sockaddr → List Datagram
handle_sync_snapshot_req s from =
    if not (sync_enabled s) then [] else send_snapshot s from (snapshot s.peers)

unfoldable pub request_sync_snapshot : NatServer → ℕ → List Datagram
request_sync_snapshot s now =
    if not (sync_enabled s)
    then []
    else broadcast_sync_msg s msg_sync_snapshot_req (be32 (now % 2 ^ 32)) none
