-- ===== src/PeerManage.antt =====
-- server/natserver/src/PeerManage.{h,cpp}: the table of peers that are online and the table of
-- logins. `time(nullptr)` is the argument `now`; each call holds the lock, so it is one step.
pub mod Table
pub mod Lookup
pub mod Expiry
use p2p_server.Prelude.{
  ℕ, ◌+◌, ◌%◌, ◌^◌, ◌==◌, ltb, leb, if◌then◌else◌, Bool, true, false, not, ◌&&◌, ◌||◌, List, [],
  ◌∷◌, Option, none, some, Bytes, length, is_empty,
}
use p2p_server.Prelude.Maps.{Map, find, contains, insert, erase, retain, bytes_key}
use p2p_server.ProtoDef.{max_uuid_len, max_extinfo}
use p2p_server.Util.{Sockaddr}

pub record Peer : Type 0 where
  pub uuid : Bytes
  pub pub_addr : Sockaddr
  pub lan_addr : Sockaddr
  pub dev_type : ℕ
  pub nattype : ℕ
  pub last_heartbeat : ℕ
  pub register_time : ℕ
  pub auth_expire : ℕ
  pub extlen : ℕ
  pub extinfo : Bytes

pub record PeerManager : Type 0 where
  pub peers : Map Bytes Peer
  pub auth_sessions : Map Bytes ℕ

abbrev pub new_manager : PeerManager
new_manager = record { peers = []; auth_sessions = [] }

-- What a heartbeat reports of a peer.
pub record Report : Type 0 where
  pub pub_addr : Sockaddr
  pub lan_addr : Sockaddr
  pub dev_type : ℕ
  pub nattype : ℕ
  pub extinfo : Bytes

-- The extension info after a report: one that is too long does not replace the old one.
unfoldable pub extinfo_after : Bytes → Bytes → Bytes
extinfo_after old new = if leb (length new) max_extinfo then new else old

unfoldable pub fresh_peer : Bytes → Report → ℕ → ℕ → Peer
fresh_peer uuid r time expire =
    let ext = extinfo_after [] r.extinfo in
    record {
      uuid = uuid;
      pub_addr = r.pub_addr;
      lan_addr = r.lan_addr;
      dev_type = r.dev_type;
      nattype = r.nattype;
      last_heartbeat = time;
      register_time = time;
      auth_expire = expire;
      extlen = length ext % 2 ^ 16;
      extinfo = ext;
    }

unfoldable pub renewed_peer : Peer → Report → ℕ → Peer
renewed_peer p r time =
    let ext = extinfo_after p.extinfo r.extinfo in
    record p {
      pub_addr = r.pub_addr;
      lan_addr = r.lan_addr;
      dev_type = r.dev_type;
      nattype = r.nattype;
      last_heartbeat = time;
      extinfo = ext;
      extlen = length ext % 2 ^ 16;
    }

abbrev pub is_uuid : Bytes → Bool
is_uuid uuid = not (is_empty uuid || ltb max_uuid_len (length uuid))

unfoldable pub upserted : Bytes → Report → ℕ → Option Peer → Peer
upserted uuid r now none = fresh_peer uuid r now 0
upserted uuid r now (some p) = renewed_peer p r now

unfoldable pub upsert : PeerManager → Bytes → Report → ℕ → PeerManager × Bool
upsert s uuid r now =
    if is_uuid uuid
    then (record s { peers = insert uuid (upserted uuid r now (find uuid s.peers)) s.peers }, true)
    else (s, false)

-- A peer announced by another server counts as logged in for an hour from its heartbeat there.
unfoldable pub synced : Bytes → Report → ℕ → Option Peer → Peer
synced uuid r hb_time none = fresh_peer uuid r hb_time (hb_time + 3600)
synced uuid r hb_time (some p) = record (renewed_peer p r hb_time) { auth_expire = hb_time + 3600 }

unfoldable pub upsert_synced : PeerManager → Bytes → Report → ℕ → PeerManager × Bool
upsert_synced s uuid r hb_time =
    if is_uuid uuid
    then (
      record s { peers = insert uuid (synced uuid r hb_time (find uuid s.peers)) s.peers },
      true,
    )
    else (s, false)

unfoldable pub remove : PeerManager → Bytes → PeerManager × Bool
remove s uuid = (record s { peers = erase uuid s.peers }, contains uuid s.peers)

unfoldable pub exists : PeerManager → Bytes → Bool
exists s uuid = contains uuid s.peers

unfoldable pub get : PeerManager → Bytes → Option Peer
get s uuid = find uuid s.peers

unfoldable pub set_expire : ℕ → Bytes → Option Peer → Map Bytes Peer → Map Bytes Peer
set_expire expire uuid none m = m
set_expire expire uuid (some p) m = insert uuid (record p { auth_expire = expire }) m

unfoldable pub set_auth_expire : PeerManager → Bytes → ℕ → PeerManager
set_auth_expire s uuid expire = record {
  auth_sessions = insert uuid expire s.auth_sessions;
  peers = set_expire expire uuid (find uuid s.peers) s.peers;
}

-- An expiry time that lies in the future.
unfoldable pub lasts : ℕ → Option ℕ → Bool
lasts now none = false
lasts now (some expire) = ltb now expire

unfoldable pub peer_lasts : ℕ → Option Peer → Bool
peer_lasts now none = false
peer_lasts now (some p) = ltb now p.auth_expire

unfoldable pub authed : PeerManager → Bytes → ℕ → Bool
authed s uuid now = lasts now (find uuid s.auth_sessions) || peer_lasts now (find uuid s.peers)

unfoldable pub cleanup_auth_sessions : PeerManager → ℕ → PeerManager
cleanup_auth_sessions s now = record s {
  auth_sessions = retain (λ u expire. not (leb expire now)) s.auth_sessions;
}

-- `now - last_heartbeat > timeout_sec` of signed times, without the subtraction.
abbrev pub is_online : ℕ → ℕ → Peer → Bool
is_online now timeout p = not (ltb (p.last_heartbeat + timeout) now)

unfoldable pub cleanup_timeout : PeerManager → ℕ → ℕ → PeerManager
cleanup_timeout s timeout now = record s { peers = retain (λ u p. is_online now timeout p) s.peers }

unfoldable pub collect : ℕ → ℕ → Map Bytes Peer → List Bytes
collect now timeout [] = []
collect now timeout ((uuid, p) ∷ m) =
    if is_online now timeout p then collect now timeout m else uuid ∷ collect now timeout m

unfoldable pub cleanup_timeout_and_collect : PeerManager → ℕ → ℕ → PeerManager × List Bytes
cleanup_timeout_and_collect s timeout now =
    (cleanup_timeout s timeout now, collect now timeout s.peers)

unfoldable pub count_peers : (Peer → Bool) → Map Bytes Peer → ℕ
count_peers p [] = 0
count_peers p ((u, e) ∷ m) = if p e then 1 + count_peers p m else count_peers p m

unfoldable pub device_count : PeerManager → ℕ
device_count s = count_peers (λ p. p.dev_type == 1) s.peers

unfoldable pub client_count : PeerManager → ℕ
client_count s = count_peers (λ p. p.dev_type == 2) s.peers

unfoldable pub authed_count : PeerManager → ℕ → ℕ
authed_count s now = count_peers (λ p. ltb now p.auth_expire) s.peers

unfoldable pub peers_of : Map Bytes Peer → List Peer
peers_of [] = []
peers_of ((u, p) ∷ m) = p ∷ peers_of m

abbrev pub snapshot : PeerManager → List Peer
snapshot s = peers_of s.peers

abbrev pub clear : PeerManager → PeerManager
clear s = record s { peers = [] }
