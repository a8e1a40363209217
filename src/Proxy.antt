-- ===== src/Proxy.antt =====
-- server/proxyserver/src/P2PProxy.cpp: the relay. `time(nullptr)` is an argument of each call; the
-- tables are changed under one lock, so a call is one step.
pub mod Tables
pub mod Register
pub mod Relay
pub mod Timer
use p2p_server.Prelude.{
  ℕ, zero, suc, ◌+◌, ◌-◌, ◌%◌, ◌^◌, ◌==◌, ltb, leb, if◌then◌else◌, Bool, true, false, not, ◌&&◌,
  ◌||◌, List, [], ◌∷◌, ◌++◌, Option, none, some, Bytes, bytes_eq, length, set, codes, is_empty,
}
use p2p_server.Prelude.Maps.{Map, find, contains, put, erase, retain, nat_key, bytes_key}
use p2p_server.ProtoDef.{
  msg_proxy_register_req, msg_proxy_register_rsp, msg_proxy_unregister_req, msg_proxy_relay_data,
  msg_proxy_punch_helper, msg_sp_ask_extinfo_req, msg_sp_ask_extinfo_rsp,
}
use p2p_server.ProtoDef.Requests.{
  ProxyRegReq, size_of_proxy_reg_req, read_proxy_reg_req, size_of_relay_frame, RelayFrame,
  read_relay_frame, ProxyAvailRsp,
}
use p2p_server.ProtoDef.Replies.{ProxyRegRsp, proxy_reg_rsp_bytes, proxy_avail_rsp_bytes}
use p2p_server.Util.{Sockaddr, addr_to_u64, sockaddr_eq, inet_ntop}
use p2p_server.Crypto.Hmac.{hmac_sha256}
use p2p_server.Net.{Datagram, send_msg, open_packet}

pub record PathInfo : Type 0 where
  pub dst : Sockaddr
  pub count : ℕ
  pub uuid : Bytes
  pub last_active : ℕ

pub record UuidEntry : Type 0 where
  pub addr : Sockaddr
  pub last_reg : ℕ

pub record Proxy : Type 0 where
  pub max_proxy : ℕ
  pub uuid2addr : Map Bytes UuidEntry
  pub addr2uuid : Map ℕ Bytes
  pub srcpaths : Map ℕ (Map ℕ PathInfo)
  pub relay_pkts : ℕ
  pub relay_bytes : ℕ

abbrev pub reg_ttl : ℕ
reg_ttl = 120

abbrev pub proxy_auth_key : Bytes
proxy_auth_key = codes "p2p-proxy-auth-2024"

-- A call's result: the new state and the datagrams sent.
abbrev pub Outcome : Type 0
Outcome = Proxy × List Datagram

unfoldable pub register_rsp : Bool → Sockaddr → ProxyRegRsp → List Datagram
register_rsp with_rsp from rsp =
    if with_rsp then send_msg from msg_proxy_register_rsp (proxy_reg_rsp_bytes rsp) else []

-- The answer that carries a code and a zeroed address.
abbrev pub refusal : ℕ → ProxyRegRsp
refusal result = record { result = result; pub_ip = []; pub_port = 0 }

abbrev pub granted : Sockaddr → ProxyRegRsp
granted from = record { result = 0; pub_ip = inet_ntop from.addr; pub_port = from.port }

-- `if (ait != end && ait->second != uuid) uuid2addr_.erase(ait->second)`
unfoldable pub clear_old : Bytes → Option Bytes → Map Bytes UuidEntry → Map Bytes UuidEntry
clear_old uuid none m = m
clear_old uuid (some old) m = if bytes_eq old uuid then m else erase old m

-- The tables after an admitted registration.
unfoldable pub enter : Proxy → Bytes → Sockaddr → ℕ → Proxy
enter s uuid from now =
    let key = addr_to_u64 from in
    record s {
      uuid2addr =
          put uuid (record { addr = from; last_reg = now })
            (clear_old uuid (find key s.addr2uuid) s.uuid2addr);
      addr2uuid = put key uuid s.addr2uuid;
    }

unfoldable pub is_authentic : Bytes → Option Bytes → Bool
is_authentic uuid none = false
is_authentic uuid (some mac) = bytes_eq (hmac_sha256 proxy_auth_key uuid) mac

unfoldable pub is_full : Proxy → Bytes → Bool
is_full s uuid = leb s.max_proxy (length s.uuid2addr) && not (contains uuid s.uuid2addr)

unfoldable pub do_register : Proxy → Bytes → Sockaddr → Bool → Option Bytes → ℕ → Outcome
do_register s uuid from with_rsp hmac now =
    if is_empty uuid
    then (s, register_rsp with_rsp from (refusal 2))
    else if not (is_authentic uuid hmac)
    then (s, register_rsp with_rsp from (refusal 3))
    else if is_full s uuid
    then (s, register_rsp with_rsp from (refusal 1))
    else (enter s uuid from now, register_rsp with_rsp from (granted from))

-- `for (auto& kv : srcpaths_) kv.second.erase(ua)`
unfoldable pub erase_target : ℕ → Map ℕ (Map ℕ PathInfo) → Map ℕ (Map ℕ PathInfo)
erase_target ua [] = []
erase_target ua ((src, paths) ∷ m) = (src, erase ua paths) ∷ erase_target ua m

unfoldable pub unregister : Proxy → Bytes → Sockaddr → Proxy
unregister s uuid from = elim (find uuid s.uuid2addr) [
  | none ↦ s
  | some e ↦
      let ua = addr_to_u64 e.addr in
      if sockaddr_eq e.addr from
      then record s {
        addr2uuid = erase ua s.addr2uuid;
        srcpaths = erase_target ua (erase ua s.srcpaths);
        uuid2addr = erase uuid s.uuid2addr;
      }
      else s
]

-- A path that is there is renewed, a missing one is made, with the count 3.
unfoldable pub touch_path : ℕ → Sockaddr → Bytes → ℕ → Map ℕ PathInfo → Map ℕ PathInfo
touch_path key dst uuid now paths = elim (find key paths) [
  | none ↦ put key (record { dst = dst; count = 3; uuid = uuid; last_active = now }) paths
  | some pi ↦ put key (record pi { count = 3; last_active = now }) paths
]

-- `srcpaths_[src]`, an empty table if there is none.
unfoldable pub paths_of : ℕ → Map ℕ (Map ℕ PathInfo) → Map ℕ PathInfo
paths_of src m = elim (find src m) [ none ↦ [] | some paths ↦ paths ]

unfoldable pub relay_paths : Proxy → RelayFrame → Sockaddr → Sockaddr → ℕ → Proxy
relay_paths s frame from dst now =
    let src_key = addr_to_u64 from in
    let dst_key = addr_to_u64 dst in
    let there =
      put src_key (touch_path dst_key dst frame.dst_uuid now (paths_of src_key s.srcpaths))
        s.srcpaths in
    record s {
      srcpaths =
          put dst_key (touch_path src_key from frame.src_uuid now (paths_of dst_key there)) there;
    }

-- The payload with the last byte of both uuids set to 0, as it is forwarded.
abbrev pub terminated : Bytes → Bytes
terminated p = set (set p 32 0) 65 0

unfoldable pub relay : Proxy → Bytes → Sockaddr → ℕ → Outcome
relay s p from now =
    let frame = read_relay_frame p in
    elim (find frame.dst_uuid s.uuid2addr) [
      | none ↦ (s, [])
      | some e ↦ (
        record (relay_paths s frame from e.addr now) {
          relay_pkts = (s.relay_pkts + 1) % 2 ^ 64;
          relay_bytes = (s.relay_bytes + length p) % 2 ^ 64;
        },
        send_msg e.addr msg_proxy_relay_data (terminated p),
      )
    ]

unfoldable pub punch_answer : Option UuidEntry → ProxyRegRsp
punch_answer none = refusal 1
punch_answer (some e) = granted e.addr

unfoldable pub punch_helper : Proxy → Bytes → Sockaddr → List Datagram
punch_helper s p from =
    send_msg from msg_proxy_register_rsp
      (proxy_reg_rsp_bytes (punch_answer (find (read_relay_frame p).dst_uuid s.uuid2addr)))

unfoldable pub availability : Proxy → ProxyAvailRsp
availability s = record {
  available = if ltb (length s.uuid2addr) s.max_proxy then 1 else 0;
  used = length s.uuid2addr % 2 ^ 16;
  max_proxy = s.max_proxy;
}

-- The switch of `handle`.
unfoldable pub dispatch : Proxy → ℕ → Bytes → Sockaddr → ℕ → Outcome
dispatch s msg_id p from now =
    if msg_id == msg_proxy_register_req
    then (let req = read_proxy_reg_req p in
        if ltb (length p) size_of_proxy_reg_req
        then (s, [])
        else do_register s req.uuid from true (some req.hmac) now)
    else if msg_id == msg_proxy_unregister_req
    then (
      unregister s
          (if leb size_of_proxy_reg_req (length p) then (read_proxy_reg_req p).uuid else []) from,
      [],
    )
    else if msg_id == msg_proxy_relay_data
    then (if ltb (length p) size_of_relay_frame then (s, []) else relay s p from now)
    else if msg_id == msg_proxy_punch_helper
    then (if ltb (length p) size_of_relay_frame then (s, []) else (s, punch_helper s p from))
    else if msg_id == msg_sp_ask_extinfo_req
    then (s, send_msg from msg_sp_ask_extinfo_rsp (proxy_avail_rsp_bytes (availability s)))
    else (s, [])

unfoldable pub handle : Proxy → Bytes → Sockaddr → ℕ → Outcome
handle s input from now = elim (open_packet input) [
  | none ↦ (s, [])
  | some (msg_id, p) ↦ dispatch s msg_id p from now
]

-- One round of `timer_loop`: every path loses one count.
unfoldable pub decay_paths : ℕ → Map ℕ PathInfo → Map ℕ PathInfo
decay_paths now [] = []
decay_paths now ((dst, pi) ∷ m) =
    let count = pi.count - 1 in
    if count == 0 || ltb (pi.last_active + reg_ttl) now
    then decay_paths now m
    else (dst, record pi { count = count }) ∷ decay_paths now m

unfoldable pub decay_sources : ℕ → Map ℕ (Map ℕ PathInfo) → Map ℕ (Map ℕ PathInfo)
decay_sources now [] = []
decay_sources now ((src, paths) ∷ m) =
    let left = decay_paths now paths in
    if is_empty left then decay_sources now m else (src, left) ∷ decay_sources now m

abbrev pub is_fresh : ℕ → Bytes → UuidEntry → Bool
is_fresh now uuid e = not (ltb (e.last_reg + reg_ttl) now)

-- The keys of the registrations that run out.
unfoldable pub dead_keys : ℕ → Map Bytes UuidEntry → List ℕ
dead_keys now [] = []
dead_keys now ((uuid, e) ∷ m) =
    if is_fresh now uuid e then dead_keys now m else addr_to_u64 e.addr ∷ dead_keys now m

unfoldable pub erase_all : List ℕ → Map ℕ Bytes → Map ℕ Bytes
erase_all [] m = m
erase_all (k ∷ ks) m = erase_all ks (erase k m)

unfoldable pub timer_round : Proxy → ℕ → Proxy
timer_round s now = record s {
  srcpaths = decay_sources now s.srcpaths;
  uuid2addr = retain (is_fresh now) s.uuid2addr;
  addr2uuid = erase_all (dead_keys now s.uuid2addr) s.addr2uuid;
}
