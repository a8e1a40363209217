-- ===== src/AntiAbuse.antt =====
-- server/natserver/src/AntiAbuse.{h,cpp}: the flood window and the blacklists. `time(nullptr)` is
-- the argument `now`; each call holds the lock, so it is one step.
pub mod Flood
pub mod Blacklist
use p2p_server.Prelude.{
  ℕ, suc, ◌+◌, ◌%◌, ◌^◌, ◌==◌, ltb, leb, if◌then◌else◌, Bool, true, false, not, ◌||◌, List, [], ◌∷◌,
  ◌++◌, Option, none, some, Bytes, length, is_empty,
}
use p2p_server.Prelude.Maps.{Map, find, contains, put, insert, erase, retain, nat_key, bytes_key}
use p2p_server.Util.{Sockaddr, inet_ntop}

pub record AntiAbuse : Type 0 where
  pub flood_threshold : ℕ
  pub blacklist_sec : ℕ
  pub flood : Map ℕ (List ℕ)
  pub ip_black : Map ℕ ℕ
  pub uuid_black : Map Bytes ℕ
  pub dirty : Bool
  pub dropped_flood : ℕ

abbrev pub new_anti_abuse : AntiAbuse
new_anti_abuse = record {
  flood_threshold = 200;
  blacklist_sec = 60;
  flood = [];
  ip_black = [];
  uuid_black = [];
  dirty = false;
  dropped_flood = 0;
}

abbrev pub configure : AntiAbuse → ℕ → ℕ → AntiAbuse
configure s threshold sec = record s { flood_threshold = threshold; blacklist_sec = sec }

abbrev pub reset_dirty : AntiAbuse → AntiAbuse
reset_dirty s = record s { dirty = false }

-- `while (!dq.empty() && now - dq.front() >= 1) dq.pop_front()`
unfoldable pub drop_older : ℕ → List ℕ → List ℕ
drop_older now [] = []
drop_older now (t ∷ dq) = if ltb t now then drop_older now dq else t ∷ dq

-- `flood_[ip]`, empty if the address has none.
unfoldable pub arrivals : ℕ → Map ℕ (List ℕ) → List ℕ
arrivals ip m = elim (find ip m) [ none ↦ [] | some dq ↦ dq ]

-- The datagrams of the last second with this one.
unfoldable pub window : AntiAbuse → ℕ → ℕ → List ℕ
window s ip now = drop_older now (arrivals ip s.flood) ++ now ∷ []

unfoldable pub check_flood : AntiAbuse → Sockaddr → ℕ → AntiAbuse × Bool
check_flood s from now =
    let ip = from.addr in
    let dq = window s ip now in
    if contains ip s.ip_black
    then (s, true)
    else if ltb s.flood_threshold (length dq)
    then (
      record s {
        ip_black = put ip (now + s.blacklist_sec) s.ip_black;
        flood = put ip [] s.flood;
        dirty = true;
        dropped_flood = (s.dropped_flood + s.flood_threshold) % 2 ^ 64;
      },
      true,
    )
    else (record s { flood = put ip dq s.flood }, false)

-- An entry past its time is erased when it is asked for.
unfoldable pub is_ip_blacklisted_ip : AntiAbuse → ℕ → ℕ → AntiAbuse × Bool
is_ip_blacklisted_ip s ip now = elim (find ip s.ip_black) [
  | none ↦ (s, false)
  | some expire ↦
      if ltb expire now
      then (record s { ip_black = erase ip s.ip_black; dirty = true }, false)
      else (s, true)
]

unfoldable pub is_ip_blacklisted : AntiAbuse → Sockaddr → ℕ → AntiAbuse × Bool
is_ip_blacklisted s from now = is_ip_blacklisted_ip s from.addr now

unfoldable pub is_uuid_blacklisted : AntiAbuse → Bytes → ℕ → AntiAbuse × Bool
is_uuid_blacklisted s uuid now =
    if is_empty uuid then (s, false) else elim (find uuid s.uuid_black) [
      | none ↦ (s, false)
      | some expire ↦
          if ltb expire now
          then (record s { uuid_black = erase uuid s.uuid_black; dirty = true }, false)
          else (s, true)
    ]

unfoldable pub blacklist_ip : AntiAbuse → ℕ → ℕ → AntiAbuse
blacklist_ip s ip now = record s {
  ip_black = put ip (now + s.blacklist_sec) s.ip_black;
  dirty = true;
}

unfoldable pub blacklist_uuid : AntiAbuse → Bytes → ℕ → AntiAbuse
blacklist_uuid s uuid now = record s {
  uuid_black = put uuid (now + s.blacklist_sec) s.uuid_black;
  dirty = true;
}

unfoldable pub unblacklist_ip : AntiAbuse → ℕ → AntiAbuse
unblacklist_ip s ip =
    if contains ip s.ip_black then record s { ip_black = erase ip s.ip_black; dirty = true } else s

unfoldable pub unblacklist_uuid : AntiAbuse → Bytes → AntiAbuse
unblacklist_uuid s uuid =
    if contains uuid s.uuid_black
    then record s { uuid_black = erase uuid s.uuid_black; dirty = true }
    else s

-- The snapshot of the addresses, under their text.
unfoldable pub ip_texts : Map ℕ ℕ → Map Bytes ℕ → Map Bytes ℕ
ip_texts [] out = out
ip_texts ((ip, expire) ∷ m) out = ip_texts m (insert (inet_ntop ip) expire out)

unfoldable pub ip_blacklist_snapshot : AntiAbuse → Map Bytes ℕ
ip_blacklist_snapshot s = ip_texts s.ip_black []

unfoldable pub sorted_entries : Map Bytes ℕ → Map Bytes ℕ → Map Bytes ℕ
sorted_entries [] out = out
sorted_entries ((uuid, expire) ∷ m) out = sorted_entries m (insert uuid expire out)

unfoldable pub uuid_blacklist_snapshot : AntiAbuse → Map Bytes ℕ
uuid_blacklist_snapshot s = sorted_entries s.uuid_black []

abbrev pub is_live : ℕ → ℕ → Bool
is_live now expire = not (ltb expire now)

unfoldable pub sweep : AntiAbuse → ℕ → AntiAbuse
sweep s now =
    let ips = retain (λ ip expire. is_live now expire) s.ip_black in
    let uuids = retain (λ u expire. is_live now expire) s.uuid_black in
    record s {
      ip_black = ips;
      uuid_black = uuids;
      dirty =
          s.dirty
          || not (length ips == length s.ip_black)
          || not (length uuids == length s.uuid_black);
    }
