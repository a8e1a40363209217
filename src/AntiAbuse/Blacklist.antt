-- ===== src/AntiAbuse/Blacklist.antt =====
-- server/natserver/src/AntiAbuse.cpp: how long an entry of a blacklist holds.
use p2p_server.Prelude.{ℕ, ◌+◌, ◌≤◌, leb, ◌≡◌, ◌≢◌, false, Bytes, arith}
use p2p_server.Prelude.Maps.{put, nat_key, bytes_key, find-put, find-erase}
use p2p_server.Prelude.Unique.{Unique, find-retain}
use p2p_server.AntiAbuse.{
  AntiAbuse, is_ip_blacklisted_ip, is_uuid_blacklisted, blacklist_ip, unblacklist_ip, sweep,
  is_live,
}

-- An address that is blacklisted is so exactly until the configured time has passed, unless the
-- entry is removed before; the other addresses are as they were.
pub blacklisted_until :
    (s : AntiAbuse) (ip other t now : ℕ)
    → other ≢ ip
    → let s' = blacklist_ip s ip t in
      ((is_ip_blacklisted_ip s' ip now).1 ≡ leb now (t + s.blacklist_sec))
      × ((is_ip_blacklisted_ip s' other now).1 ≡ (is_ip_blacklisted_ip s other now).1)
      × ((is_ip_blacklisted_ip (unblacklist_ip s' ip) ip now).1 ≡ false)
unfolding blacklist_ip is_ip_blacklisted_ip unblacklist_ip
blacklisted_until s ip other t now n =
    let m = put ip (t + s.blacklist_sec) s.ip_black in
    (
      ground (arith, find-put ip ip (t + s.blacklist_sec) s.ip_black),
      ground (arith, find-put ip other (t + s.blacklist_sec) s.ip_black),
      ground (arith, find-put ip ip (t + s.blacklist_sec) s.ip_black, find-erase ip ip m),
    )

-- The sweep of lists with no key twice removes only what has run out: from then on every question
-- about an address or a uuid has the answer it would have had without it.
pub blacklisted-sweep :
    (s : AntiAbuse) (ip : ℕ) (uuid : Bytes) (now later : ℕ)
    → Unique s.ip_black
    → Unique s.uuid_black
    → now ≤ later
    → ((is_ip_blacklisted_ip (sweep s now) ip later).1 ≡ (is_ip_blacklisted_ip s ip later).1)
      × ((is_uuid_blacklisted (sweep s now) uuid later).1 ≡ (is_uuid_blacklisted s uuid later).1)
unfolding sweep is_ip_blacklisted_ip is_uuid_blacklisted
blacklisted-sweep s ip uuid now later ui uu h = (
  ground (arith, find-retain (λ i expire. is_live now expire) ip s.ip_black ui),
  ground (arith, find-retain (λ u expire. is_live now expire) uuid s.uuid_black uu),
)
