-- ===== src/Proxy/Relay.antt =====
-- server/proxyserver/src/P2PProxy.cpp: relayed data.
use p2p_server.Prelude.{
  ℕ, ◌==◌, if◌then◌else◌, ◌≡◌, ◌≢◌, refl, sym, some, Bytes, arith, Option-cases, inl, inr,
}
use p2p_server.Prelude.Maps.{Map, find, put, nat_key, bytes_key, find-put}
use p2p_server.ProtoDef.{msg_proxy_relay_data}
use p2p_server.ProtoDef.Requests.{read_relay_frame}
use p2p_server.Util.{Sockaddr, addr_to_u64}
use p2p_server.Net.{send_msg}
use p2p_server.Proxy.{
  Proxy, PathInfo, UuidEntry, enter, relay, relay_paths, touch_path, paths_of, terminated,
}
use p2p_server.Proxy.Register.{find-enter}

find-touch :
    (key : ℕ) (dst : Sockaddr) (uuid : Bytes) (now : ℕ) (m : Map ℕ PathInfo)
    → (pi : PathInfo) × (find key (touch_path key dst uuid now m) ≡ some pi)
      × (pi.count ≡ 3)
      × (pi.last_active ≡ now)
unfolding touch_path
find-touch key dst uuid now m = elim (Option-cases (find key m)) [
  | inl e ↦
      let pi : PathInfo = record { dst = dst; count = 3; uuid = uuid; last_active = now } in
      (pi, rw (e, touch_path) (ground (arith, find-put key key pi m)), refl, refl)
  | inr (old, e) ↦
      let pi : PathInfo = record old { count = 3; last_active = now } in
      (pi, rw (e, touch_path) (ground (arith, find-put key key pi m)), refl, refl)
]

paths_of-put :
    (src j : ℕ) (paths : Map ℕ PathInfo) (m : Map ℕ (Map ℕ PathInfo))
    → paths_of j (put src paths m) ≡ (if src == j then paths else paths_of j m)
unfolding paths_of
paths_of-put src j paths m = ground (arith, find-put src j paths m)

abbrev pub IsRenewed : ℕ → ℕ → ℕ → Map ℕ (Map ℕ PathInfo) → Type 0
IsRenewed src dst now m =
    (pi : PathInfo) × (find dst (paths_of src m) ≡ some pi)
    × (pi.count ≡ 3)
    × (pi.last_active ≡ now)

put-IsRenewed :
    (src dst now : ℕ) (paths : Map ℕ PathInfo) (m : Map ℕ (Map ℕ PathInfo)) (pi : PathInfo)
    → find dst paths ≡ some pi
    → pi.count ≡ 3
    → pi.last_active ≡ now
    → IsRenewed src dst now (put src paths m)
put-IsRenewed src dst now paths m pi found three at =
    (pi, ground (arith, paths_of-put src src paths m), three, at)

keeps-IsRenewed :
    (src other dst now : ℕ) (paths : Map ℕ PathInfo) (m : Map ℕ (Map ℕ PathInfo))
    → other ≢ src
    → IsRenewed src dst now m
    → IsRenewed src dst now (put other paths m)
keeps-IsRenewed src other dst now paths m n (pi, found, three, at) =
    (pi, ground (arith, paths_of-put other src paths m), three, at)

-- A relayed frame leaves a path from the sender to the registered address and one back, each with
-- the count 3 and the time of the frame, whatever paths there were.
pub relay_makes_both_paths :
    (s : Proxy) (p : Bytes) (from : Sockaddr) (now : ℕ) (e : UuidEntry)
    → find (read_relay_frame p).dst_uuid s.uuid2addr ≡ some e
    → addr_to_u64 from ≢ addr_to_u64 e.addr
    → let (s', sent) = relay s p from now in
      IsRenewed (addr_to_u64 from) (addr_to_u64 e.addr) now s'.srcpaths
      × IsRenewed (addr_to_u64 e.addr) (addr_to_u64 from) now s'.srcpaths
unfolding relay relay_paths
relay_makes_both_paths s p from now e found n =
    let frame = read_relay_frame p in
    let a = addr_to_u64 from in
    let b = addr_to_u64 e.addr in
    let there = touch_path b e.addr frame.dst_uuid now (paths_of a s.srcpaths) in
    let m = put a there s.srcpaths in
    let back = touch_path a from frame.src_uuid now (paths_of b m) in
    let (pi, one, two, three) = find-touch b e.addr frame.dst_uuid now (paths_of a s.srcpaths) in
    let (qi, one', two', three') = find-touch a from frame.src_uuid now (paths_of b m) in
    rw (found, relay)
      (
        keeps-IsRenewed a b b now back m (λ q. n (sym q))
            (put-IsRenewed a b now there s.srcpaths pi one two three),
        put-IsRenewed b a now back m qi one' two' three',
      )

-- Between two peers: once a uuid is registered, a frame for it goes to the address it registered
-- from.
pub relay_reaches_registered :
    (s : Proxy) (p : Bytes) (peer from : Sockaddr) (t now : ℕ)
    → (relay (enter s (read_relay_frame p).dst_uuid peer t) p from now).1
      ≡ send_msg peer msg_proxy_relay_data (terminated p)
unfolding relay
relay_reaches_registered s p peer from t now =
    rw ((find-enter s (read_relay_frame p).dst_uuid peer t).0, relay) refl
