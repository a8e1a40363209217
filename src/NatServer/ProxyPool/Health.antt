-- ===== src/NatServer/ProxyPool/Health.antt =====
-- server/natserver/src/NatServer.cpp, `pick_proxy`: how many candidates there are, and which.
use p2p_server.Prelude.{
  ℕ, zero, suc, ◌+◌, ◌≤◌, ◌≡◌, refl, false, ◌||◌, List, [], ◌∷◌, ◌++◌, Bytes, bytes_eq,
  bytes_eq_iff, length, take, take_all, length-take, length-append, get_or, arith, All,
}
use p2p_server.ProtoDef.Replies.{ProxyCandidate}
use p2p_server.NatServer.{NatServer, ProxyHealth}
use p2p_server.NatServer.ProxyPool.{is_dup, candidate, or_dup, draw, fill, healthy_ips, pick_proxy}

-- No address stands twice.
abbrev pub Distinct : List ProxyCandidate → Type 0
Distinct [] = Unit
Distinct (c ∷ cs) = (is_dup c.ip cs ≡ false) × Distinct cs

-- An address of at most 15 bytes, as every dotted one is.
abbrev pub IsShort : Bytes → Type 0
IsShort ip = length ip ≤ 15

is_dup-snoc :
    (ip : Bytes) (cs : List ProxyCandidate) (c : ProxyCandidate)
    → is_dup ip (cs ++ c ∷ []) ≡ (is_dup ip cs || bytes_eq ip c.ip)
unfolding is_dup
is_dup-snoc ip [] c = ground arith
is_dup-snoc ip (d ∷ cs) c = ground (arith, is_dup-snoc ip cs c)

snoc-Distinct :
    (cs : List ProxyCandidate) (c : ProxyCandidate)
    → Distinct cs
    → is_dup c.ip cs ≡ false
    → Distinct (cs ++ c ∷ [])
unfolding is_dup
snoc-Distinct [] c h n = (refl, tt)
snoc-Distinct (d ∷ cs) c h n = ground (
  arith,
  is_dup-snoc d.ip cs c,
  snoc-Distinct cs c h.1,
  bytes_eq_iff c.ip d.ip,
  bytes_eq_iff d.ip c.ip,
)

or_dup-Distinct :
    (s : NatServer) (ip : Bytes) (out : List ProxyCandidate)
    → IsShort ip
    → Distinct out
    → Distinct (or_dup s ip out)
or_dup-Distinct s ip out short h =
    ground (arith, snoc-Distinct out (candidate s ip) h, take_all 15 ip short)

or_dup-length :
    (s : NatServer) (ip : Bytes) (out : List ProxyCandidate)
    → length (or_dup s ip out) ≤ suc (length out)
or_dup-length s ip out = ground (arith, length-append out (candidate s ip ∷ []))

get_or-IsShort : (ips : List Bytes) (i : ℕ) → All IsShort ips → IsShort (get_or ips i [])
get_or-IsShort [] i h = omega arith
get_or-IsShort (ip ∷ ips) zero h = h.0
get_or-IsShort (ip ∷ ips) (suc i) h = get_or-IsShort ips i h.1

draw-Distinct :
    (s : NatServer) (ips : List Bytes) (draws : List ℕ) (out : List ProxyCandidate)
    → All IsShort ips
    → Distinct out
    → Distinct (draw s ips draws out) × (length (draw s ips draws out) ≤ length out + length draws)
unfolding draw
draw-Distinct s ips [] out short h = (h, omega arith)
draw-Distinct s ips (i ∷ draws) out short h =
    let ip = get_or ips i [] in
    let d = or_dup-Distinct s ip out (get_or-IsShort ips i short) h in
    ground (
      arith,
      draw-Distinct s ips draws out short h,
      draw-Distinct s ips draws (or_dup s ip out) short d,
      or_dup-length s ip out,
    )

fill-Distinct :
    (s : NatServer) (ips : List Bytes) (out : List ProxyCandidate)
    → All IsShort ips
    → Distinct out
    → length out ≤ 3
    → Distinct (fill s ips out) × (length (fill s ips out) ≤ 3)
unfolding fill
fill-Distinct s [] out short h n = (h, n)
fill-Distinct s (ip ∷ ips) out short h n = ground (
  arith,
  fill-Distinct s ips (or_dup s ip out) short.1 (or_dup-Distinct s ip out short.0 h),
  or_dup-length s ip out,
)

healthy-IsShort :
    (now : ℕ) (hs : List ProxyHealth)
    → All (λ (h : ProxyHealth). IsShort h.ip) hs
    → All IsShort (healthy_ips now hs)
unfolding healthy_ips
healthy-IsShort now [] a = tt
healthy-IsShort now (h ∷ hs) a = ground (arith, healthy-IsShort now hs a.1)

-- Whatever the weighted draws give, a reply names at most three proxies, which is what its array
-- holds, and none of them twice.
pub pick_proxy-Distinct :
    (s : NatServer) (draws : List ℕ) (now : ℕ)
    → All IsShort s.cfg.proxy_ips
    → All (λ (h : ProxyHealth). IsShort h.ip) s.proxy_health
    → Distinct (pick_proxy s draws now) × (length (pick_proxy s draws now) ≤ 3)
unfolding pick_proxy
pick_proxy-Distinct s draws now cfg health =
    let ips = healthy_ips now s.proxy_health in
    let (d, n) =
      draw-Distinct s ips (take 3 draws) [] (healthy-IsShort now s.proxy_health health) tt in
    fill-Distinct s s.cfg.proxy_ips (draw s ips (take 3 draws) []) cfg d
      (omega (arith, n, length-take 3 draws))
