-- ===== src/NatServer/ProxyPool.antt =====
-- server/natserver/src/NatServer.cpp: the health of the proxies and the candidates for a connection.
-- The weights are floating-point numbers; which healthy proxy a weighted draw gives is an argument.
pub mod Health
use p2p_server.Prelude.{
  ℕ, zero, suc, ◌+◌, ◌==◌, ltb, leb, if◌then◌else◌, Bool, true, false, not, ◌&&◌, ◌||◌, List, [],
  ◌∷◌, ◌++◌, Bytes, bytes_eq, length, is_empty, take, get_or,
}
use p2p_server.ProtoDef.Requests.{ProxyAvailRsp}
use p2p_server.ProtoDef.Replies.{ProxyCandidate}
use p2p_server.Util.{Sockaddr, inet_ntop}
use p2p_server.NatServer.{NatServer, ProxyHealth}

abbrev pub reported : ProxyHealth → ProxyAvailRsp → ℕ → ProxyHealth
reported h rsp now = record h {
  available = rsp.available;
  used = rsp.used;
  max_proxy = rsp.max_proxy;
  last_seen = now;
  down = 0;
}

-- The entry of the proxy is renewed, or one is added at the end.
unfoldable pub collect_in : Bytes → ℕ → ProxyAvailRsp → ℕ → List ProxyHealth → List ProxyHealth
collect_in ip port rsp now [] =
    record {
      ip = ip;
      port = port;
      available = rsp.available;
      used = rsp.used;
      max_proxy = rsp.max_proxy;
      last_seen = now;
      down = 0;
    }
    ∷ []
collect_in ip port rsp now (h ∷ hs) =
    if bytes_eq h.ip ip && h.port == port
    then reported h rsp now ∷ hs
    else h ∷ collect_in ip port rsp now hs

unfoldable pub collect_proxy_avail : NatServer → Sockaddr → ProxyAvailRsp → ℕ → NatServer
collect_proxy_avail s from rsp now = record s {
  proxy_health = collect_in (inet_ntop from.addr) s.proxy_port rsp now s.proxy_health;
}

unfoldable pub mark_stale_in : ℕ → List ProxyHealth → List ProxyHealth
mark_stale_in now [] = []
mark_stale_in now (h ∷ hs) =
    (if leb (h.last_seen + 10) now
      then record h { down = if ltb h.down 255 then h.down + 1 else h.down; available = 0 }
      else h)
    ∷ mark_stale_in now hs

unfoldable pub mark_proxy_stale : NatServer → ℕ → NatServer
mark_proxy_stale s now = record s { proxy_health = mark_stale_in now s.proxy_health }

abbrev pub is_healthy : ℕ → ProxyHealth → Bool
is_healthy now h = leb now (h.last_seen + 30) && not (h.available == 0) && ltb h.down 2

unfoldable pub healthy_ips : ℕ → List ProxyHealth → List Bytes
healthy_ips now [] = []
healthy_ips now (h ∷ hs) =
    if is_healthy now h then h.ip ∷ healthy_ips now hs else healthy_ips now hs

unfoldable pub is_dup : Bytes → List ProxyCandidate → Bool
is_dup ip [] = false
is_dup ip (c ∷ cs) = bytes_eq ip c.ip || is_dup ip cs

-- `strncpy` of at most 15 bytes.
abbrev pub candidate : NatServer → Bytes → ProxyCandidate
candidate s ip = record { ip = take 15 ip; port = s.proxy_port }

abbrev pub or_dup : NatServer → Bytes → List ProxyCandidate → List ProxyCandidate
or_dup s ip out = if is_dup ip out then out else out ++ candidate s ip ∷ []

-- The weighted draws, each the index of a healthy proxy.
unfoldable pub draw : NatServer → List Bytes → List ℕ → List ProxyCandidate → List ProxyCandidate
draw s ips [] out = out
draw s ips (i ∷ draws) out =
    let ip = get_or ips i [] in draw s ips draws (if is_empty ip then out else or_dup s ip out)

-- The fallback in the order of the configuration.
unfoldable pub fill : NatServer → List Bytes → List ProxyCandidate → List ProxyCandidate
fill s [] out = out
fill s (ip ∷ ips) out = if leb 3 (length out) then out else fill s ips (or_dup s ip out)

-- The candidates, with the count their number.
unfoldable pub pick_proxy : NatServer → List ℕ → ℕ → List ProxyCandidate
pick_proxy s draws now =
    fill s s.cfg.proxy_ips (draw s (healthy_ips now s.proxy_health) (take 3 draws) [])
