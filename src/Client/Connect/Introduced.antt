-- ===== src/Client/Connect/Introduced.antt =====
-- client/sdk/api/P2PClient.cpp with server/natserver/src/RecvProcess.cpp: the answer that names the
-- peer's address.
use p2p_server.Prelude.{
  ℕ, ◌≤◌, ◌≡◌, refl, ap, sym, ◌∙◌, ltb, not, if◌then◌else◌, Bool, true, false, Bytes, List, Option,
  none, some, [], length, take, is_empty, arith,
}
use mathlib.Core.Path.{subst}
use p2p_server.Prelude.Maps.{nat_key, bytes_key}
use p2p_server.ProtoDef.Replies.{ProxyCandidate, ConnectAck, connect_ack_bytes}
use p2p_server.ProtoDef.Client.{read_connect_ack}
use p2p_server.ProtoDef.Fields.{IsUuid}
use p2p_server.Util.{Sockaddr, inet_ntop}
use p2p_server.Util.Laws.{IsSockaddr}
use p2p_server.Util.Text.{inet_pton-inet_ntop, inet_ntop-text}
use p2p_server.PeerManage.{Peer}
use p2p_server.NatServer.Packet.Connect.{connect_granted}
use p2p_server.Client.{P2pClient, ServerAddr, Conn, Env, conn_at, set_conn, sockaddr_from}
use p2p_server.Client.Connect.{
  adopt_proxies, parse_proxies, or_zero, map_addr, names_lan, lan_target, with_lan, map_lan,
  probing, accept_ack, ack_conn, handle_ack, on_connect_ack,
}
use p2p_server.ProtoDef.Answers.{connect_ack-Reads}
use p2p_server.Client.Connect.Target.{IsFresh, IsTarget, probing-IsTarget}

otherwise : (b : Bool) (x y : P2pClient) → b ≡ false → (if b then x else y) ≡ y
otherwise b x y e = rw (e) refl

accept_ack-IsTarget :
    (c : P2pClient) (env : Env) (ack : ConnectAck) (k : Conn) (to : Sockaddr)
    → IsFresh k
    → c.cfg.force_relay ≡ false
    → sockaddr_from (record { ip = ack.dst_pub_ip; port = ack.dst_pub_port }) ≡ some to
    → IsTarget (accept_ack c env ack k) ack.dst_uuid to env.now
unfolding accept_ack
accept_ack-IsTarget c env ack k to f free at =
    let lan = lan_target ack in
    let peer = ack.dst_uuid in
    let same : accept_ack c env ack k
        ≡ set_conn (map_lan (map_addr c to peer) lan peer) peer
            (with_lan (probing c k to env.now) (names_lan ack) lan) =
      otherwise c.cfg.force_relay _ _ free
      ∙ ap
          (λ (o : Option Sockaddr).
            set_conn (map_lan (map_addr c (or_zero o) peer) lan peer) peer
              (with_lan (probing c k (or_zero o) env.now) (names_lan ack) lan))
          at in
    subst (λ (s : P2pClient). IsTarget s peer to env.now) (sym same)
      (probing-IsTarget c k peer to (names_lan ack) lan env.now f free)

either :
    (b : Bool) (x y : P2pClient) (peer : Bytes) (to : Sockaddr) (now : ℕ)
    → IsTarget x peer to now
    → IsTarget y peer to now
    → IsTarget (if b then x else y) peer to now
either true x y peer to now f g = f
either false x y peer to now f g = g

-- Other relays change nothing of it.
adopted :
    (s : P2pClient) (proxies : List ServerAddr) (peer : Bytes) (to : Sockaddr) (now : ℕ)
    → IsTarget s peer to now
    → IsTarget (record s { proxies = proxies; next_relay_reg = now }) peer to now
unfolding conn_at
adopted s proxies peer to now h = record {
  have_direct = h.have_direct;
  direct = h.direct;
  next_punch = h.next_punch;
  punch_deadline = h.punch_deadline;
  fresh = record {
    unproven = h.fresh.unproven;
    relay_silent = h.fresh.relay_silent;
    no_pool = h.fresh.no_pool;
  };
  free = h.free;
  known = h.known;
}

adopt_proxies-IsTarget :
    (s : P2pClient) (cands : List ServerAddr) (peer : Bytes) (to : Sockaddr) (now : ℕ)
    → IsTarget s peer to now
    → IsTarget (adopt_proxies s cands now) peer to now
unfolding adopt_proxies
adopt_proxies-IsTarget s cands peer to now h = either (not (is_empty s.proxies)) _ _ peer to now h (
    either (not (is_empty cands)) _ _ peer to now (adopted s cands peer to now h) (
      either (not (is_empty s.cfg.proxy_servers)) _ _ peer to now
        (adopted s s.cfg.proxy_servers peer to now h) h))

accepted :
    (c : P2pClient) (env : Env) (p : Bytes)
    → 126 ≤ length p
    → (read_connect_ack p).result ≡ 0
    → (on_connect_ack c env p).0
      ≡ adopt_proxies
          (accept_ack c env (read_connect_ack p) (ack_conn c (read_connect_ack p).dst_uuid))
          (parse_proxies (take (read_connect_ack p).proxy_count (read_connect_ack p).proxies) [])
          env.now
unfolding on_connect_ack handle_ack
accepted c env p l ok =
    let long : ltb (length p) 126 ≡ false = ground (arith, l) in rw (long, ok) refl

pub read_address :
    (a : Sockaddr)
    → IsSockaddr a
    → sockaddr_from (record { ip = inet_ntop a.addr; port = a.port }) ≡ some a
unfolding sockaddr_from
read_address a h = rw (inet_pton-inet_ntop a.addr h.addr_fits, sockaddr_from) refl

branch-IsFresh : (b : Bool) (x y : Conn) → IsFresh x → IsFresh y → IsFresh (if b then x else y)
branch-IsFresh true x y f g = f
branch-IsFresh false x y f g = g

ack_conn-IsFresh :
    (c : P2pClient) (peer : Bytes) → IsFresh (conn_at c peer) → IsFresh (ack_conn c peer)
unfolding ack_conn
ack_conn-IsFresh c peer f =
    branch-IsFresh (conn_at c peer).connecting (conn_at c peer) _ f
      (record { unproven = f.unproven; relay_silent = f.relay_silent; no_pool = f.no_pool })

same_cfg :
    (b : Bool) (x y c : P2pClient)
    → x.cfg ≡ c.cfg
    → y.cfg ≡ c.cfg
    → (if b then x else y).cfg ≡ c.cfg
same_cfg true x y c e f = e
same_cfg false x y c e f = f

accept_ack-cfg :
    (c : P2pClient) (env : Env) (ack : ConnectAck) (k : Conn) → (accept_ack c env ack k).cfg ≡ c.cfg
unfolding accept_ack
accept_ack-cfg c env ack k = same_cfg c.cfg.force_relay _ _ c refl (after_lan (lan_target ack))
  where
    after_lan :
        (lan : Option Sockaddr)
        → (map_lan
            (map_addr c
              (or_zero (sockaddr_from (record { ip = ack.dst_pub_ip; port = ack.dst_pub_port })))
              ack.dst_uuid)
            lan
            ack.dst_uuid).cfg
          ≡ c.cfg
    after_lan none = refl
    after_lan (some lan) = refl

adopt_proxies-cfg :
    (s : P2pClient) (cands : List ServerAddr) (now : ℕ) → (adopt_proxies s cands now).cfg ≡ s.cfg
unfolding adopt_proxies
adopt_proxies-cfg s cands now = same_cfg (not (is_empty s.proxies)) _ _ s refl (
    same_cfg (not (is_empty cands)) _ _ s refl
      (same_cfg (not (is_empty s.cfg.proxy_servers)) _ _ s refl refl))

-- The answer with which the directory server grants a connection gives a client to which the peer
-- is new, and that need not use the relay, the address that the server has for the peer as its
-- direct one, until the time for a direct path is over.
pub on_connect_ack-connect_granted :
    (c : P2pClient) (env : Env) (uuid : Bytes) (dst : Peer) (proxies : List ProxyCandidate)
    → IsUuid uuid
    → IsSockaddr dst.pub_addr
    → IsFresh (conn_at c uuid)
    → c.cfg.force_relay ≡ false
    → let c' = (on_connect_ack c env (connect_ack_bytes (connect_granted uuid dst proxies))).0 in
      IsTarget c' uuid dst.pub_addr env.now × (c'.cfg ≡ c.cfg)
on_connect_ack-connect_granted c env uuid dst proxies v at f free =
    let r = connect_granted uuid dst proxies in
    let p = connect_ack_bytes r in
    let (short, plain) = inet_ntop-text dst.pub_addr.addr in
    let reads = connect_ack-Reads r refl v (omega (arith, short)) plain at.port_fits in
    let ack = read_connect_ack p in
    let address : sockaddr_from (record { ip = ack.dst_pub_ip; port = ack.dst_pub_port })
        ≡ some dst.pub_addr =
      rw (reads.ip, reads.port) (read_address dst.pub_addr at) in
    let target =
      accept_ack-IsTarget c env ack (ack_conn c ack.dst_uuid) dst.pub_addr
        (ack_conn-IsFresh c ack.dst_uuid
          (subst (λ (u : Bytes). IsFresh (conn_at c u)) (sym reads.uuid) f))
        free address in
    let cands = parse_proxies (take ack.proxy_count ack.proxies) [] in
    let before = accept_ack c env ack (ack_conn c ack.dst_uuid) in
    let handled = accepted c env p reads.whole reads.result in
    (
      rw (handled) (
          subst
            (λ (peer : Bytes).
              IsTarget (adopt_proxies before cands env.now) peer dst.pub_addr env.now)
            reads.uuid
            (adopt_proxies-IsTarget before cands ack.dst_uuid dst.pub_addr env.now target)),
      ap (λ (s : P2pClient). s.cfg) handled
          ∙ adopt_proxies-cfg before cands env.now
          ∙ accept_ack-cfg c env ack (ack_conn c ack.dst_uuid),
    )
