-- ===== src/Client/Connect.antt =====
-- client/sdk/api/P2PClient.cpp: asking for a connection and what the directory server answers.
pub mod Introduced
pub mod Meeting
pub mod Target
use p2p_server.Prelude.{
  ℕ, ◌+◌, ◌==◌, ltb, leb, if◌then◌else◌, Bool, true, false, not, ◌&&◌, ◌||◌, List, [], ◌∷◌, ◌++◌,
  Option, none, some, Bytes, bytes_eq, length, is_empty, take, codes,
}
use p2p_server.Prelude.Maps.{find, insert, nat_key, bytes_key}
use p2p_server.ProtoDef.{connect_ok, tt_close}
use p2p_server.ProtoDef.Replies.{ProxyCandidate, ConnectAck, ConnectInvite}
use p2p_server.ProtoDef.Client.{
  size_of_connect_ack, size_of_connect_invite, read_connect_ack, read_connect_invite,
}
use p2p_server.CfgFile.Text.{is_digit, atoi, atoi_skip}
use p2p_server.Util.{Sockaddr}
use p2p_server.Session.{SendResult, send}
use p2p_server.Client.{
  P2pClient, ServerAddr, Conn, Env, Output, on_error, Outcome, ◌▷◌, no_addr, conn_at, set_conn,
  sockaddr_from,
}
use p2p_server.Client.Path.{
  addr_key, send_connect_req, session_for, after_session, send_control, close_conn,
}
use p2p_server.Client.Auth.{do_auth_challenge, may_ask}
use p2p_server.Client.Ice.{ensure_ice_agent, apply_remote_ice_sdp}

-- The digits at the head of a text, and the rest.
unfoldable pub span_digits : Bytes → Bytes × Bytes
span_digits [] = ([], [])
span_digits (c ∷ cs) =
    let (ds, rest) = span_digits cs in if is_digit c then (c ∷ ds, rest) else ([], c ∷ cs)

abbrev pub drop_sign : Bytes → Bytes
drop_sign [] = []
drop_sign (c ∷ cs) = if c == b'+' || c == b'-' then cs else c ∷ cs

-- One `%u` of `sscanf`, and the rest of the text.
unfoldable pub scan_number : Bytes → Option (ℕ × Bytes)
scan_number text =
    let (ds, rest) = span_digits (drop_sign (atoi_skip text)) in
    if is_empty ds then none else some (atoi text, rest)

-- `".%u"` of `sscanf`.
unfoldable pub scan_dotted : Bytes → Option (ℕ × Bytes)
scan_dotted [] = none
scan_dotted (c ∷ cs) = if c == b'.' then scan_number cs else none

abbrev pub is_private : ℕ → ℕ → Bool
is_private a b = a == 10 || (a == 172 && leb 16 b && leb b 31) || (a == 192 && b == 168) || a == 127

unfoldable pub is_private_ip : Bytes → Bool
is_private_ip ip = elim (scan_number ip) [
  | none ↦ false
  | some (a, r) ↦ elim (scan_dotted r) [
    | none ↦ false
    | some (b, r) ↦ elim (scan_dotted r) [
      | none ↦ false
      | some (c, r) ↦ elim (scan_dotted r) [ none ↦ false | some (d, r) ↦ is_private a b ]
    ]
  ]
]

abbrev pub same_server : ServerAddr → ServerAddr → Bool
same_server a b = bytes_eq a.ip b.ip && a.port == b.port

unfoldable pub has_server : ServerAddr → List ServerAddr → Bool
has_server a [] = false
has_server a (b ∷ bs) = same_server b a || has_server a bs

-- The candidates with an address and a port, each once, behind those of `out`.
unfoldable pub parse_proxies : List ProxyCandidate → List ServerAddr → List ServerAddr
parse_proxies [] out = out
parse_proxies (c ∷ cs) out =
    let a : ServerAddr = record { ip = c.ip; port = c.port } in
    parse_proxies cs
      (if is_empty a.ip || a.port == 0 || has_server a out then out else out ++ a ∷ [])

-- What follows in both handlers: a client with no proxy takes the candidates, or those configured.
unfoldable pub adopt_proxies : P2pClient → List ServerAddr → ℕ → P2pClient
adopt_proxies s cands now =
    if not (is_empty s.proxies)
    then s
    else if not (is_empty cands)
    then record s { proxies = cands; next_relay_reg = now }
    else if not (is_empty s.cfg.proxy_servers)
    then record s { proxies = s.cfg.proxy_servers; next_relay_reg = now }
    else s

-- What `sockaddr_from` leaves in its argument: zeros if the text is no address.
abbrev pub or_zero : Option Sockaddr → Sockaddr
or_zero none = no_addr
or_zero (some a) = a

abbrev pub map_addr : P2pClient → Sockaddr → Bytes → P2pClient
map_addr s a peer = record s { addr_to_peer = insert (addr_key a) peer s.addr_to_peer }

-- The connection without a direct path: a relay may be used at once.
abbrev pub relay_only : Conn → ℕ → Conn
relay_only c now = record c { punch = record c.punch { have_direct = false; punch_deadline = now } }

-- The connection with a direct address to probe.
abbrev pub probing : P2pClient → Conn → Sockaddr → ℕ → Conn
probing s c direct now = record c {
  punch = record c.punch {
    have_direct = true;
    next_punch = now + 100;
    direct = direct;
    punch_deadline = now + s.cfg.connect_timeout_ms;
  };
}

-- The answer names a private address that is not the public one.
unfoldable pub names_lan : ConnectAck → Bool
names_lan ack = is_private_ip ack.dst_lan_ip && not (bytes_eq ack.dst_lan_ip ack.dst_pub_ip)

-- The address in the local network, if the answer names one.
unfoldable pub lan_target : ConnectAck → Option Sockaddr
lan_target ack =
    if names_lan ack
    then sockaddr_from (record { ip = ack.dst_lan_ip; port = ack.dst_lan_port })
    else none

-- `tried`: `sockaddr_from` was called on the connection's address, which it clears when it fails.
abbrev pub with_lan : Conn → Bool → Option Sockaddr → Conn
with_lan c tried none = record c {
  punch = record c.punch {
    have_lan = false;
    direct_lan = if tried then no_addr else c.punch.direct_lan;
  };
}
with_lan c tried (some lan) = record c {
  punch = record c.punch { have_lan = true; direct_lan = lan };
}

abbrev pub map_lan : P2pClient → Option Sockaddr → Bytes → P2pClient
map_lan s none peer = s
map_lan s (some lan) peer = map_addr s lan peer

-- The answer that names the peer's addresses.
unfoldable pub accept_ack : P2pClient → Env → ConnectAck → Conn → P2pClient
accept_ack s env ack c =
    let direct =
      or_zero (sockaddr_from (record { ip = ack.dst_pub_ip; port = ack.dst_pub_port })) in
    let lan = lan_target ack in
    if s.cfg.force_relay
    then set_conn s ack.dst_uuid (relay_only c env.now)
    else set_conn (map_lan (map_addr s direct ack.dst_uuid) lan ack.dst_uuid) ack.dst_uuid
        (with_lan (probing s c direct env.now) (names_lan ack) lan)

-- The connection that an answer is about, made if it is new.
unfoldable pub ack_conn : P2pClient → Bytes → Conn
ack_conn s peer =
    let c = conn_at s peer in
    if c.connecting then c else record c { peer_uuid = peer; connecting = true }

unfoldable pub handle_ack : P2pClient → Env → ConnectAck → Outcome
handle_ack s env ack =
    let c = ack_conn s ack.dst_uuid in
    if ack.result == 3
    then (if not (is_empty s.secret) && may_ask s then do_auth_challenge s else (s, []))
    else if not (ack.result == connect_ok)
    then ((s, on_error (codes "connect " ++ ack.dst_uuid ++ codes ": peer offline/not found") ∷ [])
        ▷ (λ t. close_conn t c))
    else (
      adopt_proxies (accept_ack s env ack c) (parse_proxies (take ack.proxy_count ack.proxies) [])
          env.now,
      [],
    )

unfoldable pub on_connect_ack : P2pClient → Env → Bytes → Outcome
on_connect_ack s env p =
    if ltb (length p) size_of_connect_ack then (s, []) else handle_ack s env (read_connect_ack p)

-- The description that came before the invitation is applied.
unfoldable pub apply_pending : P2pClient → Conn → Conn × List Output
apply_pending s c =
    if is_empty s.pending_remote_sdp then (c, []) else apply_remote_ice_sdp c s.pending_remote_sdp

unfoldable pub accept_invite : P2pClient → Env → ConnectInvite → Conn → Outcome
accept_invite s env inv c =
    let direct =
      or_zero (sockaddr_from (record { ip = inv.src_pub_ip; port = inv.src_pub_port })) in
    let (c1, out1) = ensure_ice_agent s.cfg.force_relay env (probing s c direct env.now) in
    let (c2, out2) = apply_pending s c1 in
    if s.cfg.force_relay then (set_conn s inv.src_uuid (relay_only c env.now), []) else (
      set_conn (record (map_addr s direct inv.src_uuid) { pending_remote_sdp = [] }) inv.src_uuid
          c2,
      out1 ++ out2,
    )

abbrev pub invited : P2pClient → Bytes → Conn
invited s peer =
    let c = conn_at s peer in
    record c {
      peer_uuid = peer;
      connecting = true;
      punch = record c.punch { direct_ok = false };
      owned = true;
    }

unfoldable pub handle_invite : P2pClient → Env → ConnectInvite → Outcome
handle_invite s env inv =
    if is_empty inv.src_uuid
    then (s, [])
    else accept_invite s env inv (invited s inv.src_uuid) ▷ λ t.
        (adopt_proxies t (parse_proxies (take inv.proxy_count inv.proxies) []) env.now, [])

unfoldable pub on_connect_invite : P2pClient → Env → Bytes → Outcome
on_connect_invite s env p =
    if ltb (length p) size_of_connect_invite
    then (s, [])
    else handle_invite s env (read_connect_invite p)

-- A connection that is asked for anew.
abbrev pub asked : P2pClient → Conn → ℕ → Conn
asked s c now = record c {
  connecting = true;
  punch = record c.punch {
    have_direct = false;
    direct_ok = false;
    punch_deadline = now + s.cfg.connect_timeout_ms;
    next_punch = 0;
  };
  relay = record c.relay { relay_ok = false; next_relay_ping = 0 };
  owned = true;
}

unfoldable pub connect : P2pClient → Env → Bytes → Outcome
connect s env peer =
    let c = record (conn_at s peer) { peer_uuid = peer } in
    let (c', out) = ensure_ice_agent s.cfg.force_relay env (asked s c env.now) in
    if not s.running || is_empty peer || bytes_eq peer s.cfg.uuid
    then (s, [])
    else if c.connecting || c.connected
    then (set_conn s peer c, [])
    else (set_conn s peer c', out ++ send_connect_req s peer)

unfoldable pub disconnect : P2pClient → Env → Bytes → Outcome
disconnect s env peer = elim (find peer s.conns) [
  | none ↦ (s, [])
  | some c ↦ send_control s env peer c tt_close ▷ λ t. close_conn t c
]

-- `none` is the result -1.
unfoldable pub client_send :
    P2pClient → Env → Bytes → ℕ → Bytes → Bool → Outcome × Option SendResult
client_send s env peer channel input reliable = elim (find peer s.conns) [
  | none ↦ ((s, []), none)
  | some c ↦
      let (s', session) = session_for s peer in
      let (session', result, events) = send session channel input reliable env.now in
      if c.connected
      then (after_session s' env peer session' events, some result)
      else ((s, []), none)
]
