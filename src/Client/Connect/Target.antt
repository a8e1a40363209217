-- ===== src/Client/Connect/Target.antt =====
-- client/sdk/api/P2PClient.cpp: what a client knows of a peer that it has been introduced to.
use p2p_server.Prelude.{
  ℕ, ◌+◌, ◌≡◌, refl, ap, ◌∙◌, Bool, true, false, Bytes, Option, none, some, bytes_eq_refl, arith,
}
use p2p_server.Prelude.Maps.{find, put, insert, nat_key, bytes_key, find-put, find-insert}
use p2p_server.Util.{Sockaddr}
use p2p_server.Client.{P2pClient, Conn, conn_at, set_conn}
use p2p_server.Client.Path.{addr_key}
use p2p_server.Client.Connect.{map_addr, with_lan, map_lan, probing}

-- A connection over which nothing has come so far: no frame by either path, and no socket in the pool.
pub record IsFresh (k : Conn) : Type 0 where
  pub unproven : k.punch.direct_ok ≡ false
  pub relay_silent : k.relay.relay_ok ≡ false
  pub no_pool : k.punch.punch_socks ≡ 0

-- What the client knows of a peer: its direct address, until when that alone is used, whose that
-- address is, and that nothing has come so far.
pub record IsTarget (s : P2pClient) (peer : Bytes) (to : Sockaddr) (now : ℕ) : Type 0 where
  pub have_direct : (conn_at s peer).punch.have_direct ≡ true
  pub direct : (conn_at s peer).punch.direct ≡ to
  pub next_punch : (conn_at s peer).punch.next_punch ≡ now + 100
  pub punch_deadline : (conn_at s peer).punch.punch_deadline ≡ now + s.cfg.connect_timeout_ms
  pub fresh : IsFresh (conn_at s peer)
  pub free : s.cfg.force_relay ≡ false
  pub known : find (addr_key to) s.addr_to_peer ≡ some peer

pub conn_at-set_conn :
    (s : P2pClient) (peer : Bytes) (c : Conn) → conn_at (set_conn s peer c) peer ≡ c
unfolding conn_at
conn_at-set_conn s peer c =
    let found : find peer (put peer c s.conns) ≡ some c =
      find-put peer peer c s.conns ∙ rw (bytes_eq_refl peer) refl in
    rw (found, conn_at) refl

pub probing-IsTarget :
    (s : P2pClient) (k : Conn) (peer : Bytes) (to : Sockaddr) (tried : Bool) (lan : Option Sockaddr)
    (now : ℕ)
    → IsFresh k
    → s.cfg.force_relay ≡ false
    → IsTarget
        (set_conn
          (map_lan (map_addr s to peer) lan peer)
          peer
          (with_lan (probing s k to now) tried lan))
        peer
        to
        now
probing-IsTarget s k peer to tried none now f free =
    let t = map_addr s to peer in
    let same = conn_at-set_conn t peer (with_lan (probing s k to now) tried none) in
    record {
      have_direct = ap (λ (x : Conn). x.punch.have_direct) same;
      direct = ap (λ (x : Conn). x.punch.direct) same;
      next_punch = ap (λ (x : Conn). x.punch.next_punch) same;
      punch_deadline = ap (λ (x : Conn). x.punch.punch_deadline) same;
      fresh = record {
        unproven = ap (λ (x : Conn). x.punch.direct_ok) same ∙ f.unproven;
        relay_silent = ap (λ (x : Conn). x.relay.relay_ok) same ∙ f.relay_silent;
        no_pool = ap (λ (x : Conn). x.punch.punch_socks) same ∙ f.no_pool;
      };
      free = free;
      known = ground (arith, find-insert (addr_key to) (addr_key to) peer s.addr_to_peer);
    }
probing-IsTarget s k peer to tried (some lan) now f free =
    let t = map_addr (map_addr s to peer) lan peer in
    let same = conn_at-set_conn t peer (with_lan (probing s k to now) tried (some lan)) in
    record {
      have_direct = ap (λ (x : Conn). x.punch.have_direct) same;
      direct = ap (λ (x : Conn). x.punch.direct) same;
      next_punch = ap (λ (x : Conn). x.punch.next_punch) same;
      punch_deadline = ap (λ (x : Conn). x.punch.punch_deadline) same;
      fresh = record {
        unproven = ap (λ (x : Conn). x.punch.direct_ok) same ∙ f.unproven;
        relay_silent = ap (λ (x : Conn). x.relay.relay_ok) same ∙ f.relay_silent;
        no_pool = ap (λ (x : Conn). x.punch.punch_socks) same ∙ f.no_pool;
      };
      free = free;
      known = ground (
        arith,
        find-insert (addr_key to) (addr_key to) peer s.addr_to_peer,
        find-insert (addr_key lan) (addr_key to) peer (insert (addr_key to) peer s.addr_to_peer),
      );
    }
