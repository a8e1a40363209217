-- ===== src/Client/Tick/Forced.antt =====
-- client/sdk/api/P2PClient.cpp, `tick_connections`: a client that is told to use the relay only.
use p2p_server.Prelude.{
  ℕ, ◌+◌, ◌≡◌, refl, ap, ◌∙◌, leb, if◌then◌else◌, Bool, true, false, not, ◌&&◌, ◌||◌, List, [], ◌∷◌,
  ◌++◌, Option, some, Bytes, bytes_eq_refl, is_empty, arith, All, Option-cases, Bool-cases, ◌%◌,
  ◌^◌, inl, inr,
}
use p2p_server.Prelude.Maps.{Map, find, contains, bytes_key, find-put}
use p2p_server.ProtoDef.{tt_ping}
use p2p_server.Session.{frame_bytes, control}
use p2p_server.Client.{P2pClient, Conn, Env, Outcome, conn_at, set_conn}
use p2p_server.Client.Tunnel.{get_tunnel_key, encrypt_tunnel_frame}
use p2p_server.Client.Path.{session_for, send_tunnel_via, send_control}
use p2p_server.Client.Tick.{
  no_answer, punch_due, do_punch, direct_failed, tick_conn_punch, retry_register, ping_relay,
  tick_conn_relay, tick_conn_fsm, go_on, tick_conn, tick_all, keys, tick_connections,
}

-- The same configuration, and every connection still there.
record Keeps (s t : P2pClient) : Type 0 where
  pub forced : t.cfg.force_relay ≡ s.cfg.force_relay
  pub known : (k : Bytes) → contains k s.conns ≡ true → contains k t.conns ≡ true

-- Neither the configuration nor the connections have changed.
record Same (s t : P2pClient) : Type 0 where
  pub forced : t.cfg.force_relay ≡ s.cfg.force_relay
  pub conns : t.conns ≡ s.conns

session_for-Same : (s : P2pClient) (peer : Bytes) → Same s (session_for s peer).0
unfolding session_for
session_for-Same s peer = elim (Option-cases (find peer s.sessions)) [
  | inl e ↦ rw (e, session_for) (record { forced = refl; conns = refl })
  | inr (session, e) ↦ rw (e, session_for) (record { forced = refl; conns = refl })
]

get_tunnel_key-Same : (s : P2pClient) (peer : Bytes) → Same s (get_tunnel_key s peer).0
unfolding get_tunnel_key
get_tunnel_key-Same s peer = elim (Option-cases (find peer s.tunnel_keys)) [
  | inl e ↦ record { forced = ground (arith, e); conns = ground (arith, e) }
  | inr (key, e) ↦ record { forced = ground (arith, e); conns = ground (arith, e) }
]

encrypt_tunnel_frame-Same :
    (s : P2pClient) (env : Env) (peer frame : Bytes)
    → Same s (encrypt_tunnel_frame s env peer frame).0
unfolding encrypt_tunnel_frame
encrypt_tunnel_frame-Same s env peer frame =
    let same = get_tunnel_key-Same s peer in
    record { forced = ground (arith, same.forced); conns = ground (arith, same.conns) }

send_tunnel_via-Same :
    (s : P2pClient) (env : Env) (c : Conn) (frame : Bytes)
    → Same s (send_tunnel_via s env c frame).0
unfolding send_tunnel_via
send_tunnel_via-Same s env c frame =
    let same = encrypt_tunnel_frame-Same s env c.peer_uuid frame in
    record { forced = ground (arith, same.forced); conns = ground (arith, same.conns) }

send_control-Same :
    (s : P2pClient) (env : Env) (peer : Bytes) (c : Conn) (type : ℕ)
    → Same s (send_control s env peer c type).0
unfolding send_control
send_control-Same s env peer c type =
    let first = session_for-Same s peer in
    let t = (session_for s peer).0 in
    let second =
      send_tunnel_via-Same t env c (frame_bytes (control (session_for s peer).1 type 0)) in
    record { forced = second.forced ∙ first.forced; conns = second.conns ∙ first.conns }

do_punch-Same : (s : P2pClient) (c : Conn) → Same s (do_punch s c).0
unfolding do_punch
do_punch-Same s c =
    let first = session_for-Same s c.peer_uuid in
    record { forced = ground (arith, first.forced); conns = ground (arith, first.conns) }

kept : (s t : P2pClient) → Same s t → Keeps s t
kept s t same = record { forced = same.forced; known = λ k h. ap (contains k) same.conns ∙ h }

refl-Keeps : (s : P2pClient) → Keeps s s
refl-Keeps s = record { forced = refl; known = λ k h. h }

trans-Keeps : (s t u : P2pClient) → Keeps s t → Keeps t u → Keeps s u
trans-Keeps s t u a b = record {
  forced = b.forced ∙ a.forced;
  known = λ k h. b.known k (a.known k h);
}

set_conn-Keeps : (s : P2pClient) (peer : Bytes) (c : Conn) → Keeps s (set_conn s peer c)
set_conn-Keeps s peer c = record {
  forced = refl;
  known = λ k h. ground (arith, h, find-put peer k c s.conns);
}

either :
    (s : P2pClient) (b : Bool) (x y : Outcome)
    → (b ≡ true → Keeps s x.0)
    → (b ≡ false → Keeps s y.0)
    → Keeps s (if b then x else y).0
either s true x y f g = f refl
either s false x y f g = g refl

tick_conn_punch-Keeps :
    (s : P2pClient) (env : Env) (peer : Bytes)
    → s.cfg.force_relay ≡ true
    → Keeps s (tick_conn_punch s env peer).0
unfolding tick_conn_punch
tick_conn_punch-Keeps s env peer on =
    let c = conn_at s peer in
    let t = (do_punch s c).0 in
    either s (punch_due c env.now) _ _
      (λ _. trans-Keeps s t _ (kept s t (do_punch-Same s c)) (set_conn-Keeps t peer _))
      (λ _.
        either s (no_answer s c env.now) _ _ (λ e. absurd (ground (arith, e, on)))
          (λ _. refl-Keeps s))

retry_register-Keeps :
    (s : P2pClient) (now : ℕ) (peer : Bytes) → Keeps s (retry_register s now peer).0
unfolding retry_register
retry_register-Keeps s now peer =
    let c = conn_at s peer in
    let again : Conn = record c { backoff_attempt = (c.backoff_attempt + 1) % 2 ^ 32 } in
    either s (s.cfg.auto_relay && not s.relay_registered && not (is_empty s.proxies)) _ _
      (λ _. record { forced = refl; known = (set_conn-Keeps s peer again).known })
      (λ _. refl-Keeps s)

ping_relay-Keeps :
    (s : P2pClient) (env : Env) (peer : Bytes)
    → s.cfg.force_relay ≡ true
    → Keeps s (ping_relay s env peer).0
unfolding ping_relay
ping_relay-Keeps s env peer on =
    let c = conn_at s peer in
    let t = (send_control s env c.peer_uuid c tt_ping).0 in
    either s (s.cfg.auto_relay && not (is_empty s.proxies) && leb c.relay.next_relay_ping env.now) _
      _
      (λ _.
        trans-Keeps s t _ (kept s t (send_control-Same s env c.peer_uuid c tt_ping))
          (set_conn-Keeps t peer _))
      (λ _.
        either s
          (not s.cfg.force_relay
            && (not s.cfg.auto_relay || is_empty s.proxies)
            && direct_failed c env.now)
          _ _ (λ e. absurd (ground (arith, e, on))) (λ _. refl-Keeps s))

tick_conn_relay-Keeps :
    (s : P2pClient) (env : Env) (peer : Bytes)
    → s.cfg.force_relay ≡ true
    → Keeps s (tick_conn_relay s env peer).0
unfolding tick_conn_relay
tick_conn_relay-Keeps s env peer on =
    let t = (retry_register s env.now peer).0 in
    let first = retry_register-Keeps s env.now peer in
    either s (s.cfg.force_relay || direct_failed (conn_at s peer) env.now) _ _
      (λ _. trans-Keeps s t _ first (ping_relay-Keeps t env peer (first.forced ∙ on)))
      (λ _. refl-Keeps s)

tick_conn_fsm-Keeps : (s : P2pClient) (peer : Bytes) → Keeps s (tick_conn_fsm s peer).0
unfolding tick_conn_fsm
tick_conn_fsm-Keeps s peer =
    let c = conn_at s peer in
    either s (c.relay.relay_ok && not c.connected) _ _ (λ _. set_conn-Keeps s peer _)
      (λ _. refl-Keeps s)

-- A step that ends, in a state that keeps everything.
abbrev Ends : P2pClient → Option Outcome → Type 0
Ends s o = (r : Outcome) × (o ≡ some r) × Keeps s r.0

goes_on :
    (s : P2pClient) (peer : Bytes) (r : Outcome) (act : P2pClient → Option Outcome)
    → contains peer s.conns ≡ true
    → Keeps s r.0
    → Ends r.0 (act r.0)
    → Ends s (go_on peer r act)
unfolding go_on
goes_on s peer r act there keeps ((t, out), done, more) =
    ((t, r.1 ++ out), rw (keeps.known peer there, done, go_on) refl, trans-Keeps s r.0 t keeps more)

tick_conn-Ends :
    (s : P2pClient) (env : Env) (peer : Bytes)
    → s.cfg.force_relay ≡ true
    → contains peer s.conns ≡ true
    → Ends s (tick_conn s env peer)
unfolding tick_conn
tick_conn-Ends s env peer on there =
    let c = conn_at s peer in
    let first = tick_conn_punch-Keeps s env peer on in
    let t = (tick_conn_punch s env peer).0 in
    let second = tick_conn_relay-Keeps t env peer (first.forced ∙ on) in
    let u = (tick_conn_relay t env peer).0 in
    elim (Bool-cases (not c.connecting || c.connected)) [
      | inl e ↦ ((s, []), rw (e, tick_conn) refl, refl-Keeps s)
      | inr e ↦
          rw (e, tick_conn)
            (goes_on s peer (tick_conn_punch s env peer) _ there first (
              goes_on t peer (tick_conn_relay t env peer) _ (first.known peer there) second
                (tick_conn_fsm u peer, refl, tick_conn_fsm-Keeps u peer)))
    ]

All-known :
    (m n : Map Bytes Conn) (peers : List Bytes)
    → ((k : Bytes) → contains k m ≡ true → contains k n ≡ true)
    → All (λ peer. contains peer m ≡ true) peers
    → All (λ peer. contains peer n ≡ true) peers
All-known m n [] f all = tt
All-known m n (peer ∷ peers) f (h, all) = (f peer h, All-known m n peers f all)

tick_all-Ends :
    (peers : List Bytes) (s : P2pClient) (env : Env)
    → s.cfg.force_relay ≡ true
    → All (λ peer. contains peer s.conns ≡ true) peers
    → Ends s (tick_all peers s env)
unfolding tick_all
tick_all-Ends [] s env on all = ((s, []), refl, refl-Keeps s)
tick_all-Ends (peer ∷ peers) s env on (there, all) =
    let ((t, out), done, keeps) = tick_conn-Ends s env peer on there in
    let ((u, more), done', keeps') =
      tick_all-Ends peers t env (keeps.forced ∙ on)
        (All-known s.conns t.conns peers keeps.known all) in
    ((u, out ++ more), rw (done, done', tick_all) refl, trans-Keeps s t u keeps keeps')

first : (k : Bytes) (c : Conn) (m : Map Bytes Conn) → contains k ((k, c) ∷ m) ≡ true
unfolding find
first k c m = rw (bytes_eq_refl k) refl

more :
    (k : Bytes) (c : Conn) (m : Map Bytes Conn) (j : Bytes)
    → contains j m ≡ true
    → contains j ((k, c) ∷ m) ≡ true
unfolding find
more k c m j h = ground (arith, h)

keys-known : (m : Map Bytes Conn) → All (λ peer. contains peer m ≡ true) (keys m)
unfolding keys
keys-known [] = tt
keys-known ((k, c) ∷ m) =
    (first k c m, All-known m ((k, c) ∷ m) (keys m) (more k c m) (keys-known m))

-- A client that is told to use the relay only gives up no connection on its own: a turn of the loop
-- over its connections always ends, and every connection is still there.
pub tick_connections-Ends :
    (s : P2pClient) (env : Env)
    → s.cfg.force_relay ≡ true
    → (r : Outcome) × (tick_connections s env ≡ some r)
      × ((peer : Bytes) → contains peer s.conns ≡ true → contains peer r.0.conns ≡ true)
unfolding tick_connections
tick_connections-Ends s env on =
    let (r, done, keeps) = tick_all-Ends (keys s.conns) s env on (keys-known s.conns) in
    (r, done, keeps.known)
