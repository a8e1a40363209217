-- ===== src/Client/Tick.antt =====
-- client/sdk/api/P2PClient.cpp: what is done at every turn of the worker's loop.
pub mod Erased
pub mod Forced
use p2p_server.Prelude.{
  ℕ, ◌+◌, ◌-◌, ◌%◌, ◌^◌, ltb, leb, if◌then◌else◌, Bool, true, false, not, ◌&&◌, ◌||◌, List, [], ◌∷◌,
  ◌++◌, Option, none, some, Bytes, is_empty, codes, zero, suc,
}
use p2p_server.Prelude.Maps.{Map, find, contains, put, bytes_key}
use p2p_server.ProtoDef.{tt_ping}
use p2p_server.Util.{Sockaddr}
use p2p_server.Session.{Session, frame_bytes, control}
use p2p_server.Session
use p2p_server.Client.{
  P2pClient, Conn, Env, Output, send_to, on_connected, on_error, Outcome, ◌▷◌, conn_at, set_conn,
}
use p2p_server.Client.Backoff.{delay}
use p2p_server.Client.Path.{
  relay_register, session_for, run_events, send_direct, send_control, close_conn,
}
use p2p_server.Client.Auth.{tick_auth}
use p2p_server.Client.Heartbeat.{tick_heartbeat, tick_nat_detect}

-- A ping from every socket of the pool, the socket with the number `n - 1` first.
unfoldable pub punch_all : Conn → ℕ → Bytes → List Output
punch_all c zero frame = []
punch_all c (suc n) frame = punch_all c n frame ++ send_direct c (some n) frame

unfoldable pub do_punch : P2pClient → Conn → Outcome
do_punch s c =
    let (s', session) = session_for s c.peer_uuid in
    if c.punch.juice
    then (s, [])
    else (s', punch_all c c.punch.punch_socks (frame_bytes (control session tt_ping 0)))

abbrev pub punch_due : Conn → ℕ → Bool
punch_due c now =
    c.punch.have_direct && ltb now c.punch.punch_deadline && leb c.punch.next_punch now

-- No address of the peer ever came.
abbrev pub no_answer : P2pClient → Conn → ℕ → Bool
no_answer s c now =
    not s.cfg.force_relay
    && not c.punch.have_direct
    && leb (c.punch.punch_deadline + s.cfg.connect_timeout_ms) now

abbrev pub failed : P2pClient → Conn → Bytes → Outcome
failed s c reason =
    (s, on_error (codes "connect " ++ c.peer_uuid ++ reason) ∷ []) ▷ λ t. close_conn t c

unfoldable pub tick_conn_punch : P2pClient → Env → Bytes → Outcome
tick_conn_punch s env peer =
    let c = conn_at s peer in
    let (s', out) = do_punch s c in
    if punch_due c env.now
    then (
      set_conn s' peer
          (record c { punch = record c.punch { next_punch = env.now + s.cfg.punch_interval_ms } }),
      out,
    )
    else if no_answer s c env.now
    then failed s c (codes ": server no response")
    else (s, [])

-- The probing has failed.
abbrev pub direct_failed : Conn → ℕ → Bool
direct_failed c now = c.punch.have_direct && leb c.punch.punch_deadline now && not c.punch.direct_ok

-- The registration at the relay is tried again, ever later.
unfoldable pub retry_register : P2pClient → ℕ → Bytes → Outcome
retry_register s now peer =
    let c = conn_at s peer in
    if s.cfg.auto_relay && not s.relay_registered && not (is_empty s.proxies)
    then (
      record (set_conn s peer (record c { backoff_attempt = (c.backoff_attempt + 1) % 2 ^ 32 })) {
        next_relay_reg = now + delay c.backoff_attempt 30000 s.cfg.relay_register_ms;
      },
      relay_register s,
    )
    else (s, [])

unfoldable pub ping_relay : P2pClient → Env → Bytes → Outcome
ping_relay s env peer =
    let c = conn_at s peer in
    if s.cfg.auto_relay && not (is_empty s.proxies) && leb c.relay.next_relay_ping env.now
    then (send_control s env c.peer_uuid c tt_ping ▷ (λ t. (
      set_conn t peer (record c {
        relay = record c.relay { next_relay_ping = env.now + s.cfg.punch_interval_ms };
      }),
      [],
    )))
    else if not s.cfg.force_relay
        && (not s.cfg.auto_relay || is_empty s.proxies)
        && direct_failed c env.now
    then failed s c (codes ": no relay, direct failed")
    else (s, [])

unfoldable pub tick_conn_relay : P2pClient → Env → Bytes → Outcome
tick_conn_relay s env peer =
    if s.cfg.force_relay || direct_failed (conn_at s peer) env.now
    then (retry_register s env.now peer ▷ (λ t. ping_relay t env peer))
    else (s, [])

unfoldable pub tick_conn_fsm : P2pClient → Bytes → Outcome
tick_conn_fsm s peer =
    let c = conn_at s peer in
    if c.relay.relay_ok && not c.connected
    then (set_conn s peer (record c { connected = true }), on_connected c.peer_uuid true ∷ [])
    else (s, [])

-- `none` is undefined behaviour: the code goes on with a connection that a step has closed, which
-- erased it.
unfoldable pub go_on : Bytes → Outcome → (P2pClient → Option Outcome) → Option Outcome
go_on peer (s, out) act =
    if not (contains peer s.conns)
    then none
    else elim (act s) [ none ↦ none | some (s', more) ↦ some (s', out ++ more) ]

unfoldable pub tick_conn : P2pClient → Env → Bytes → Option Outcome
tick_conn s env peer =
    let c = conn_at s peer in
    if not c.connecting || c.connected
    then some (s, [])
    else go_on peer (tick_conn_punch s env peer)
        λ t. go_on peer (tick_conn_relay t env peer) λ u. some (tick_conn_fsm u peer)

-- The loop over the connections, given their keys.
unfoldable pub tick_all : List Bytes → P2pClient → Env → Option Outcome
tick_all [] s env = some (s, [])
tick_all (peer ∷ peers) s env = elim (tick_conn s env peer) [
  | none ↦ none
  | some (s', out) ↦ elim (tick_all peers s' env) [
    | none ↦ none
    | some (s'', more) ↦ some (s'', out ++ more)
  ]
]

unfoldable pub keys : {V : Type 0} → Map Bytes V → List Bytes
keys [] = []
keys ((k, v) ∷ m) = k ∷ keys m

unfoldable pub tick_connections : P2pClient → Env → Option Outcome
tick_connections s env = tick_all (keys s.conns) s env

unfoldable pub tick_relay : P2pClient → ℕ → Outcome
tick_relay s now =
    if s.cfg.auto_relay
      && not s.relay_registered
      && not (is_empty s.proxies)
      && leb s.next_relay_reg now
    then (record s { next_relay_reg = now + s.cfg.relay_register_ms }, relay_register s)
    else (s, [])

-- The loop over the sessions, given their keys.
unfoldable pub tick_each : List Bytes → P2pClient → Env → Outcome
tick_each [] s env = (s, [])
tick_each (peer ∷ peers) s env = elim (find peer s.sessions) [
  | none ↦ tick_each peers s env
  | some session ↦
      let (session', events) = Session.tick session env.now in
      run_events (record s { sessions = put peer session' s.sessions }) env peer events ▷ λ t.
      tick_each peers t env
]

unfoldable pub tick_sessions : P2pClient → Env → Outcome
tick_sessions s env = tick_each (keys s.sessions) s env

unfoldable pub tick : P2pClient → Env → Option Outcome
tick s env =
    let (s1, out1) =
      tick_heartbeat s env
      ▷ (λ t. tick_auth t env.now)
      ▷ (λ t. tick_nat_detect t env.now)
      ▷ (λ t. tick_relay t env.now) in
    elim (tick_connections s1 env) [
      | none ↦ none
      | some (s2, out2) ↦ some ((s2, out1 ++ out2) ▷ λ t. tick_sessions t env)
    ]
