-- ===== src/Client/Tick/Erased.antt =====
-- client/sdk/api/P2PClient.cpp, `tick_connections`: the connections that a turn of the loop gives up,
-- and a client that gives up none.
use p2p_server.Prelude.{
  ◌+◌, ◌≤◌, ◌≡◌, refl, ap, ◌∙◌, true, false, not, ◌||◌, ◌∷◌, Option, none, some, Bytes,
  bytes_eq_refl, arith,
}
use p2p_server.Prelude.Maps.{Map, find, contains, bytes_key, find-erase}
use p2p_server.Client.{P2pClient, Conn, Env, Outcome, conn_at}
use p2p_server.Client.Path.{close_conn}
use p2p_server.Client.Tick.{
  no_answer, punch_due, tick_conn_punch, go_on, tick_conn, tick_all, keys, tick_connections,
}

here : (s : P2pClient) (peer : Bytes) (c : Conn) → find peer s.conns ≡ some c → conn_at s peer ≡ c
unfolding conn_at
here s peer c found = rw (found, conn_at) refl

given_up :
    (s : P2pClient) (env : Env) (c : Conn)
    → find c.peer_uuid s.conns ≡ some c
    → punch_due c env.now ≡ false
    → no_answer s c env.now ≡ true
    → contains c.peer_uuid (tick_conn_punch s env c.peer_uuid).0.conns ≡ false
unfolding tick_conn_punch close_conn
given_up s env c found still lost =
    let gone = find-erase c.peer_uuid c.peer_uuid s.conns in
    rw (here s c.peer_uuid c found, still, lost, gone, bytes_eq_refl c.peer_uuid) refl

stops :
    (peer : Bytes) (r : Outcome) (act : P2pClient → Option Outcome)
    → contains peer r.0.conns ≡ false
    → go_on peer r act ≡ none
unfolding go_on
stops peer r act gone = rw (gone, go_on) refl

breaks :
    (s : P2pClient) (env : Env) (c : Conn)
    → find c.peer_uuid s.conns ≡ some c
    → (not c.connecting || c.connected) ≡ false
    → punch_due c env.now ≡ false
    → no_answer s c env.now ≡ true
    → tick_conn s env c.peer_uuid ≡ none
unfolding tick_conn
breaks s env c found waits still lost =
    rw (here s c.peer_uuid c found, waits, tick_conn)
      (stops c.peer_uuid (tick_conn_punch s env c.peer_uuid) _ (given_up s env c found still lost))

-- If the first connection of the table was asked for, is not up and has no address of the peer when
-- its time is over, and the relay is not forced, then the turn of the loop is undefined: it goes on
-- with the connection that it has just erased.
pub unanswered_connect :
    (s : P2pClient) (env : Env) (c : Conn) (rest : Map Bytes Conn)
    → s.conns ≡ (c.peer_uuid, c) ∷ rest
    → c.connecting ≡ true
    → c.connected ≡ false
    → c.punch.have_direct ≡ false
    → s.cfg.force_relay ≡ false
    → c.punch.punch_deadline + s.cfg.connect_timeout_ms ≤ env.now
    → tick_connections s env ≡ none
unfolding tick_connections tick_all tick_conn keys find
unanswered_connect s env c rest conns asked fresh nowhere free late =
    let found : find c.peer_uuid s.conns ≡ some c =
      ap (find c.peer_uuid) conns ∙ rw (bytes_eq_refl c.peer_uuid) refl in
    let still : punch_due c env.now ≡ false = ground (arith, nowhere) in
    let lost : no_answer s c env.now ≡ true = ground (arith, nowhere, free, late) in
    let broken = breaks s env c found (ground (arith, asked, fresh)) still lost in
    ap (λ (m : Map Bytes Conn). tick_all (keys m) s env) conns ∙ rw (broken, tick_all) refl
