-- ===== src/Client/Loop.antt =====
-- client/sdk/api/P2PClient.cpp, `worker_loop`: one turn of the worker's loop. What `select` and
-- `recvfrom` gave is an argument: the datagram of the main socket, and those of the pools.
use p2p_server.Prelude.{ℕ, ltb, if◌then◌else◌, ◌&&◌, List, [], ◌∷◌, ◌++◌, Option, none, some, Bytes}
use p2p_server.Prelude.Maps.{contains, bytes_key}
use p2p_server.Util.{Sockaddr}
use p2p_server.Client.{P2pClient, Env, Outcome, ◌▷◌, conn_at}
use p2p_server.Client.Packet.{handle_packet, receive_punch}
use p2p_server.Client.Tick.{tick}

-- A datagram that is there on socket `index` of the pool of a connection.
pub record Arrival : Type 0 where
  pub peer : Bytes
  pub index : ℕ
  pub input : Bytes
  pub from : Sockaddr

unfoldable pub receive_main : P2pClient → Env → Option (Bytes × Sockaddr) → Outcome
receive_main s env none = (s, [])
receive_main s env (some (input, from)) = handle_packet s env input from

unfoldable pub receive_pools : P2pClient → Env → List Arrival → Outcome
receive_pools s env [] = (s, [])
receive_pools s env (a ∷ rest) =
    (if contains a.peer s.conns && ltb a.index (conn_at s a.peer).punch.punch_socks
      then receive_punch s env a.peer a.index a.input a.from
      else (s, []))
    ▷ λ t. receive_pools t env rest

-- `none` where `tick` is undefined.
unfoldable pub turn : P2pClient → Env → Option (Bytes × Sockaddr) → List Arrival → Option Outcome
turn s env main pools =
    let (s', out) = receive_main s env main ▷ λ t. receive_pools t env pools in
    elim (tick s' env) [ none ↦ none | some (s'', more) ↦ some (s'', out ++ more) ]
