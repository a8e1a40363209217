-- ===== src/Client/Life.antt =====
-- client/sdk/api/P2PClient.cpp: `start`, `stop` and the beginning of `worker_loop`.
use p2p_server.Prelude.{
  ℕ, ◌+◌, ltb, if◌then◌else◌, Bool, true, false, not, ◌||◌, [], ◌∷◌, Option, none, some, length,
  is_empty, replicate,
}
use p2p_server.ProtoDef.{max_uuid_len, nat_unknown, msg_proxy_unregister_req}
use p2p_server.ProtoDef.Client.{proxy_reg_req_bytes}
use p2p_server.Util.{Sockaddr}
use p2p_server.NatDetect.{new_detect}
use p2p_server.Client.{P2pClient, ServerAddr, Config, Outcome, new_backoff, no_addr, sockaddr_from}
use p2p_server.Client.Path.{send_proto, to_proxy}
use p2p_server.Client.Auth.{do_auth_challenge}

abbrev pub no_config : Config
no_config = record {
  uuid = [];
  secret = [];
  nat_servers = [];
  proxy_servers = [];
  heartbeat_ms = 20000;
  heartbeat_retry_ms = 3000;
  nat_detect_timeout_ms = 2500;
  connect_timeout_ms = 6000;
  punch_interval_ms = 1000;
  auth_timeout_ms = 3000;
  relay_register_ms = 1000;
  nat_detect_enabled = true;
  auto_relay = true;
  force_relay = false;
}

-- A client as it is constructed.
abbrev pub new_client : P2pClient
new_client = record {
  running = false;
  local_port = 0;
  cfg = no_config;
  secret = [];
  nat_server = record { ip = []; port = 0 };
  nat_sock = no_addr;
  alt_port = 0;
  pub_ip = replicate 16 0;
  pub_port = 0;
  next_heartbeat_ms = 0;
  heartbeat_fail = 0;
  heartbeat_backoff = new_backoff;
  authed = true;
  heartbeat_enc = false;
  auth_denied = false;
  auth_nonce = replicate 16 0;
  next_auth_try = 0;
  auth_inflight = false;
  auth_backoff = new_backoff;
  tunnel_enc = false;
  tunnel_keys = [];
  tunnel_enc_tx = 0;
  tunnel_enc_rx = 0;
  nat_detect = new_detect;
  nat_type = nat_unknown;
  proxies = [];
  next_relay_reg = 0;
  relay_registered = false;
  conns = [];
  sessions = [];
  addr_to_peer = [];
  next_session_id = 1;
  ready_fired = false;
  pending_remote_sdp = [];
}

-- The state after the checks of `start`, with the port that the socket was given.
unfoldable pub started : P2pClient → Config → ServerAddr → Sockaddr → ℕ → ℕ → P2pClient
started s cfg server sock port now = record s {
  running = true;
  local_port = port;
  cfg = cfg;
  secret = cfg.secret;
  nat_server = server;
  nat_sock = sock;
  alt_port = 0;
  pub_ip = replicate 16 0;
  pub_port = 0;
  heartbeat_fail = 0;
  authed = is_empty cfg.secret;
  heartbeat_enc = false;
  auth_denied = false;
  auth_inflight = false;
  tunnel_enc = not (is_empty cfg.secret);
  tunnel_keys = [];
  nat_type = nat_unknown;
  proxies = cfg.proxy_servers;
  next_relay_reg = if is_empty cfg.proxy_servers then 0 else now;
  relay_registered = false;
  pending_remote_sdp = [];
}

-- What stays behind when the server's text is no address or the socket cannot be opened.
abbrev pub half_started : P2pClient → Config → ServerAddr → Sockaddr → P2pClient
half_started s cfg server sock = record s {
  cfg = cfg;
  secret = cfg.secret;
  nat_server = server;
  nat_sock = sock;
}

-- `port` is none if the socket cannot be opened.
unfoldable pub start_with :
    P2pClient → Config → ServerAddr → Option Sockaddr → Option ℕ → ℕ → P2pClient × Bool
start_with s cfg server none port now = (half_started s cfg server no_addr, false)
start_with s cfg server (some sock) none now = (half_started s cfg server sock, false)
start_with s cfg server (some sock) (some port) now = (started s cfg server sock port now, true)

unfoldable pub start : P2pClient → Config → Option ℕ → ℕ → P2pClient × Bool
start s cfg port now =
    if s.running || is_empty cfg.uuid || ltb max_uuid_len (length cfg.uuid)
    then (s, false)
    else elim cfg.nat_servers [
      | [] ↦ (s, false)
      | server ∷ rest ↦ start_with s cfg server (sockaddr_from server) port now
    ]

-- What `worker_loop` does before its first turn.
unfoldable pub begin : P2pClient → ℕ → Outcome
begin s now =
    if is_empty s.secret
    then (record s { next_heartbeat_ms = now + 100 }, [])
    else (record (do_auth_challenge s).0 { next_heartbeat_ms = now + 500 }, (do_auth_challenge s).1)

unfoldable pub stop : P2pClient → Outcome
stop s =
    let leave = to_proxy s.proxies (
      send_proto msg_proxy_unregister_req
        (proxy_reg_req_bytes (record { uuid = s.cfg.uuid; hmac = [] }))) in
    if not s.running then (s, []) else (
      record s { running = false; conns = []; sessions = []; addr_to_peer = [] },
      if s.relay_registered then leave else [],
    )
