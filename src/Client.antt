-- ===== src/Client.antt =====
-- client/sdk/api/P2PClient.{h,cpp}: the client of the servers. A method is a step from the state to
-- the next state and its effects, in the order in which they happen. The five callbacks are taken
-- to be set and to call nothing of the client. An ICE agent of libjuice is whether there is one;
-- what the client asks of it is an effect, and what it answers is an argument.
pub mod Backoff
pub mod Tunnel
pub mod Path
pub mod Auth
pub mod Heartbeat
pub mod Ice
pub mod Connect
pub mod Packet
pub mod Tick
pub mod Life
pub mod Loop
use p2p_server.Prelude.{
  ℕ, Bool, true, false, List, [], ◌∷◌, ◌++◌, Option, none, some, Bytes, replicate,
}
use p2p_server.Prelude.Maps.{Map, find, put, bytes_key}
use p2p_server.ProtoDef.{nat_unknown}
use p2p_server.Util.{Sockaddr, inet_pton}
use p2p_server.Session.{Session}
use p2p_server.NatDetect.{NatDetect, new_detect}

pub record ServerAddr : Type 0 where
  pub ip : Bytes
  pub port : ℕ

pub record Config : Type 0 where
  pub uuid : Bytes
  pub secret : Bytes
  pub nat_servers : List ServerAddr
  pub proxy_servers : List ServerAddr
  pub heartbeat_ms : ℕ
  pub heartbeat_retry_ms : ℕ
  pub nat_detect_timeout_ms : ℕ
  pub connect_timeout_ms : ℕ
  pub punch_interval_ms : ℕ
  pub auth_timeout_ms : ℕ
  pub relay_register_ms : ℕ
  pub nat_detect_enabled : Bool
  pub auto_relay : Bool
  pub force_relay : Bool

-- `punch_socks` is the number of sockets in the pool, `direct_sock_idx` none for -1.
pub record PunchState : Type 0 where
  pub direct : Sockaddr
  pub direct_lan : Sockaddr
  pub have_direct : Bool
  pub have_lan : Bool
  pub direct_ok : Bool
  pub punch_deadline : ℕ
  pub next_punch : ℕ
  pub punch_socks : ℕ
  pub direct_sock_idx : Option ℕ
  pub juice : Bool
  pub local_sdp : Bytes
  pub remote_sdp : Bytes

pub record RelayState : Type 0 where
  pub relay_ok : Bool
  pub relay_deadline : ℕ
  pub next_relay_ping : ℕ
  pub proxies : List ServerAddr

-- `owned` is whether `self` points to the client.
pub record Conn : Type 0 where
  pub peer_uuid : Bytes
  pub punch : PunchState
  pub relay : RelayState
  pub connecting : Bool
  pub connected : Bool
  pub backoff_attempt : ℕ
  pub owned : Bool

pub record BackOff : Type 0 where
  pub attempt : ℕ
  pub base_ms : ℕ
  pub cap_ms : ℕ

pub record P2pClient : Type 0 where
  pub running : Bool
  pub local_port : ℕ
  pub cfg : Config
  pub secret : Bytes
  pub nat_server : ServerAddr
  pub nat_sock : Sockaddr
  pub alt_port : ℕ
  pub pub_ip : Bytes
  pub pub_port : ℕ
  pub next_heartbeat_ms : ℕ
  pub heartbeat_fail : ℕ
  pub heartbeat_backoff : BackOff
  pub authed : Bool
  pub heartbeat_enc : Bool
  pub auth_denied : Bool
  pub auth_nonce : Bytes
  pub next_auth_try : ℕ
  pub auth_inflight : Bool
  pub auth_backoff : BackOff
  pub tunnel_enc : Bool
  pub tunnel_keys : Map Bytes Bytes
  pub tunnel_enc_tx : ℕ
  pub tunnel_enc_rx : ℕ
  pub nat_detect : NatDetect
  pub nat_type : ℕ
  pub proxies : List ServerAddr
  pub next_relay_reg : ℕ
  pub relay_registered : Bool
  pub conns : Map Bytes Conn
  pub sessions : Map Bytes Session
  pub addr_to_peer : Map ℕ Bytes
  pub next_session_id : ℕ
  pub ready_fired : Bool
  pub pending_remote_sdp : Bytes

abbrev pub no_addr : Sockaddr
no_addr = record { addr = 0; port = 0 }

-- `Conn` as it is constructed.
abbrev pub new_conn : Conn
new_conn = record {
  peer_uuid = [];
  punch = record {
    direct = no_addr;
    direct_lan = no_addr;
    have_direct = false;
    have_lan = false;
    direct_ok = false;
    punch_deadline = 0;
    next_punch = 0;
    punch_socks = 0;
    direct_sock_idx = none;
    juice = false;
    local_sdp = [];
    remote_sdp = [];
  };
  relay = record { relay_ok = false; relay_deadline = 0; next_relay_ping = 0; proxies = [] };
  connecting = false;
  connected = false;
  backoff_attempt = 0;
  owned = false;
}

abbrev pub new_backoff : BackOff
new_backoff = record { attempt = 0; base_ms = 1000; cap_ms = 30000 }

-- What a step does to the world: a datagram by `sock_` (none) or by a socket of the pool, a callback
-- or a call of the ICE agent of a peer.
pub data Output : Type 0 where
  send_to : Option ℕ → Sockaddr → Bytes → Output
  on_ready : Bytes → ℕ → ℕ → Output
  on_connected : Bytes → Bool → Output
  on_message : Bytes → ℕ → Bytes → Output
  on_disconnected : Bytes → Output
  on_error : Bytes → Output
  juice_gather : Bytes → Output
  juice_remote : Bytes → Bytes → Output
  juice_send : Bytes → Bytes → Output
  juice_destroy : Bytes → Output

-- The clock, the nonce of the n-th frame that is encrypted, the iv of a heartbeat, whether
-- `juice_create` succeeds, what `juice_get_local_description` gives, and the memory behind a frame.
pub record Env : Type 0 where
  pub now : ℕ
  pub nonce : ℕ → Bytes
  pub iv : Bytes
  pub agent : Bool
  pub description : Option Bytes
  pub beyond : Bytes

abbrev pub Outcome : Type 0
Outcome = P2pClient × List Output

-- One step after another.
infixl 5 ◌▷◌
abbrev pub ◌▷◌ : Outcome → (P2pClient → Outcome) → Outcome
r ▷ f = let (s, more) = f r.0 in (s, r.1 ++ more)

-- `conns_[peer]`, a new connection if there is none.
unfoldable pub conn_at : P2pClient → Bytes → Conn
conn_at s peer = elim (find peer s.conns) [ none ↦ new_conn | some c ↦ c ]

abbrev pub set_conn : P2pClient → Bytes → Conn → P2pClient
set_conn s peer c = record s { conns = put peer c s.conns }

-- `sockaddr_from`
unfoldable pub sockaddr_from : ServerAddr → Option Sockaddr
sockaddr_from a = elim (inet_pton a.ip) [
  | none ↦ none
  | some ip ↦ some (record { addr = ip; port = a.port })
]
