-- ===== src/Examples/Directory.antt =====
-- server/natserver: runs of the directory server.
use p2p_server.Prelude.{
  ◌+◌, ◌≡◌, refl, if◌then◌else◌, true, false, ◌&&◌, [], ◌∷◌, none, Bytes, bytes_eq, codes,
  replicate, ltb, leb,
}
use p2p_server.Prelude.Maps.{nat_key, bytes_key}
use p2p_server.ProtoDef.Requests.{UuidReq}
use p2p_server.Util.{Sockaddr}
use p2p_server.CfgFile.{default_cfg, auth_enabled}
use p2p_server.PeerManage.{new_manager, authed}
use p2p_server.AntiAbuse.{new_anti_abuse}
use p2p_server.NatServer.{NatServer}
use p2p_server.NatServer.Auth.{issue_auth_nonce, verify_auth_login, login_mac}
use p2p_server.NatServer.Auth.Nonce.{login_once, login-challenge}
use p2p_server.NatServer.Packet.Peers.{Env}
use p2p_server.Client
use p2p_server.Client.{P2pClient, Output}
use p2p_server.Client.Life.{no_config, new_client}

abbrev pub home : Sockaddr
home = record { addr = 16777343; port = 4000 }

abbrev pub away : Sockaddr
away = record { addr = 16777343; port = 5000 }

-- A server without peers that asks for no login.
abbrev pub open_server : NatServer
open_server = record {
  cfg = record default_cfg { proxy_ips = codes "10.0.0.1" ∷ []; sync_auth_secret = codes "k" };
  nat_port = 9000;
  proxy_port = 9100;
  wan_ip = codes "0.0.0.0";
  alt_port = 9001;
  peers = new_manager;
  abuse = new_anti_abuse;
  license = record { path = []; pass = []; uuids = [] };
  sync_on = true;
  sync_addrs = home ∷ away ∷ [];
  sync_seen = [];
  mq = [];
  proxy_health = [];
  auth_nonces = [];
  total_pkts = 0;
  connect_ok = 0;
  connect_fail = 0;
}

-- The same with a login asked for.
abbrev pub closed_server : NatServer
closed_server = record open_server {
  cfg = record open_server.cfg { enable_auth = true; auth_secret = codes "s" };
}

pub closed : auth_enabled closed_server.cfg ≡ true
unfolding auth_enabled
closed = refl

abbrev pub nonce : Bytes
nonce = replicate 16 5

login-challenge_example :
    let (s', ok) =
      verify_auth_login
        (issue_auth_nonce closed_server (codes "a") nonce 10)
        (codes "a")
        nonce
        (replicate 32 0)
        20 in
    (ok ≡ (
      leb 20 (10 + 30)
      && bytes_eq nonce nonce
      && bytes_eq (login_mac closed_server.cfg.auth_secret (codes "a") nonce) (replicate 32 0)))
    × (authed s'.peers (codes "a") 100
        ≡ (if ok then ltb 100 (20 + 3600) else authed closed_server.peers (codes "a") 100))
login-challenge_example =
    login-challenge closed_server (codes "a") nonce nonce (replicate 32 0) 10 20 100 closed refl

still_closed : auth_enabled (issue_auth_nonce closed_server (codes "a") nonce 10).cfg ≡ true
unfolding issue_auth_nonce auth_enabled
still_closed = refl

login_once_example :
    (verify_auth_login
      (verify_auth_login
        (issue_auth_nonce closed_server (codes "a") nonce 10)
        (codes "a")
        nonce
        []
        20).0
      (codes "a")
      nonce
      []
      21).1
    ≡ false
login_once_example =
    login_once (issue_auth_nonce closed_server (codes "a") nonce 10) (codes "a") nonce [] nonce []
      20 21 still_closed

abbrev beat : UuidReq
beat = record {
  uuid = codes "a";
  dev_type = 1;
  nattype = 2;
  lan_port = 4001;
  session_pts = 0;
  extlen = 0;
}

abbrev env : Env
env = record { now = 30; nonce = nonce; draws = []; invite_draws = []; beyond = [] }

-- A client that may use any path.
abbrev caller : P2pClient
caller = record new_client { cfg = record no_config { uuid = codes "b" } }

abbrev call_env : p2p_server.Client.Env
call_env = record {
  now = 20000;
  nonce = λ n. replicate 12 n;
  iv = replicate 8 7;
  agent = false;
  description = none;
  beyond = [];
}

-- The client that sends the heartbeat of the uuid "a", with the server's secret.
abbrev beater : P2pClient
beater = record new_client { cfg = record no_config { uuid = codes "a" }; secret = codes "s" }
