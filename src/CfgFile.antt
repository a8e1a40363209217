-- ===== src/CfgFile.antt =====
-- server/natserver/src/CfgFile.{h,cpp}: the configuration file. A file is its bytes, `none` if it
-- cannot be opened; its modification time is an argument.
pub mod Text
pub mod Bounds
pub mod Reload
use p2p_server.Prelude.{
  ℕ, zero, suc, ◌+◌, ◌-◌, ◌*◌, ◌%◌, ◌^◌, ◌==◌, ltb, leb, if◌then◌else◌, Bool, true, false, not,
  ◌&&◌, ◌||◌, List, [], ◌∷◌, ◌++◌, Option, none, some, Bytes, bytes_eq, length, is_empty, codes,
  c_str, take,
}
use p2p_server.CfgFile.Text.{
  trim, valid_ip, split_first, ip_part, atoi, starts_with, is_yes, split_commas,
}

pub record CfgData : Type 0 where
  pub nat_ips : List Bytes
  pub proxy_ips : List Bytes
  pub auth_secret : Bytes
  pub enable_auth : Bool
  pub enable_license : Bool
  pub allowed_uuids : List Bytes
  pub license_file : Bytes
  pub license_pass : Bytes
  pub sync_enabled : Bool
  pub sync_addrs : List Bytes
  pub sync_auth_secret : Bytes
  pub admin_secret : Bytes
  pub blacklist_file : Bytes
  pub blacklist_pass : Bytes
  pub proc_workers : ℕ
  pub recv_threads : ℕ
  pub flood_pkt_threshold : ℕ
  pub blacklist_seconds : ℕ
  pub nat_sock2_port : ℕ
  pub cfg_path : Bytes
  pub loaded : Bool

abbrev pub default_cfg : CfgData
default_cfg = record {
  nat_ips = [];
  proxy_ips = [];
  auth_secret = [];
  enable_auth = false;
  enable_license = false;
  allowed_uuids = [];
  license_file = [];
  license_pass = [];
  sync_enabled = false;
  sync_addrs = [];
  sync_auth_secret = [];
  admin_secret = [];
  blacklist_file = [];
  blacklist_pass = [];
  proc_workers = 4;
  recv_threads = 2;
  flood_pkt_threshold = 200;
  blacklist_seconds = 60;
  nat_sock2_port = 0;
  cfg_path = [];
  loaded = false;
}

unfoldable pub listed : Bytes → List Bytes → Bool
listed u [] = false
listed u (v ∷ vs) = bytes_eq v u || listed u vs

unfoldable pub uuid_allowed : CfgData → Bytes → Bool
uuid_allowed cfg uuid =
    not cfg.enable_license || is_empty cfg.allowed_uuids || listed uuid cfg.allowed_uuids

unfoldable pub auth_enabled : CfgData → Bool
auth_enabled cfg = cfg.enable_auth && not (is_empty cfg.auth_secret)

unfoldable pub add_nat : CfgData → Bytes → CfgData
add_nat out val =
    let ip = ip_part val in
    if valid_ip ip then record out { nat_ips = out.nat_ips ++ ip ∷ [] } else out

unfoldable pub add_proxy : CfgData → Bytes → CfgData
add_proxy out val =
    let ip = ip_part val in
    if valid_ip ip then record out { proxy_ips = out.proxy_ips ++ ip ∷ [] } else out

-- The keys whose value is a number.
unfoldable pub parse_number : CfgData → Bytes → Bytes → CfgData
parse_number out key val =
    let n = atoi val in
    if bytes_eq key (codes "ProcWorkers")
    then if leb 1 n && leb n 64 then record out { proc_workers = n } else out
    else if bytes_eq key (codes "RecvThreads")
    then if leb 1 n && leb n 16 then record out { recv_threads = n } else out
    else if bytes_eq key (codes "FloodPktThreshold")
    then if leb 1 n then record out { flood_pkt_threshold = n } else out
    else if bytes_eq key (codes "BlacklistSeconds")
    then if leb 1 n then record out { blacklist_seconds = n } else out
    else if bytes_eq key (codes "NatSock2Port")
    then if ltb 0 (n % 2 ^ 16) then record out { nat_sock2_port = n % 2 ^ 16 } else out
    else out

-- The keys whose value is kept as it is, or is a flag or a list.
unfoldable pub parse_text : CfgData → Bytes → Bytes → CfgData
parse_text out key val =
    if bytes_eq key (codes "AuthSecret")
    then record out { auth_secret = val }
    else if bytes_eq key (codes "EnableAuth")
    then record out { enable_auth = is_yes val }
    else if bytes_eq key (codes "EnableLicense")
    then record out { enable_license = is_yes val }
    else if bytes_eq key (codes "LicenseFile")
    then record out { license_file = val }
    else if bytes_eq key (codes "LicensePass")
    then record out { license_pass = val }
    else if bytes_eq key (codes "AllowedUuids")
    then record out { allowed_uuids = split_commas [] val }
    else if bytes_eq key (codes "WhitelistUuids")
    then record out { allowed_uuids = split_commas [] val; enable_license = true }
    else if bytes_eq key (codes "SyncPeers")
    then record out { sync_enabled = is_yes val }
    else if bytes_eq key (codes "SyncAddrs")
    then record out { sync_addrs = split_commas [] val }
    else if bytes_eq key (codes "SyncAuthSecret")
    then record out { sync_auth_secret = val }
    else if bytes_eq key (codes "AdminSecret")
    then record out { admin_secret = val }
    else if bytes_eq key (codes "BlacklistFile")
    then record out { blacklist_file = val }
    else if bytes_eq key (codes "BlacklistPass")
    then record out { blacklist_pass = val }
    else parse_number out key val

unfoldable pub parse_value : CfgData → Bytes → Bytes → CfgData
parse_value out key val =
    if starts_with (codes "NatServer") key
    then add_nat out val
    else if starts_with (codes "Proxy") key
    then add_proxy out val
    else parse_text out key val

unfoldable pub parse_pair : CfgData → Option (Bytes × Bytes) → CfgData
parse_pair out none = out
parse_pair out (some (key, val)) =
    if is_empty (trim key) then out else parse_value out (trim key) (trim val)

unfoldable pub parse_line : CfgData → Bytes → CfgData
parse_line out line = elim (trim (c_str line)) [
  | [] ↦ out
  | ◌∷◌ c cs ↦ if c == b'#' then out else parse_pair out (split_first b'=' (c ∷ cs))
]

-- The `fgets` loop with its buffer of 512 bytes: a line ends at a line feed, after 511 bytes or with
-- the file. `room` is what is left of the 511 and `line` what has been read.
unfoldable pub parse_lines : ℕ → Bytes → Bytes → CfgData → CfgData
parse_lines room line [] out = if is_empty line then out else parse_line out line
parse_lines room line (b ∷ bs) out =
    let ended = parse_lines 511 [] bs (parse_line out (line ++ b ∷ [])) in
    let more = parse_lines (room - 1) (line ++ b ∷ []) bs out in
    if b == 10 || leb room 1 then ended else more

abbrev pub loopback : Bytes
loopback = codes "127.0.0.1"

abbrev pub or_loopback : List Bytes → List Bytes
or_loopback [] = loopback ∷ []
or_loopback (ip ∷ ips) = ip ∷ ips

unfoldable pub parse_file : CfgData → Bytes → Option Bytes → CfgData × Bool
parse_file out path none = (out, false)
parse_file out path (some content) =
    let fresh = parse_lines 511 [] content (record default_cfg { cfg_path = path }) in
    (
      record fresh {
        nat_ips = or_loopback fresh.nat_ips;
        proxy_ips = or_loopback fresh.proxy_ips;
        loaded = true;
      },
      true,
    )

unfoldable pub load_server_set : CfgData → Bytes → Option Bytes → CfgData × Bool
load_server_set out path file =
    let (cfg, ok) = parse_file out path file in
    if ok
    then (cfg, true)
    else (record cfg { nat_ips = loopback ∷ []; proxy_ips = loopback ∷ []; cfg_path = path }, false)

-- With the new configuration the time that the caller keeps; `mt` is 0 when there is no file.
unfoldable pub reload_if_changed : CfgData → Bytes → ℕ → Option Bytes → ℕ → CfgData × ℕ × Bool
reload_if_changed out path mt file last_mtime =
    if mt == 0 || mt == last_mtime
    then (out, last_mtime, false)
    else (let (cfg, ok) = parse_file out path file in (cfg, mt, ok))

unfoldable pub first_ip : List Bytes → Bytes
first_ip [] = loopback
first_ip (ip ∷ ips) = ip

abbrev pub first_nat_ip : CfgData → Bytes
first_nat_ip cfg = first_ip cfg.nat_ips

abbrev pub first_proxy_ip : CfgData → Bytes
first_proxy_ip cfg = first_ip cfg.proxy_ips
