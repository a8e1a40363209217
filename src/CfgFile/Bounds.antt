-- ===== src/CfgFile/Bounds.antt =====
-- server/natserver/src/CfgFile.cpp: what holds of a configuration, whatever the file says.
use p2p_server.Prelude.{
  ℕ, ◌-◌, ◌^◌, ◌≤◌, ◌<◌, ◌==◌, if◌then◌else◌, ◌≡◌, refl, true, false, List, [], ◌∷◌, ◌++◌, Option,
  none, some, Bytes, is_empty, arith, All, All-append, Bool-cases, inl, inr, c_str,
}
use p2p_server.CfgFile.{
  CfgData, default_cfg, add_nat, add_proxy, parse_number, parse_text, parse_value, parse_pair,
  parse_line, parse_lines, parse_file, loopback, or_loopback,
}
use p2p_server.CfgFile.Text.{valid_ip, ip_part, valid_ip_loop, split_first, trim}

abbrev pub IsIp : Bytes → Type 0
IsIp ip = valid_ip ip ≡ true

-- The numbers are in their ranges and the server addresses have the form that `valid_ip` asks for.
abbrev pub IsCfg : CfgData → Type 0
IsCfg c =
    ((1 ≤ c.proc_workers) × (c.proc_workers ≤ 64))
    × ((1 ≤ c.recv_threads) × (c.recv_threads ≤ 16))
    × ((1 ≤ c.flood_pkt_threshold) × (1 ≤ c.blacklist_seconds) × (c.nat_sock2_port < 2 ^ 16))
    × All IsIp c.nat_ips
    × All IsIp c.proxy_ips

default-IsCfg : (path : Bytes) → IsCfg (record default_cfg { cfg_path = path })
default-IsCfg path = (
  (omega arith, omega arith),
  (omega arith, omega arith),
  (omega arith, omega arith, omega arith),
  tt,
  tt,
)

add_nat-IsCfg : (c : CfgData) (val : Bytes) → IsCfg c → IsCfg (add_nat c val)
unfolding add_nat
add_nat-IsCfg c val (w, r, n, a, b) = elim (Bool-cases (valid_ip (ip_part val))) [
  | inl good ↦ rw good (w, r, n, All-append IsIp c.nat_ips (ip_part val ∷ []) a (good, tt), b)
  | inr bad ↦ rw bad (w, r, n, a, b)
]

add_proxy-IsCfg : (c : CfgData) (val : Bytes) → IsCfg c → IsCfg (add_proxy c val)
unfolding add_proxy
add_proxy-IsCfg c val (w, r, n, a, b) = elim (Bool-cases (valid_ip (ip_part val))) [
  | inl good ↦ rw good (w, r, n, a, All-append IsIp c.proxy_ips (ip_part val ∷ []) b (good, tt))
  | inr bad ↦ rw bad (w, r, n, a, b)
]

parse_number-IsCfg : (c : CfgData) (key val : Bytes) → IsCfg c → IsCfg (parse_number c key val)
unfolding parse_number
parse_number-IsCfg c key val (w, r, n, a, b) = ground arith

parse_text-IsCfg : (c : CfgData) (key val : Bytes) → IsCfg c → IsCfg (parse_text c key val)
unfolding parse_text
parse_text-IsCfg c key val h = ground (arith, parse_number-IsCfg c key val h)

parse_value-IsCfg : (c : CfgData) (key val : Bytes) → IsCfg c → IsCfg (parse_value c key val)
unfolding parse_value
parse_value-IsCfg c key val h =
    ground (arith, parse_text-IsCfg c key val h, add_nat-IsCfg c val h, add_proxy-IsCfg c val h)

parse_pair-IsCfg :
    (c : CfgData) (pair : Option (Bytes × Bytes)) → IsCfg c → IsCfg (parse_pair c pair)
unfolding parse_pair
parse_pair-IsCfg c none h = h
parse_pair-IsCfg c (some (key, val)) h = ground (arith, parse_value-IsCfg c (trim key) (trim val) h)

parse_line-IsCfg : (c : CfgData) (line : Bytes) → IsCfg c → IsCfg (parse_line c line)
unfolding parse_line
parse_line-IsCfg c line h = by_text (trim (c_str line))
  where
    by_text :
        (text : Bytes)
        → IsCfg (elim text [
          | [] ↦ c
          | ◌∷◌ b bs ↦ if b == b'#' then c else parse_pair c (split_first b'=' (b ∷ bs))
        ])
    by_text [] = h
    by_text (b ∷ bs) = ground (arith, parse_pair-IsCfg c (split_first b'=' (b ∷ bs)) h)

parse_lines-IsCfg :
    (room : ℕ) (line content : Bytes) (c : CfgData)
    → IsCfg c
    → IsCfg (parse_lines room line content c)
unfolding parse_lines
parse_lines-IsCfg room line [] c h = ground (arith, parse_line-IsCfg c line h)
parse_lines-IsCfg room line (b ∷ bs) c h =
    let whole = line ++ b ∷ [] in
    ground (
      arith,
      parse_lines-IsCfg 511 [] bs (parse_line c whole) (parse_line-IsCfg c whole h),
      parse_lines-IsCfg (room - 1) whole bs c h,
    )

loopback-IsIp : IsIp loopback
unfolding valid_ip valid_ip_loop
loopback-IsIp = refl

or_loopback-All : (ips : List Bytes) → All IsIp ips → All IsIp (or_loopback ips)
or_loopback-All [] h = (loopback-IsIp, tt)
or_loopback-All (ip ∷ ips) h = h

or_loopback-not_empty : (ips : List Bytes) → is_empty (or_loopback ips) ≡ false
or_loopback-not_empty [] = refl
or_loopback-not_empty (ip ∷ ips) = refl

-- Whatever bytes the file holds, the configuration that is read has its numbers in their ranges
-- (1 to 64 workers, 1 to 16 receiving threads, a threshold and a time of at least 1), at least one
-- server and one proxy, and only addresses of the form that `valid_ip` asks for.
pub parse_file-IsCfg :
    (out : CfgData) (path content : Bytes)
    → let (cfg, ok) = parse_file out path (some content) in
      (ok ≡ true) × IsCfg cfg × (is_empty cfg.nat_ips ≡ false) × (is_empty cfg.proxy_ips ≡ false)
unfolding parse_file
parse_file-IsCfg out path content =
    let fresh = parse_lines 511 [] content (record default_cfg { cfg_path = path }) in
    let (w, r, n, a, b) =
      parse_lines-IsCfg 511 [] content (record default_cfg { cfg_path = path })
        (default-IsCfg path) in
    (
      refl,
      (w, r, n, or_loopback-All fresh.nat_ips a, or_loopback-All fresh.proxy_ips b),
      or_loopback-not_empty fresh.nat_ips,
      or_loopback-not_empty fresh.proxy_ips,
    )
