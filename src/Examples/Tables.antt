-- ===== src/Examples/Tables.antt =====
-- server/natserver: runs of the tables and of the configuration.
use p2p_server.Prelude.{
  Option, ◌+◌, ◌≡◌, ◌≢◌, refl, if◌then◌else◌, ◌⊎◌, bytes_eq, take, drop, true, false, [], ◌∷◌, ◌++◌,
  none, some, Bytes, length, arith, codes, replicate, ap, bytes_lt, is_empty,
}
use p2p_server.Prelude.Maps.{find, contains, insert, nat_key, bytes_key}
use p2p_server.Prelude.Unique.{Ordered}
use p2p_server.Util.{Sockaddr}
use p2p_server.PeerManage.{PeerManager, Report, new_manager, get, cleanup_timeout_and_collect}
use p2p_server.PeerManage.Table.{IsManager, heartbeat, login, leave, run, run_new-IsManager}
use p2p_server.PeerManage.Expiry.{cleanup_exact, is_silent, has}
use p2p_server.AntiAbuse.{AntiAbuse, new_anti_abuse, check_flood, drop_older, arrivals}
use p2p_server.AntiAbuse.Flood.{burst, burst-check_flood}
use p2p_server.LicenseMgr.{
  LicenseMgr, UuidSet, enc_magic, plain_header, plain_text, lines_of, decrypt_file, returned,
  blocked, save, load, drop_cr,
}
use p2p_server.LicenseMgr.File.{load-save, load_never_succeeds, AreListed}
use p2p_server.LicenseMgr.Padding.{padding_enters_list, after_text}
use p2p_server.Prelude.Wire.{be32, padded}
use p2p_server.Crypto.Sha256.{
  sha256_init, sha256_update, sha256_final, update_loop, length_bytes, pad_zeros, flush,
  sha256_block,
}
use p2p_server.Crypto.Hmac.{hmac_sha256, hmac_key_block, xor_with, pbkdf2_hmac_sha256}
use p2p_server.Crypto.Aes.{aes256_decrypt_block, aes256_expand_key}
use p2p_server.Crypto.Modes.{aes256_cbc_decrypt, strip_padding, cbc_decrypt_blocks}
use p2p_server.CfgFile.{default_cfg, parse_file}
use p2p_server.CfgFile.Bounds.{IsCfg, parse_file-IsCfg}

abbrev home : Sockaddr
home = record { addr = 16777343; port = 4000 }

abbrev report : Report
report = record { pub_addr = home; lan_addr = home; dev_type = 1; nattype = 2; extinfo = codes "x" }

run_new-IsManager_example : IsManager (
    run new_manager (
      heartbeat (codes "a") report 5
      ∷ login (codes "b") 90
      ∷ heartbeat [] report 6
      ∷ leave (codes "a")
      ∷ []))
run_new-IsManager_example = run_new-IsManager (
    heartbeat (codes "a") report 5
    ∷ login (codes "b") 90
    ∷ heartbeat [] report 6
    ∷ leave (codes "a")
    ∷ [])

abbrev one_peer : PeerManager
one_peer = record {
  peers =
      (
        codes "a",
        record {
          uuid = codes "a";
          pub_addr = home;
          lan_addr = home;
          dev_type = 1;
          nattype = 2;
          last_heartbeat = 5;
          register_time = 5;
          auth_expire = 0;
          extlen = 1;
          extinfo = codes "x";
        },
      )
      ∷ [];
  auth_sessions = [];
}

one_peer-IsManager : IsManager one_peer
one_peer-IsManager = ((tt, tt), tt, ((refl, refl, refl, omega arith), tt))

cleanup_exact_example :
    let (s', removed) = cleanup_timeout_and_collect one_peer 90 96 in
    (get s' (codes "a")
      ≡ (if is_silent 96 90 (get one_peer (codes "a")) then none else get one_peer (codes "a")))
    × (has (codes "a") removed ≡ is_silent 96 90 (get one_peer (codes "a")))
cleanup_exact_example = cleanup_exact one_peer (codes "a") 90 96 one_peer-IsManager

abbrev strict : AntiAbuse
strict = record new_anti_abuse { flood_threshold = 2 }

quiet : drop_older 50 (arrivals home.addr strict.flood) ≡ []
unfolding drop_older arrivals find
quiet = refl

free : contains home.addr strict.ip_black ≡ false
unfolding find
free = refl

burst-check_flood_example :
    let (s', answers) = burst 2 strict home 50 in
    let (s'', flooded) = check_flood s' home 50 in
    (answers ≡ replicate 2 false)
    × (flooded ≡ true)
    × (find home.addr s''.ip_black ≡ some (50 + strict.blacklist_sec))
burst-check_flood_example = burst-check_flood strict home 50 free quiet

abbrev two_uuids : UuidSet
two_uuids = (codes "ab", tt) ∷ (codes "b", tt) ∷ []

two_uuids-AreListed : AreListed two_uuids
unfolding drop_cr
two_uuids-AreListed = (
  (
    (λ e. absurd (omega arith)),
    ((λ e. absurd (omega arith)), ((λ e. absurd (omega arith)), tt)),
    refl,
  ),
  (((λ e. absurd (omega arith)), ((λ e. absurd (omega arith)), tt), refl), tt),
)

two_uuids-Ordered : Ordered two_uuids
unfolding bytes_lt
two_uuids-Ordered = ((refl, tt), (tt, tt))

abbrev manager : LicenseMgr
manager = record { path = codes "list.dat"; pass = []; uuids = two_uuids }

named : manager.path ≢ []
named e = absurd (omega (arith, ap length e))

load-save_example :
    (save manager [] [] ≡ some (plain_text manager))
    × (load (record manager { uuids = [] }) manager.path (some (plain_text manager))
        ≡ blocked (record manager { path = manager.path; uuids = two_uuids }))
load-save_example =
    load-save manager (record manager { uuids = [] }) [] [] named refl two_uuids-AreListed
      two_uuids-Ordered

unopened : load manager (codes "list.dat") none ≡ returned manager false
unfolding load
unopened = refl

load_never_succeeds_example :
    (false ≡ false)
    × (manager.uuids ≡ manager.uuids)
    × (manager.pass ≡ manager.pass)
    × ((◌≡◌ {A = Option Bytes} none none)
        ⊎ ((raw : Bytes) × (none ≡ some raw) × (bytes_eq (take 4 raw) enc_magic ≡ true)))
load_never_succeeds_example =
    load_never_succeeds manager manager (codes "list.dat") none false unopened

-- The two uuids under the password `k`, with one iteration.
abbrev two_encrypted : Bytes
two_encrypted =
    codes "P2PL"
    ++ 1 ∷ 0 ∷ 0 ∷ 0 ∷ 1 ∷ replicate 16 1
    ++ replicate 16 2
    ++ 155 ∷ 224 ∷ 116 ∷ 221 ∷ 64 ∷ 128 ∷ 71 ∷ 247 ∷ 70 ∷ 158 ∷ 193 ∷ 71 ∷ 46 ∷ 179 ∷ 127 ∷ 130
      ∷ 215 ∷ 106 ∷ 209 ∷ 37 ∷ 106 ∷ 31 ∷ 27 ∷ 109 ∷ 175 ∷ 14 ∷ 12 ∷ 186 ∷ 162 ∷ 247 ∷ 66 ∷ 38 ∷ []

abbrev locked_manager : LicenseMgr
locked_manager = record { path = []; pass = codes "k"; uuids = [] }

-- Its key.
abbrev two_key : Bytes
two_key =
    138 ∷ 186 ∷ 73 ∷ 55 ∷ 41 ∷ 65 ∷ 66 ∷ 235 ∷ 64 ∷ 195 ∷ 109 ∷ 216 ∷ 62 ∷ 22 ∷ 9 ∷ 216 ∷ 44 ∷ 244
    ∷ 38 ∷ 71 ∷ 172 ∷ 38 ∷ 18 ∷ 82 ∷ 185 ∷ 240 ∷ 44 ∷ 134 ∷ 12 ∷ 115 ∷ 245 ∷ 130 ∷ []

two_key_mac : hmac_sha256 (codes "k") (replicate 16 1 ++ be32 1) ≡ two_key
unfolding hmac_sha256 sha256_final sha256_update update_loop length_bytes pad_zeros hmac_key_block
    padded sha256_init flush sha256_block
two_key_mac = refl

two_key_derived : pbkdf2_hmac_sha256 (codes "k") (replicate 16 1) 1 32 ≡ two_key
unfolding pbkdf2_hmac_sha256
two_key_derived = rw two_key_mac refl

two_opened :
    aes256_cbc_decrypt two_key (replicate 16 2) (drop 41 two_encrypted) 33
    ≡ some (
      plain_header ++ lines_of two_uuids ++ replicate 11 11,
      length plain_header + length (lines_of two_uuids),
    )
unfolding lines_of aes256_cbc_decrypt strip_padding cbc_decrypt_blocks xor_with aes256_decrypt_block
    aes256_expand_key
two_opened = refl

two_decrypted :
    decrypt_file (codes "k") two_encrypted
    ≡ some (
      plain_header ++ lines_of two_uuids ++ replicate 11 11,
      length plain_header + length (lines_of two_uuids),
    )
unfolding decrypt_file
two_decrypted = rw (two_key_derived) two_opened

padding_enters_list_example :
    load locked_manager (codes "list.dat") (some two_encrypted)
    ≡ blocked (record locked_manager {
      path = codes "list.dat";
      uuids = insert (after_text 11) tt two_uuids;
    })
unfolding bytes_eq
padding_enters_list_example =
    padding_enters_list locked_manager (codes "list.dat") two_encrypted two_uuids 11 refl
      (omega arith) refl two_decrypted two_uuids-AreListed two_uuids-Ordered (omega arith)
      (omega arith) (λ e. absurd (omega arith))

parse_file-IsCfg_example :
    let (cfg, ok) =
      parse_file default_cfg
        (codes "cfg")
        (some (codes "NatServer1=1.2.3.4:9\nProcWorkers=99\n")) in
    (ok ≡ true) × IsCfg cfg × (is_empty cfg.nat_ips ≡ false) × (is_empty cfg.proxy_ips ≡ false)
parse_file-IsCfg_example =
    parse_file-IsCfg default_cfg (codes "cfg") (codes "NatServer1=1.2.3.4:9\nProcWorkers=99\n")
