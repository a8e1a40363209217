-- ===== src/CfgFile/Reload.antt =====
-- server/natserver/src/CfgFile.cpp, `reload_if_changed`: when a new configuration takes effect.
use p2p_server.Prelude.{ℕ, ◌≡◌, ◌≢◌, true, false, Option, none, some, Bytes, arith}
use p2p_server.CfgFile.{CfgData, parse_file, load_server_set, reload_if_changed}

-- A file whose time is the one kept is not read. Any other is read as at the first start, with no
-- trace of the configuration before; a file that cannot be opened changes nothing but the time that
-- is kept, so that it is read again only when its time changes once more.
pub reload-load :
    (old : CfgData) (path content : Bytes) (mt last : ℕ) (file : Option Bytes)
    → mt ≢ 0
    → mt ≢ last
    → (reload_if_changed old path last file last ≡ (old, last, false))
      × (reload_if_changed old path mt (some content) last
          ≡ ((load_server_set old path (some content)).0, mt, true))
      × (reload_if_changed old path mt none last ≡ (old, mt, false))
      × (reload_if_changed (reload_if_changed old path mt none last).0 path mt file mt
          ≡ (old, mt, false))
unfolding reload_if_changed load_server_set parse_file
reload-load old path content mt last file n d =
    (ground arith, ground arith, ground arith, ground arith)
