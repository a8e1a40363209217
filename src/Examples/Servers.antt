-- ===== src/Examples/Servers.antt =====
-- server/natserver: runs of the synchronisation between servers, of the choice of relays and of the
-- queue of the workers.
use p2p_server.Prelude.{
  ◌+◌, ◌≤◌, ◌≡◌, ◌≢◌, refl, ap, if◌then◌else◌, true, false, ◌||◌, [], ◌∷◌, ◌++◌, Bytes, length,
  arith, codes, replicate, leb, is_empty, All, take, c_str, set,
}
use p2p_server.Prelude.Maps.{find, nat_key, bytes_key}
use p2p_server.ProtoDef.{msg_sync_peer_del, sync_hop_snap, sync_hop_max}
use p2p_server.ProtoDef.Requests.{read_sync_peer_entry, read_uuid}
use p2p_server.ProtoDef.Replies.{uuid_field}
use p2p_server.Util.{sockaddr_eq}
use p2p_server.PeerManage.{new_manager}
use p2p_server.AntiAbuse.{is_ip_blacklisted, check_flood}
use p2p_server.NatServer.ProxyPool.{pick_proxy}
use p2p_server.NatServer.ProxyPool.Health.{pick_proxy-Distinct, Distinct}
use p2p_server.NatServer.Queue.{receive}
use p2p_server.NatServer.Queue.Bound.{receive-mq}
use p2p_server.NatServer.Sync.{
  sync_enabled, signed, sync_verify, sync_send_msg, handle_sync_entry, handle_sync_del, is_recent,
  seen_key,
}
use p2p_server.NatServer.Sync.Signed.{accepts_signed, sync_verify-signed}
use p2p_server.NatServer.Sync.Forward.{sync_entry_once, IsAwayFrom}
use p2p_server.NatServer.Sync.Deletion.{del_forwarded_again}
use p2p_server.Examples.Directory.{home, away, open_server}

secret : open_server.cfg.sync_auth_secret ≢ []
secret e = absurd (omega (arith, ap length e))

sync_verify-signed_example :
    (sync_verify open_server
        (signed open_server.cfg.sync_auth_secret (codes "xy"))
        (length (codes "xy"))
      ≡ true)
    × (take (1 + 32) (signed open_server.cfg.sync_auth_secret (codes "z"))
        ≡ signed open_server.cfg.sync_auth_secret
            (take 1 (signed open_server.cfg.sync_auth_secret (codes "z"))))
sync_verify-signed_example =
    sync_verify-signed open_server open_server (codes "xy")
      (signed open_server.cfg.sync_auth_secret (codes "z")) 1 refl secret
      (accepts_signed open_server (codes "z") secret)

-- The entry of the uuid "a" with the hop count 1.
abbrev entry : Bytes
entry = set (codes "a" ++ replicate 78 0) 71 1

enabled : sync_enabled open_server ≡ true
unfolding sync_enabled
enabled = refl

entry_named : is_empty (read_sync_peer_entry entry).uuid ≡ false
unfolding read_sync_peer_entry read_uuid c_str
entry_named = refl

entry_new :
    is_recent 40 (
      find
        (seen_key (read_sync_peer_entry entry).uuid (read_sync_peer_entry entry).hb_time home)
        open_server.sync_seen)
    ≡ false
unfolding is_recent find
entry_new = refl

first_hop : (read_sync_peer_entry entry).hop ≢ sync_hop_snap
unfolding read_sync_peer_entry
first_hop e = absurd (omega arith)

sync_entry_once_example :
    let (s', sent) = handle_sync_entry open_server entry [] [] home 40 in
    All (IsAwayFrom home) sent
    × ((if leb sync_hop_max (read_sync_peer_entry entry).hop then sent else []) ≡ [])
    × (handle_sync_entry s' entry [] [] home 50 ≡ (s', []))
sync_entry_once_example =
    sync_entry_once open_server entry [] [] [] [] home 40 50 enabled entry_named first_hop tt
      entry_new (omega arith)

two_ways : (sockaddr_eq home away ≡ false) × (sockaddr_eq away home ≡ false)
unfolding sockaddr_eq
two_ways = (refl, refl)

del_forwarded_again_example :
    let again = record open_server { peers = new_manager } in
    ((handle_sync_del open_server (codes "a") home).1
      ≡ sync_send_msg open_server away msg_sync_peer_del (uuid_field (codes "a")))
    × ((handle_sync_del again (codes "a") home).1
        ≡ (handle_sync_del open_server (codes "a") home).1)
    × ((handle_sync_del again (codes "a") away).1
        ≡ sync_send_msg open_server home msg_sync_peer_del (uuid_field (codes "a")))
del_forwarded_again_example =
    del_forwarded_again open_server new_manager (codes "a") home away enabled refl two_ways.0
      two_ways.1

pick_proxy-Distinct_example :
    Distinct (pick_proxy open_server (0 ∷ 1 ∷ []) 30)
    × (length (pick_proxy open_server (0 ∷ 1 ∷ []) 30) ≤ 3)
pick_proxy-Distinct_example = pick_proxy-Distinct open_server (0 ∷ 1 ∷ []) 30 (omega arith, tt) tt

receive-mq_example :
    let (abuse, black) = is_ip_blacklisted open_server.abuse home 30 in
    let flood = (check_flood abuse home 30).1 in
    let (s', sent) = receive open_server (1 ∷ 2 ∷ []) home 30 in
    (length s'.mq ≤ 8192)
    × ((if black || flood then s'.mq else open_server.mq) ≡ open_server.mq)
    × ((if black || flood then sent else []) ≡ [])
receive-mq_example = receive-mq open_server (1 ∷ 2 ∷ []) home 30 (omega arith)
