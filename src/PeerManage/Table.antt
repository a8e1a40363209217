-- ===== src/PeerManage/Table.antt =====
-- server/natserver/src/PeerManage.cpp: the invariant of the tables.
use p2p_server.Prelude.{
  ℕ, ◌+◌, ◌≤◌, leb, ◌≡◌, refl, Bool, true, not, List, [], ◌∷◌, Option, none, some, Bytes,
  bytes_eq_iff, length, arith, Option-cases, inl, inr,
}
use p2p_server.Prelude.Maps.{Map, find, insert, erase, retain, bytes_key}
use p2p_server.Prelude.Unique.{Ordered, insert-Ordered, erase-Ordered, retain-Ordered}
use p2p_server.ProtoDef.{max_extinfo}
use p2p_server.PeerManage.{
  Peer, PeerManager, Report, new_manager, extinfo_after, fresh_peer, renewed_peer, is_uuid,
  upserted, upsert, synced, upsert_synced, remove, set_expire, set_auth_expire,
  cleanup_auth_sessions, is_online, cleanup_timeout, cleanup_timeout_and_collect, clear,
}

-- A peer as it may stand under a key.
abbrev pub IsPeer : Bytes → Peer → Type 0
IsPeer uuid p =
    (p.uuid ≡ uuid)
    × (is_uuid uuid ≡ true)
    × (p.extlen ≡ length p.extinfo)
    × (length p.extinfo ≤ max_extinfo)

abbrev pub ArePeers : Map Bytes Peer → Type 0
ArePeers [] = Unit
ArePeers ((uuid, p) ∷ m) = IsPeer uuid p × ArePeers m

-- Both tables have one entry for each key, in order; every peer stands under its own uuid, of 1 to
-- 32 bytes, with at most 1024 bytes of extension info and their number.
abbrev pub IsManager : PeerManager → Type 0
IsManager s = Ordered s.peers × Ordered s.auth_sessions × ArePeers s.peers

insert-ArePeers :
    (uuid : Bytes) (p : Peer) (m : Map Bytes Peer)
    → IsPeer uuid p
    → ArePeers m
    → ArePeers (insert uuid p m)
unfolding insert
insert-ArePeers uuid p [] hp h = (hp, tt)
insert-ArePeers uuid p ((j, q) ∷ m) hp h = ground (arith, insert-ArePeers uuid p m hp h.1)

erase-ArePeers : (uuid : Bytes) (m : Map Bytes Peer) → ArePeers m → ArePeers (erase uuid m)
unfolding erase
erase-ArePeers uuid [] h = tt
erase-ArePeers uuid ((j, q) ∷ m) h = ground (arith, erase-ArePeers uuid m h.1)

retain-ArePeers :
    (f : Bytes → Peer → Bool) (m : Map Bytes Peer) → ArePeers m → ArePeers (retain f m)
unfolding retain
retain-ArePeers f [] h = tt
retain-ArePeers f ((j, q) ∷ m) h = ground (arith, retain-ArePeers f m h.1)

find-IsPeer :
    (uuid : Bytes) (m : Map Bytes Peer) (p : Peer)
    → ArePeers m
    → find uuid m ≡ some p
    → IsPeer uuid p
unfolding find
find-IsPeer uuid [] p h e = cc
find-IsPeer uuid ((j, q) ∷ m) p h e = ground (arith, find-IsPeer uuid m p h.1, bytes_eq_iff j uuid)

extinfo_after-bound :
    (old new : Bytes) → length old ≤ max_extinfo → length (extinfo_after old new) ≤ max_extinfo
unfolding extinfo_after
extinfo_after-bound old new h = ground arith

fresh-IsPeer :
    (uuid : Bytes) (r : Report) (time expire : ℕ)
    → is_uuid uuid ≡ true
    → IsPeer uuid (fresh_peer uuid r time expire)
unfolding fresh_peer
fresh-IsPeer uuid r time expire h =
    let b = extinfo_after-bound [] r.extinfo (omega arith) in (refl, h, omega arith, b)

renewed-IsPeer :
    (uuid : Bytes) (p : Peer) (r : Report) (time : ℕ)
    → IsPeer uuid p
    → IsPeer uuid (renewed_peer p r time)
unfolding renewed_peer
renewed-IsPeer uuid p r time (same, good, size, bound) =
    let b = extinfo_after-bound p.extinfo r.extinfo bound in (same, good, omega arith, b)

upserted-IsPeer :
    (uuid : Bytes) (r : Report) (now : ℕ) (m : Map Bytes Peer)
    → is_uuid uuid ≡ true
    → ArePeers m
    → IsPeer uuid (upserted uuid r now (find uuid m))
unfolding upserted
upserted-IsPeer uuid r now m good h = elim (Option-cases (find uuid m)) [
  | inl e ↦ rw (e, upserted) (fresh-IsPeer uuid r now 0 good)
  | inr (p, e) ↦ rw (e, upserted) (renewed-IsPeer uuid p r now (find-IsPeer uuid m p h e))
]

synced-IsPeer :
    (uuid : Bytes) (r : Report) (now : ℕ) (m : Map Bytes Peer)
    → is_uuid uuid ≡ true
    → ArePeers m
    → IsPeer uuid (synced uuid r now (find uuid m))
unfolding synced
synced-IsPeer uuid r now m good h = elim (Option-cases (find uuid m)) [
  | inl e ↦ rw (e, synced) (fresh-IsPeer uuid r now (now + 3600) good)
  | inr (p, e) ↦ rw (e, synced) (renewed-IsPeer uuid p r now (find-IsPeer uuid m p h e))
]

set_expire-Ordered :
    (expire : ℕ) (uuid : Bytes) (o : Option Peer) (m : Map Bytes Peer)
    → Ordered m
    → Ordered (set_expire expire uuid o m)
unfolding set_expire
set_expire-Ordered expire uuid none m h = h
set_expire-Ordered expire uuid (some p) m h =
    insert-Ordered uuid (record p { auth_expire = expire }) m h

set_expire-ArePeers :
    (expire : ℕ) (uuid : Bytes) (m : Map Bytes Peer)
    → ArePeers m
    → ArePeers (set_expire expire uuid (find uuid m) m)
unfolding set_expire
set_expire-ArePeers expire uuid m h = elim (Option-cases (find uuid m)) [
  | inl e ↦ rw (e, set_expire) h
  | inr (p, e) ↦
      rw (e, set_expire)
        (insert-ArePeers uuid (record p { auth_expire = expire }) m (find-IsPeer uuid m p h e) h)
]

-- The calls that change the tables.
pub data Call : Type 0 where
  heartbeat : Bytes → Report → ℕ → Call
  sync : Bytes → Report → ℕ → Call
  leave : Bytes → Call
  login : Bytes → ℕ → Call
  sweep_logins : ℕ → Call
  sweep_peers : ℕ → ℕ → Call
  clear_all : Call

unfoldable pub step : PeerManager → Call → PeerManager
step s (heartbeat uuid r now) = (upsert s uuid r now).0
step s (sync uuid r hb_time) = (upsert_synced s uuid r hb_time).0
step s (leave uuid) = (remove s uuid).0
step s (login uuid expire) = set_auth_expire s uuid expire
step s (sweep_logins now) = cleanup_auth_sessions s now
step s (sweep_peers timeout now) = (cleanup_timeout_and_collect s timeout now).0
step s clear_all = clear s

abbrev pub run : PeerManager → List Call → PeerManager
run s [] = s
run s (c ∷ cs) = run (step s c) cs

step-IsManager : (s : PeerManager) (c : Call) → IsManager s → IsManager (step s c)
unfolding step upsert upsert_synced remove set_auth_expire cleanup_auth_sessions
    cleanup_timeout_and_collect cleanup_timeout
step-IsManager s (heartbeat uuid r now) (o, a, h) =
    let p = upserted uuid r now (find uuid s.peers) in
    ground (
      arith,
      insert-Ordered uuid p s.peers o,
      insert-ArePeers uuid p s.peers,
      upserted-IsPeer uuid r now s.peers,
    )
step-IsManager s (sync uuid r now) (o, a, h) =
    let p = synced uuid r now (find uuid s.peers) in
    ground (
      arith,
      insert-Ordered uuid p s.peers o,
      insert-ArePeers uuid p s.peers,
      synced-IsPeer uuid r now s.peers,
    )
step-IsManager s (leave uuid) (o, a, h) =
    (erase-Ordered uuid s.peers o, a, erase-ArePeers uuid s.peers h)
step-IsManager s (login uuid expire) (o, a, h) = (
  set_expire-Ordered expire uuid (find uuid s.peers) s.peers o,
  insert-Ordered uuid expire s.auth_sessions a,
  set_expire-ArePeers expire uuid s.peers h,
)
step-IsManager s (sweep_logins now) (o, a, h) =
    (o, retain-Ordered (λ u expire. not (leb expire now)) s.auth_sessions a, h)
step-IsManager s (sweep_peers timeout now) (o, a, h) = (
  retain-Ordered (λ u p. is_online now timeout p) s.peers o,
  a,
  retain-ArePeers (λ u p. is_online now timeout p) s.peers h,
)
step-IsManager s clear_all (o, a, h) = (tt, a, tt)

run-IsManager : (s : PeerManager) (cs : List Call) → IsManager s → IsManager (run s cs)
run-IsManager s [] h = h
run-IsManager s (c ∷ cs) h = run-IsManager (step s c) cs (step-IsManager s c h)

-- Whatever calls are made on a new table, it stays well formed: both maps ordered by key, and every
-- peer under its own uuid, of 1 to 32 bytes, with at most 1024 bytes of extension info.
pub run_new-IsManager : (cs : List Call) → IsManager (run new_manager cs)
run_new-IsManager cs = run-IsManager new_manager cs (tt, tt, tt)
