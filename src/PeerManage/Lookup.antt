-- ===== src/PeerManage/Lookup.antt =====
-- server/natserver/src/PeerManage.cpp: what a heartbeat changes for the lookups that follow.
use p2p_server.Prelude.{
  ℕ, ◌≤◌, ◌<◌, ltb, leb, ◌≡◌, ◌≢◌, refl, true, ◌&&◌, [], ◌∷◌, Option, none, some, Bytes,
  bytes_eq_iff, length, arith,
}
use p2p_server.Prelude.Maps.{find, bytes_key, find-insert}
use p2p_server.PeerManage.{
  Peer, PeerManager, Report, fresh_peer, renewed_peer, is_uuid, upserted, upsert, get,
}

-- The time of the first registration, for a peer that may be there.
abbrev pub registered_at : ℕ → Option Peer → ℕ
registered_at now none = now
registered_at now (some p) = p.register_time

-- What a heartbeat leaves under its uuid, for a peer that may be there.
abbrev pub IsReported : Report → ℕ → Option Peer → Peer → Type 0
IsReported r now old p =
    (p.pub_addr ≡ r.pub_addr)
    × (p.lan_addr ≡ r.lan_addr)
    × (p.dev_type ≡ r.dev_type)
    × (p.nattype ≡ r.nattype)
    × (p.last_heartbeat ≡ now)
    × (p.register_time ≡ registered_at now old)

upserted-IsReported :
    (uuid : Bytes) (r : Report) (now : ℕ) (old : Option Peer)
    → IsReported r now old (upserted uuid r now old)
unfolding upserted fresh_peer renewed_peer
upserted-IsReported uuid r now none = (refl, refl, refl, refl, refl, refl)
upserted-IsReported uuid r now (some p) = (refl, refl, refl, refl, refl, refl)

is_uuid_length : (u : Bytes) → is_uuid u ≡ (ltb 0 (length u) && leb (length u) 32)
is_uuid_length [] = refl
is_uuid_length (x ∷ xs) = ground arith

-- A heartbeat with a uuid of 1 to 32 bytes leaves a peer with what it reports, its time and the time
-- of the first registration; every other peer is as before.
pub get-upsert :
    (s : PeerManager) (uuid other : Bytes) (r : Report) (now : ℕ)
    → 0 < length uuid
    → length uuid ≤ 32
    → other ≢ uuid
    → let (s', ok) = upsert s uuid r now in
      (ok ≡ true)
      × ((p : Peer) × (get s' uuid ≡ some p) × IsReported r now (get s uuid) p)
      × (get s' other ≡ get s other)
unfolding upsert get
get-upsert s uuid other r now h k n =
    let p = upserted uuid r now (find uuid s.peers) in
    (
      ground (arith, is_uuid_length uuid),
      (
        p,
        ground
            (arith, is_uuid_length uuid, find-insert uuid uuid p s.peers, bytes_eq_iff uuid uuid),
        upserted-IsReported uuid r now (find uuid s.peers),
      ),
      ground
          (arith, is_uuid_length uuid, find-insert uuid other p s.peers, bytes_eq_iff uuid other),
    )
