-- ===== src/PeerManage/Expiry.antt =====
-- server/natserver/src/PeerManage.cpp: what the clean-ups remove, and how long a login lasts.
use p2p_server.Prelude.{
  ℕ, ◌+◌, ◌≤◌, ltb, leb, if◌then◌else◌, ◌≡◌, ◌≢◌, refl, ◌∙◌, Bool, false, not, ◌||◌, List, [], ◌∷◌,
  Option, none, some, Bytes, bytes_eq, bytes_eq_iff, arith, Option-cases, inl, inr,
}
use p2p_server.Prelude.Maps.{Map, find, bytes_key, find-insert}
use p2p_server.Prelude.Unique.{Unique, kept, Ordered-Unique, find-retain}
use p2p_server.PeerManage.{
  Peer, PeerManager, get, set_expire, set_auth_expire, lasts, peer_lasts, authed,
  cleanup_auth_sessions, is_online, cleanup_timeout, cleanup_timeout_and_collect, collect,
}
use p2p_server.PeerManage.Table.{IsManager}

abbrev pub has : Bytes → List Bytes → Bool
has u [] = false
has u (v ∷ vs) = bytes_eq v u || has u vs

-- Whether a peer that may be there has been silent for longer than the timeout.
abbrev pub is_silent : ℕ → ℕ → Option Peer → Bool
is_silent now timeout none = false
is_silent now timeout (some p) = ltb (p.last_heartbeat + timeout) now

collect_missing :
    (now timeout : ℕ) (u : Bytes) (m : Map Bytes Peer)
    → find u m ≡ none
    → has u (collect now timeout m) ≡ false
unfolding collect find
collect_missing now timeout u [] h = refl
collect_missing now timeout u ((v, p) ∷ m) h = ground (arith, collect_missing now timeout u m)

collect_exact :
    (now timeout : ℕ) (u : Bytes) (m : Map Bytes Peer)
    → Unique m
    → has u (collect now timeout m) ≡ is_silent now timeout (find u m)
unfolding collect find
collect_exact now timeout u [] h = refl
collect_exact now timeout u ((v, p) ∷ m) h = ground (
  arith,
  collect_exact now timeout u m h.1,
  collect_missing now timeout v m h.0,
  bytes_eq_iff v u,
)

-- Of a well-formed table, the clean-up keeps exactly the peers whose last heartbeat is at most the
-- timeout ago, and the uuids it returns for the other servers are exactly those it removed.
pub cleanup_exact :
    (s : PeerManager) (u : Bytes) (timeout now : ℕ)
    → IsManager s
    → let (s', removed) = cleanup_timeout_and_collect s timeout now in
      (get s' u ≡ (if is_silent now timeout (get s u) then none else get s u))
      × (has u removed ≡ is_silent now timeout (get s u))
unfolding cleanup_timeout_and_collect cleanup_timeout get
cleanup_exact s u timeout now h =
    let unique = Ordered-Unique s.peers h.0 in
    (
      find-retain (λ v p. is_online now timeout p) u s.peers unique ∙ same_test (find u s.peers),
      collect_exact now timeout u s.peers unique,
    )
  where
    same_test :
        (o : Option Peer)
        → kept (λ v p. is_online now timeout p) u o ≡ (if is_silent now timeout o then none else o)
    same_test none = refl
    same_test (some p) = ground arith

own_expire :
    (u : Bytes) (expire now : ℕ) (m : Map Bytes Peer)
    → (ltb now expire || peer_lasts now (find u (set_expire expire u (find u m) m)))
      ≡ ltb now expire
unfolding set_expire peer_lasts
own_expire u expire now m = elim (Option-cases (find u m)) [
  | inl e ↦ rw (e, set_expire) (ground arith)
  | inr (p, e) ↦
      rw (e, set_expire)
        (ground (arith, find-insert u u (record p { auth_expire = expire }) m, bytes_eq_iff u u))
]

other_expire :
    (u other : Bytes) (expire : ℕ) (m : Map Bytes Peer)
    → other ≢ u
    → find other (set_expire expire u (find u m) m) ≡ find other m
unfolding set_expire
other_expire u other expire m n = elim (Option-cases (find u m)) [
  | inl e ↦ rw (e, set_expire) refl
  | inr (p, e) ↦
      rw (e, set_expire)
        (ground
          (arith, find-insert u other (record p { auth_expire = expire }) m, bytes_eq_iff u other))
]

-- After a login the uuid counts as logged in until its expiry.
pub authed_own :
    (s : PeerManager) (u : Bytes) (expire now : ℕ)
    → authed (set_auth_expire s u expire) u now ≡ ltb now expire
unfolding authed set_auth_expire lasts
authed_own s u expire now = ground (
  arith,
  own_expire u expire now s.peers,
  find-insert u u expire s.auth_sessions,
  bytes_eq_iff u u,
)

-- A login lasts exactly until its expiry time, whether or not the peer is online, and changes no
-- other uuid's.
pub authed-set_auth_expire :
    (s : PeerManager) (u other : Bytes) (expire now : ℕ)
    → other ≢ u
    → (authed (set_auth_expire s u expire) u now ≡ ltb now expire)
      × (authed (set_auth_expire s u expire) other now ≡ authed s other now)
unfolding authed set_auth_expire lasts
authed-set_auth_expire s u other expire now n = (
  authed_own s u expire now,
  ground (
    arith,
    other_expire u other expire s.peers n,
    find-insert u other expire s.auth_sessions,
    bytes_eq_iff u other,
  ),
)

-- Sweeping the logins at some time changes no answer from then on.
pub authed-cleanup :
    (s : PeerManager) (u : Bytes) (now later : ℕ)
    → IsManager s
    → now ≤ later
    → authed (cleanup_auth_sessions s now) u later ≡ authed s u later
unfolding authed cleanup_auth_sessions lasts
authed-cleanup s u now later (o, a, p) h = ground (
  arith,
  find-retain (λ v expire. not (leb expire now)) u s.auth_sessions
      (Ordered-Unique s.auth_sessions a),
)
