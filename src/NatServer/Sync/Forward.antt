-- ===== src/NatServer/Sync/Forward.antt =====
-- server/natserver/src/NatServer.cpp: what `handle_sync_entry` and `handle_sync_del` pass on.
use p2p_server.Prelude.{
  ℕ, ◌+◌, ◌≤◌, ◌<◌, ◌==◌, ltb, leb, if◌then◌else◌, ◌≡◌, ◌≢◌, refl, ◌∙◌, true, false, not, ◌&&◌,
  List, [], ◌∷◌, ◌++◌, some, Bytes, bytes_eq_iff, length, is_empty, take, arith, All, All-append,
  Bool-cases, inl, inr,
}
use p2p_server.Prelude.Maps.{Map, find, insert, bytes_key, find-insert}
use p2p_server.Prelude.Unique.{Ordered, Ordered-Unique, insert-Ordered, find-retain}
use p2p_server.ProtoDef.{msg_sync_peer_entry, sync_hop_snap, sync_hop_max}
use p2p_server.ProtoDef.Requests.{read_sync_peer_entry}
use p2p_server.Util.{Sockaddr, sockaddr_eq}
use p2p_server.Net.{Datagram, send_msg}
use p2p_server.NatServer.{NatServer}
use p2p_server.NatServer.Sync.{
  sync_enabled, sync_send_msg, is_excepted, broadcast_to, seen_key, is_recent, noted,
  seen_sync_entry, next_hop, forward_entry, store_entry, handle_sync_entry,
}

-- A datagram that does not go to this server.
abbrev pub IsAwayFrom : Sockaddr → Datagram → Type 0
IsAwayFrom from d = sockaddr_eq from d.to ≡ false

send_msg-IsAwayFrom :
    (from to : Sockaddr) (msg_id : ℕ) (payload : Bytes)
    → sockaddr_eq from to ≡ false
    → All (IsAwayFrom from) (send_msg to msg_id payload)
unfolding send_msg
send_msg-IsAwayFrom from to msg_id payload h = ground arith

sync_send_msg-IsAwayFrom :
    (s : NatServer) (from to : Sockaddr) (msg_id : ℕ) (payload : Bytes)
    → sockaddr_eq from to ≡ false
    → All (IsAwayFrom from) (sync_send_msg s to msg_id payload)
unfolding sync_send_msg
sync_send_msg-IsAwayFrom s from to msg_id payload h =
    elim (Bool-cases (ltb 2016 (length payload))) [
      | inl long ↦ rw long tt
      | inr fits ↦ rw fits (send_msg-IsAwayFrom from to msg_id _ h)
    ]

broadcast-IsAwayFrom :
    (s : NatServer) (tos : List Sockaddr) (msg_id : ℕ) (payload : Bytes) (from : Sockaddr)
    → All (IsAwayFrom from) (broadcast_to s tos msg_id payload (some from))
unfolding broadcast_to is_excepted
broadcast-IsAwayFrom s [] msg_id payload from = tt
broadcast-IsAwayFrom s (to ∷ tos) msg_id payload from = elim (Bool-cases (sockaddr_eq from to)) [
  | inl same ↦ rw same (broadcast-IsAwayFrom s tos msg_id payload from)
  | inr other ↦ rw other (
      All-append (IsAwayFrom from) (sync_send_msg s to msg_id payload)
        (broadcast_to s tos msg_id payload (some from))
        (sync_send_msg-IsAwayFrom s from to msg_id payload other)
        (broadcast-IsAwayFrom s tos msg_id payload from))
]

noted-find :
    (key : Bytes) (now : ℕ) (m : Map Bytes ℕ)
    → Ordered m
    → find key (noted now (insert key now m)) ≡ some now
unfolding noted
noted-find key now m o =
    let there : find key (insert key now m) ≡ some now =
      ground (arith, find-insert key key now m, bytes_eq_iff key key) in
    elim (Bool-cases (ltb 16384 (length (insert key now m)))) [
      | inl many ↦ rw many (
          find-retain (λ k t. ltb now (t + 300)) key (insert key now m)
            (Ordered-Unique (insert key now m) (insert-Ordered key now m o))
          ∙ rw there (ground arith))
      | inr few ↦ rw few there
    ]

-- The forwarded message is built from a copy of the entry without what follows it, so two entries
-- that differ only in an extension info of the same length are forwarded as the same bytes.
pub forward_loses_extinfo :
    (s : NatServer) (entry x y beyond : Bytes) (hop : ℕ) (from : Sockaddr)
    → length x ≡ length y
    → forward_entry s entry hop x beyond from ≡ forward_entry s entry hop y beyond from
unfolding forward_entry
forward_loses_extinfo s entry x y beyond hop from e = rw e refl

forward-IsAwayFrom :
    (s : NatServer) (entry ext beyond : Bytes) (hop : ℕ) (from : Sockaddr)
    → All (IsAwayFrom from) (forward_entry s entry hop ext beyond from)
unfolding forward_entry
forward-IsAwayFrom s entry ext beyond hop from =
    elim (Bool-cases (not (hop == sync_hop_snap) && ltb hop sync_hop_max)) [
      | inl go ↦ rw go (
          broadcast-IsAwayFrom s s.sync_addrs msg_sync_peer_entry
            (next_hop entry hop ++ take (length ext) beyond) from)
      | inr stop ↦ rw stop tt
    ]

no_forward :
    (s : NatServer) (entry ext beyond : Bytes) (hop : ℕ) (from : Sockaddr)
    → sync_hop_max ≤ hop
    → forward_entry s entry hop ext beyond from ≡ []
unfolding forward_entry
no_forward s entry ext beyond hop from h = ground arith

noted_entry : NatServer → Bytes → Sockaddr → ℕ → NatServer
noted_entry s entry from now =
    let e = read_sync_peer_entry entry in
    record s { sync_seen = noted now (insert (seen_key e.uuid e.hb_time from) now s.sync_seen) }

first_time :
    (s : NatServer) (entry ext beyond : Bytes) (from : Sockaddr) (now : ℕ)
    → sync_enabled s ≡ true
    → is_empty (read_sync_peer_entry entry).uuid ≡ false
    → ((read_sync_peer_entry entry).hop == sync_hop_snap) ≡ false
    → is_recent now (
        find
          (seen_key (read_sync_peer_entry entry).uuid (read_sync_peer_entry entry).hb_time from)
          s.sync_seen)
      ≡ false
    → handle_sync_entry s entry ext beyond from now ≡ (
      store_entry (noted_entry s entry from now) (read_sync_peer_entry entry) ext,
      forward_entry
          (noted_entry s entry from now)
          entry
          (read_sync_peer_entry entry).hop
          ext
          beyond
          from,
    )
unfolding handle_sync_entry seen_sync_entry noted_entry
first_time s entry ext beyond from now on named hop new = rw (on, named, hop, new) refl

second_time :
    (s : NatServer) (entry ext beyond : Bytes) (from : Sockaddr) (now : ℕ)
    → sync_enabled s ≡ true
    → is_empty (read_sync_peer_entry entry).uuid ≡ false
    → ((read_sync_peer_entry entry).hop == sync_hop_snap) ≡ false
    → is_recent now (
        find
          (seen_key (read_sync_peer_entry entry).uuid (read_sync_peer_entry entry).hb_time from)
          s.sync_seen)
      ≡ true
    → handle_sync_entry s entry ext beyond from now ≡ (s, [])
unfolding handle_sync_entry seen_sync_entry
second_time s entry ext beyond from now on named hop seen = rw (on, named, hop, seen) refl

still_enabled :
    (s : NatServer) (entry ext : Bytes) (from : Sockaddr) (now : ℕ)
    → sync_enabled (store_entry (noted_entry s entry from now) (read_sync_peer_entry entry) ext)
      ≡ sync_enabled s
unfolding store_entry noted_entry sync_enabled
still_enabled s entry ext from now = refl

still_seen :
    (s : NatServer) (entry ext : Bytes) (from : Sockaddr) (now later : ℕ)
    → Ordered s.sync_seen
    → later < now + 300
    → is_recent later (
        find
          (seen_key (read_sync_peer_entry entry).uuid (read_sync_peer_entry entry).hb_time from)
          (store_entry (noted_entry s entry from now) (read_sync_peer_entry entry) ext).sync_seen)
      ≡ true
unfolding store_entry noted_entry is_recent
still_seen s entry ext from now later o h =
    let e = read_sync_peer_entry entry in
    rw (noted-find (seen_key e.uuid e.hb_time from) now s.sync_seen o) (ground arith)

not_snapshot : (hop : ℕ) → hop ≢ sync_hop_snap → (hop == sync_hop_snap) ≡ false
not_snapshot hop n = ground arith

-- With synchronisation on, an increment with a uuid that is new to the server (its table of seen
-- entries ordered by key) is passed on only to servers other than the one it came from, and to none
-- from the third hop on; the same entry from the same server within the next five minutes changes
-- nothing and is not passed on.
pub sync_entry_once :
    (s : NatServer) (entry ext beyond ext' beyond' : Bytes) (from : Sockaddr) (now later : ℕ)
    → sync_enabled s ≡ true
    → is_empty (read_sync_peer_entry entry).uuid ≡ false
    → (read_sync_peer_entry entry).hop ≢ sync_hop_snap
    → Ordered s.sync_seen
    → is_recent now (
        find
          (seen_key (read_sync_peer_entry entry).uuid (read_sync_peer_entry entry).hb_time from)
          s.sync_seen)
      ≡ false
    → later < now + 300
    → let (s', sent) = handle_sync_entry s entry ext beyond from now in
      All (IsAwayFrom from) sent
      × ((if leb sync_hop_max (read_sync_peer_entry entry).hop then sent else []) ≡ [])
      × (handle_sync_entry s' entry ext' beyond' from later ≡ (s', []))
sync_entry_once s entry ext beyond ext' beyond' from now later on named hop o new h =
    let e = read_sync_peer_entry entry in
    let t = noted_entry s entry from now in
    let go = not_snapshot e.hop hop in
    rw (first_time s entry ext beyond from now on named go new) (
      forward-IsAwayFrom t entry ext beyond e.hop from,
      ground (arith, no_forward t entry ext beyond e.hop from),
      second_time (store_entry t e ext) entry ext' beyond' from later
          (still_enabled s entry ext from now ∙ on) named go
          (still_seen s entry ext from now later o h),
    )
