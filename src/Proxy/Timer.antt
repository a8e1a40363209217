-- ===== src/Proxy/Timer.antt =====
-- server/proxyserver/src/P2PProxy.cpp, `timer_loop`: how long paths and registrations last.
use p2p_server.Prelude.{
  ℕ, suc, ◌+◌, ◌≤◌, leb, ◌≡◌, refl, ◌∙◌, Bool, [], ◌∷◌, Option, none, some, Bytes, arith,
  Option-cases, inl, inr,
}
use p2p_server.Prelude.Maps.{Map, find, put, erase, nat_key, bytes_key}
use p2p_server.Prelude.Unique.{Unique, kept, retain-Unique, find-retain}
use p2p_server.ProtoDef.Requests.{read_relay_frame}
use p2p_server.Util.{Sockaddr, addr_to_u64}
use p2p_server.Net.{open_packet}
use p2p_server.Proxy.{
  Proxy, PathInfo, UuidEntry, do_register, enter, unregister, erase_target, touch_path, paths_of,
  relay, relay_paths, dispatch, handle, decay_paths, decay_sources, timer_round, is_fresh,
}

-- Every path has a count of at most `n`.
abbrev pub PathsWithin : ℕ → Map ℕ PathInfo → Type 0
PathsWithin n [] = Unit
PathsWithin n ((dst, pi) ∷ m) = (pi.count ≤ n) × PathsWithin n m

abbrev pub CountsWithin : ℕ → Map ℕ (Map ℕ PathInfo) → Type 0
CountsWithin n [] = Unit
CountsWithin n ((src, paths) ∷ m) = PathsWithin n paths × CountsWithin n m

decay_paths-PathsWithin :
    (n now : ℕ) (m : Map ℕ PathInfo) → PathsWithin (suc n) m → PathsWithin n (decay_paths now m)
unfolding decay_paths
decay_paths-PathsWithin n now [] h = tt
decay_paths-PathsWithin n now ((dst, pi) ∷ m) h =
    ground (arith, decay_paths-PathsWithin n now m h.1)

decay_sources-CountsWithin :
    (n now : ℕ) (m : Map ℕ (Map ℕ PathInfo))
    → CountsWithin (suc n) m
    → CountsWithin n (decay_sources now m)
unfolding decay_sources
decay_sources-CountsWithin n now [] h = tt
decay_sources-CountsWithin n now ((src, paths) ∷ m) h =
    ground (arith, decay_sources-CountsWithin n now m h.1, decay_paths-PathsWithin n now paths h.0)

last_paths : (now : ℕ) (m : Map ℕ PathInfo) → PathsWithin 1 m → decay_paths now m ≡ []
unfolding decay_paths
last_paths now [] h = refl
last_paths now ((dst, pi) ∷ m) h = ground (arith, last_paths now m h.1)

last_sources : (now : ℕ) (m : Map ℕ (Map ℕ PathInfo)) → CountsWithin 1 m → decay_sources now m ≡ []
unfolding decay_sources
last_sources now [] h = refl
last_sources now ((src, paths) ∷ m) h =
    rw (last_paths now paths h.0, last_sources now m h.1, decay_sources) refl

erase-PathsWithin : (n key : ℕ) (m : Map ℕ PathInfo) → PathsWithin n m → PathsWithin n (erase key m)
unfolding erase
erase-PathsWithin n key [] h = tt
erase-PathsWithin n key ((dst, pi) ∷ m) h = ground (arith, erase-PathsWithin n key m h.1)

put-PathsWithin :
    (n key : ℕ) (new : PathInfo) (m : Map ℕ PathInfo)
    → new.count ≤ n
    → PathsWithin n m
    → PathsWithin n (put key new m)
unfolding put
put-PathsWithin n key new [] p h = (p, tt)
put-PathsWithin n key new ((dst, pi) ∷ m) p h = ground (arith, put-PathsWithin n key new m p h.1)

erase-CountsWithin :
    (n key : ℕ) (m : Map ℕ (Map ℕ PathInfo)) → CountsWithin n m → CountsWithin n (erase key m)
unfolding erase
erase-CountsWithin n key [] h = tt
erase-CountsWithin n key ((src, paths) ∷ m) h = ground (arith, erase-CountsWithin n key m h.1)

put-CountsWithin :
    (n key : ℕ) (new : Map ℕ PathInfo) (m : Map ℕ (Map ℕ PathInfo))
    → PathsWithin n new
    → CountsWithin n m
    → CountsWithin n (put key new m)
unfolding put
put-CountsWithin n key new [] p h = (p, tt)
put-CountsWithin n key new ((src, paths) ∷ m) p h =
    ground (arith, put-CountsWithin n key new m p h.1)

erase_target-CountsWithin :
    (n ua : ℕ) (m : Map ℕ (Map ℕ PathInfo)) → CountsWithin n m → CountsWithin n (erase_target ua m)
unfolding erase_target
erase_target-CountsWithin n ua [] h = tt
erase_target-CountsWithin n ua ((src, paths) ∷ m) h =
    (erase-PathsWithin n ua paths h.0, erase_target-CountsWithin n ua m h.1)

find-PathsWithin :
    (n key : ℕ) (m : Map ℕ (Map ℕ PathInfo)) → CountsWithin n m → PathsWithin n (paths_of key m)
unfolding paths_of find
find-PathsWithin n key [] h = tt
find-PathsWithin n key ((src, paths) ∷ m) h = ground (arith, find-PathsWithin n key m h.1)

touch_path-PathsWithin :
    (key : ℕ) (dst : Sockaddr) (uuid : Bytes) (now : ℕ) (m : Map ℕ PathInfo)
    → PathsWithin 3 m
    → PathsWithin 3 (touch_path key dst uuid now m)
unfolding touch_path
touch_path-PathsWithin key dst uuid now m h = elim (Option-cases (find key m)) [
  | inl e ↦
      let pi : PathInfo = record { dst = dst; count = 3; uuid = uuid; last_active = now } in
      rw (e, touch_path) (put-PathsWithin 3 key pi m (omega arith) h)
  | inr (old, e) ↦
      let pi : PathInfo = record old { count = 3; last_active = now } in
      rw (e, touch_path) (put-PathsWithin 3 key pi m (omega arith) h)
]

relay-CountsWithin :
    (s : Proxy) (p : Bytes) (from : Sockaddr) (now : ℕ)
    → CountsWithin 3 s.srcpaths
    → CountsWithin 3 (relay s p from now).0.srcpaths
unfolding relay relay_paths
relay-CountsWithin s p from now h =
    let frame = read_relay_frame p in
    let a = addr_to_u64 from in
    elim (Option-cases (find frame.dst_uuid s.uuid2addr)) [
      | inl missing ↦ rw (missing, relay) h
      | inr (e, found) ↦
          let b = addr_to_u64 e.addr in
          let out = touch_path b e.addr frame.dst_uuid now (paths_of a s.srcpaths) in
          let m = put a out s.srcpaths in
          let within =
            put-CountsWithin 3 a out s.srcpaths
              (touch_path-PathsWithin b e.addr frame.dst_uuid now (paths_of a s.srcpaths)
                (find-PathsWithin 3 a s.srcpaths h))
              h in
          rw (found, relay)
            (put-CountsWithin 3 b (touch_path a from frame.src_uuid now (paths_of b m)) m
              (touch_path-PathsWithin a from frame.src_uuid now (paths_of b m)
                (find-PathsWithin 3 b m within))
              within)
    ]

unregister-CountsWithin :
    (s : Proxy) (uuid : Bytes) (from : Sockaddr)
    → CountsWithin 3 s.srcpaths
    → CountsWithin 3 (unregister s uuid from).srcpaths
unfolding unregister
unregister-CountsWithin s uuid from h = elim (Option-cases (find uuid s.uuid2addr)) [
  | inl missing ↦ rw (missing, unregister) h
  | inr (e, found) ↦
      let ua = addr_to_u64 e.addr in
      let erased =
        erase_target-CountsWithin 3 ua (erase ua s.srcpaths)
          (erase-CountsWithin 3 ua s.srcpaths h) in
      rw (found, unregister) (ground arith)
]

register-CountsWithin :
    (s : Proxy) (uuid : Bytes) (from : Sockaddr) (with_rsp : Bool) (hmac : Option Bytes) (now : ℕ)
    → CountsWithin 3 s.srcpaths
    → CountsWithin 3 (do_register s uuid from with_rsp hmac now).0.srcpaths
unfolding do_register enter
register-CountsWithin s uuid from with_rsp hmac now h = ground arith

dispatch-CountsWithin :
    (s : Proxy) (msg_id : ℕ) (p : Bytes) (from : Sockaddr) (now : ℕ)
    → CountsWithin 3 s.srcpaths
    → CountsWithin 3 (dispatch s msg_id p from now).0.srcpaths
unfolding dispatch
dispatch-CountsWithin s msg_id p from now h =
    grind (arith, register-CountsWithin, unregister-CountsWithin, relay-CountsWithin)

handle-CountsWithin :
    (s : Proxy) (input : Bytes) (from : Sockaddr) (now : ℕ)
    → CountsWithin 3 s.srcpaths
    → CountsWithin 3 (handle s input from now).0.srcpaths
unfolding handle
handle-CountsWithin s input from now h = elim (Option-cases (open_packet input)) [
  | inl e ↦ rw (e, handle) h
  | inr ((msg_id, p), e) ↦ rw (e, handle) (dispatch-CountsWithin s msg_id p from now h)
]

-- No datagram makes a path that lasts longer than three rounds of the timer: whatever the relay
-- handles, three rounds with no datagram between them leave no path at all, at any times.
pub idle_paths_expire :
    (s : Proxy) (input : Bytes) (from : Sockaddr) (now t1 t2 t3 : ℕ)
    → CountsWithin 3 s.srcpaths
    → let s' = (handle s input from now).0 in
      CountsWithin 3 s'.srcpaths
      × ((timer_round (timer_round (timer_round s' t1) t2) t3).srcpaths ≡ [])
unfolding timer_round
idle_paths_expire s input from now t1 t2 t3 h =
    let h' = handle-CountsWithin s input from now h in
    let paths = (handle s input from now).0.srcpaths in
    (
      h',
      last_sources t3 (decay_sources t2 (decay_sources t1 paths)) (
          decay_sources-CountsWithin 1 t2 (decay_sources t1 paths)
            (decay_sources-CountsWithin 2 t1 paths h')),
    )

-- Of a table with no uuid twice, a round of the timer drops exactly the registrations older than two
-- minutes, and no uuid stands twice afterwards.
pub timer_drops_old :
    (s : Proxy) (uuid : Bytes) (now : ℕ)
    → Unique s.uuid2addr
    → Unique (timer_round s now).uuid2addr
      × (find uuid (timer_round s now).uuid2addr
          ≡ kept (λ u e. leb now (e.last_reg + 120)) uuid (find uuid s.uuid2addr))
unfolding timer_round
timer_drops_old s uuid now h = (
  retain-Unique (is_fresh now) s.uuid2addr h,
  find-retain (is_fresh now) uuid s.uuid2addr h ∙ same_test (find uuid s.uuid2addr),
)
  where
    same_test :
        (o : Option UuidEntry)
        → kept (is_fresh now) uuid o ≡ kept (λ u e. leb now (e.last_reg + 120)) uuid o
    same_test none = refl
    same_test (some e) = ground arith
