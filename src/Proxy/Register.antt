-- ===== src/Proxy/Register.antt =====
-- server/proxyserver/src/P2PProxy.cpp: who is registered after a request, and who is not.
use p2p_server.Prelude.{
  ℕ, ◌≤◌, ◌<◌, if◌then◌else◌, ◌≡◌, ◌≢◌, ◌⊎◌, refl, ◌∙◌, true, List, [], none, some, Bytes,
  bytes_eq_iff, bytes_eq_refl, length, arith,
}
use p2p_server.Prelude.Maps.{
  Map, find, contains, put, erase, nat_key, bytes_key, find-put, find-erase,
}
use p2p_server.Crypto.Hmac.{hmac_sha256}
use p2p_server.ProtoDef.{msg_proxy_register_rsp}
use p2p_server.ProtoDef.Replies.{proxy_reg_rsp_bytes}
use p2p_server.Util.{Sockaddr, addr_to_u64, sockaddr_eq}
use p2p_server.Net.{Datagram, send_msg}
use p2p_server.Proxy.{
  Proxy, UuidEntry, do_register, enter, clear_old, is_full, is_authentic, register_rsp, refusal,
  granted, proxy_auth_key, unregister,
}

abbrev reply : Sockaddr → ℕ → List Datagram
reply from result = send_msg from msg_proxy_register_rsp (proxy_reg_rsp_bytes (refusal result))

-- After an admission the uuid maps to the sender and the sender's address to the uuid.
pub find-enter :
    (s : Proxy) (uuid : Bytes) (from : Sockaddr) (now : ℕ)
    → (find uuid (enter s uuid from now).uuid2addr ≡ some (record { addr = from; last_reg = now }))
      × (find (addr_to_u64 from) (enter s uuid from now).addr2uuid ≡ some uuid)
unfolding enter
find-enter s uuid from now =
    let key = addr_to_u64 from in
    let e : UuidEntry = record { addr = from; last_reg = now } in
    let m = clear_old uuid (find key s.addr2uuid) s.uuid2addr in
    (
      find-put uuid uuid e m ∙ rw (bytes_eq_refl uuid) refl,
      ground (arith, find-put key key uuid s.addr2uuid),
    )

-- A request with a uuid, the right MAC and room in the table (or a uuid already there) is granted:
-- the uuid then maps to the sender's address, that address to the uuid, and the reply carries both
-- code 0 and the address.
pub register_granted :
    (s : Proxy) (uuid : Bytes) (from : Sockaddr) (now : ℕ)
    → uuid ≢ []
    → (length s.uuid2addr < s.max_proxy) ⊎ (contains uuid s.uuid2addr ≡ true)
    → let (s', sent) = do_register s uuid from true (some (hmac_sha256 proxy_auth_key uuid)) now in
      (find uuid s'.uuid2addr ≡ some (record { addr = from; last_reg = now }))
      × (find (addr_to_u64 from) s'.addr2uuid ≡ some uuid)
      × (sent ≡ send_msg from msg_proxy_register_rsp (proxy_reg_rsp_bytes (granted from)))
unfolding do_register is_authentic is_full register_rsp
register_granted s uuid from now n room =
    ground (arith, find-enter s uuid from now, bytes_eq_refl (hmac_sha256 proxy_auth_key uuid))

-- Why a request is refused, with the code of the answer.
pub data Refused (s : Proxy) (uuid mac : Bytes) : ℕ → Type 0 where
  no_uuid : uuid ≡ [] → Refused s uuid mac 2
  not_authentic : uuid ≢ [] → mac ≢ hmac_sha256 proxy_auth_key uuid → Refused s uuid mac 3
  no_room :
      uuid ≢ []
      → mac ≡ hmac_sha256 proxy_auth_key uuid
      → s.max_proxy ≤ length s.uuid2addr
      → find uuid s.uuid2addr ≡ none
      → Refused s uuid mac 1

-- A request that is refused (an empty uuid, a MAC that is not the keyed hash of the uuid, a new uuid
-- at the limit) leaves every table as it was, and the answer carries the code of the reason.
pub register-Refused :
    (s : Proxy) (uuid mac : Bytes) (from : Sockaddr) (now : ℕ) {code : ℕ}
    → Refused s uuid mac code
    → do_register s uuid from true (some mac) now ≡ (s, reply from code)
unfolding do_register is_authentic is_full register_rsp
register-Refused s uuid mac from now (no_uuid e) = ground arith
register-Refused s uuid mac from now (not_authentic n bad) =
    ground (arith, bytes_eq_iff (hmac_sha256 proxy_auth_key uuid) mac)
register-Refused s uuid mac from now (no_room n good full missing) =
    ground (arith, bytes_eq_iff (hmac_sha256 proxy_auth_key uuid) mac)

-- Only the address that registered a uuid can unregister it: a request from there removes the uuid,
-- one from any other address leaves it, and no other uuid is touched.
pub unregister_owner :
    (s : Proxy) (uuid other : Bytes) (from : Sockaddr) (e : UuidEntry)
    → find uuid s.uuid2addr ≡ some e
    → other ≢ uuid
    → (find uuid (unregister s uuid from).uuid2addr
        ≡ (if sockaddr_eq e.addr from then none else some e))
      × (find other (unregister s uuid from).uuid2addr ≡ find other s.uuid2addr)
unfolding unregister
unregister_owner s uuid other from e found n = ground (
  arith,
  find-erase uuid uuid s.uuid2addr,
  find-erase uuid other s.uuid2addr,
  bytes_eq_refl uuid,
  bytes_eq_iff uuid other,
)

evicted :
    (uuid2addr : Map Bytes UuidEntry) (addr2uuid : Map ℕ Bytes) (u v : Bytes) (key : ℕ)
    (e : UuidEntry)
    → v ≢ u
    → find key addr2uuid ≡ some u
    → find u (put v e (clear_old v (find key addr2uuid) uuid2addr)) ≡ none
unfolding clear_old
evicted uuid2addr addr2uuid u v key e n h = ground (
  arith,
  bytes_eq_iff u v,
  bytes_eq_iff v u,
  bytes_eq_refl u,
  find-put v u e (erase u uuid2addr),
  find-erase u u uuid2addr,
)

stale :
    (m : Map ℕ Bytes) (u : Bytes) (old new : ℕ)
    → new ≢ old
    → find old (put new u (put old u m)) ≡ some u
stale m u old new d = ground (arith, find-put new old u (put old u m), find-put old old u m)

-- The reverse table keeps the old address of a uuid that registers again from a new one. When
-- another uuid is then entered from the old address, the first uuid loses its registration at the
-- new address.
pub moved_uuid_evicted :
    (s : Proxy) (u v : Bytes) (a b : Sockaddr) (t1 t2 t3 : ℕ)
    → v ≢ u
    → addr_to_u64 b ≢ addr_to_u64 a
    → let moved = enter (enter s u a t1) u b t2 in
      (find u moved.uuid2addr ≡ some (record { addr = b; last_reg = t2 }))
      × (find u (enter moved v a t3).uuid2addr ≡ none)
moved_uuid_evicted s u v a b t1 t2 t3 n d = (
  (find-enter (enter s u a t1) u b t2).0,
  unfold enter in
      evicted (enter (enter s u a t1) u b t2).uuid2addr (enter (enter s u a t1) u b t2).addr2uuid u
        v (addr_to_u64 a) (record { addr = a; last_reg = t3 }) n
        (stale s.addr2uuid u (addr_to_u64 a) (addr_to_u64 b) d),
)
