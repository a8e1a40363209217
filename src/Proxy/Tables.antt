-- ===== src/Proxy/Tables.antt =====
-- server/proxyserver/src/P2PProxy.cpp: the number of registrations never exceeds the limit.
use p2p_server.Prelude.{
  ℕ, ◌≤◌, ◌≡◌, refl, Bool, Option, none, some, Bytes, length, arith, Option-cases, inl, inr,
}
use p2p_server.Prelude.Maps.{
  Map, find, contains, nat_key, bytes_key, length-put, find-erase, length-erase-le,
  length-retain-le,
}
use p2p_server.Util.{Sockaddr, addr_to_u64}
use p2p_server.Net.{open_packet}
use p2p_server.Proxy.{
  Proxy, UuidEntry, do_register, enter, clear_old, is_full, unregister, relay, relay_paths,
  dispatch, handle, is_fresh, timer_round,
}

abbrev pub WithinLimit : Proxy → Type 0
WithinLimit s = length s.uuid2addr ≤ s.max_proxy

clear_old-le :
    (uuid : Bytes) (old : Option Bytes) (m : Map Bytes UuidEntry)
    → length (clear_old uuid old m) ≤ length m
unfolding clear_old
clear_old-le uuid none m = omega arith
clear_old-le uuid (some old) m = ground (arith, length-erase-le old m)

-- Clearing another uuid keeps this one.
contains-clear_old :
    (uuid : Bytes) (old : Option Bytes) (m : Map Bytes UuidEntry)
    → contains uuid (clear_old uuid old m) ≡ contains uuid m
unfolding clear_old
contains-clear_old uuid none m = refl
contains-clear_old uuid (some old) m = ground (arith, find-erase old uuid m)

register-WithinLimit :
    (s : Proxy) (uuid : Bytes) (from : Sockaddr) (with_rsp : Bool) (hmac : Option Bytes) (now : ℕ)
    → WithinLimit s
    → WithinLimit (do_register s uuid from with_rsp hmac now).0
unfolding do_register enter is_full
register-WithinLimit s uuid from with_rsp hmac now h =
    let old = find (addr_to_u64 from) s.addr2uuid in
    let e : UuidEntry = record { addr = from; last_reg = now } in
    ground (
      arith,
      length-put uuid e (clear_old uuid old s.uuid2addr),
      contains-clear_old uuid old s.uuid2addr,
      clear_old-le uuid old s.uuid2addr,
    )

unregister-WithinLimit :
    (s : Proxy) (uuid : Bytes) (from : Sockaddr)
    → WithinLimit s
    → WithinLimit (unregister s uuid from)
unfolding unregister
unregister-WithinLimit s uuid from h = ground (arith, length-erase-le uuid s.uuid2addr)

relay-WithinLimit :
    (s : Proxy) (p : Bytes) (from : Sockaddr) (now : ℕ)
    → WithinLimit s
    → WithinLimit (relay s p from now).0
unfolding relay relay_paths
relay-WithinLimit s p from now h = ground arith

dispatch-WithinLimit :
    (s : Proxy) (msg_id : ℕ) (p : Bytes) (from : Sockaddr) (now : ℕ)
    → WithinLimit s
    → WithinLimit (dispatch s msg_id p from now).0
unfolding dispatch
dispatch-WithinLimit s msg_id p from now h =
    grind (arith, register-WithinLimit, unregister-WithinLimit, relay-WithinLimit)

-- No datagram, well formed or not, takes the table of registrations past the limit, and no round of
-- the timer does.
pub handle-WithinLimit :
    (s : Proxy) (input : Bytes) (from : Sockaddr) (now : ℕ)
    → WithinLimit s
    → WithinLimit (handle s input from now).0 × WithinLimit (timer_round s now)
unfolding handle timer_round
handle-WithinLimit s input from now h = (
  elim (Option-cases (open_packet input)) [
    | inl e ↦ rw (e, handle) h
    | inr ((msg_id, p), e) ↦ rw (e, handle) (dispatch-WithinLimit s msg_id p from now h)
  ],
  omega (arith, length-retain-le (is_fresh now) s.uuid2addr),
)
