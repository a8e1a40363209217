-- ===== src/NatServer/Heartbeat/Gate.antt =====
-- server/natserver/src/NatServer.cpp, `handle_heartbeat`: who is registered, and who is not.
use p2p_server.Prelude.{
  ℕ, ◌≤◌, ◌<◌, ◌≡◌, ◌≢◌, refl, Bool, true, false, not, ◌&&◌, ◌||◌, Option, none, some, Bytes,
  length, arith,
}
use p2p_server.Prelude.Maps.{bytes_key}
use p2p_server.ProtoDef.Requests.{UuidReq}
use p2p_server.Util.{Sockaddr}
use p2p_server.CfgFile.{auth_enabled}
use p2p_server.PeerManage.{Peer, authed, get}
use p2p_server.PeerManage.Lookup.{get-upsert}
use p2p_server.AntiAbuse.{is_uuid_blacklisted}
use p2p_server.LicenseMgr.{allowed}
use p2p_server.NatServer.{NatServer, send_heartbeat_rsp}
use p2p_server.NatServer.Heartbeat.{
  heartbeat_refusal, heartbeat_report, admit_heartbeat, handle_heartbeat,
}

-- Why a heartbeat is refused, with the code of the answer.
pub data Barred (s : NatServer) (uuid : Bytes) (now : ℕ) : ℕ → Type 0 where
  not_logged_in : auth_enabled s.cfg ≡ true → authed s.peers uuid now ≡ false → Barred s uuid now 1
  blacklisted :
      (auth_enabled s.cfg && not (authed s.peers uuid now)) ≡ false
      → (is_uuid_blacklisted s.abuse uuid now).1 ≡ true
      → Barred s uuid now 2
  not_licensed :
      (auth_enabled s.cfg && not (authed s.peers uuid now)) ≡ false
      → s.cfg.enable_license ≡ true
      → allowed s.license uuid ≡ false
      → Barred s uuid now 2

send_any_abuse :
    (s : NatServer) (now : ℕ) (req : UuidReq) (from : Sockaddr) (code : ℕ) (iv : Option Bytes)
    → let s' = record s { abuse = (is_uuid_blacklisted s.abuse req.uuid now).0 } in
      send_heartbeat_rsp s' from req.uuid (heartbeat_refusal s' code) iv
      ≡ send_heartbeat_rsp s from req.uuid (heartbeat_refusal s code) iv
unfolding send_heartbeat_rsp
send_any_abuse s now req from code none = refl
send_any_abuse s now req from code (some iv) = refl

any_or_true : (b : Bool) → (b || true) ≡ true
any_or_true true = refl
any_or_true false = refl

both_true : (a b : Bool) → a ≡ true → b ≡ false → (a && not b) ≡ true
both_true a b p q = ground arith

-- A heartbeat of a uuid that is not logged in where a login is asked for, that is blacklisted, or
-- that is not on the white list, leaves the table of peers as it was, and the only datagram is the
-- answer with the code of the reason.
pub heartbeat_refused :
    (s : NatServer) (req : UuidReq) (ext : Bytes) (from : Sockaddr) (iv : Option Bytes) (now : ℕ)
    {code : ℕ}
    → Barred s req.uuid now code
    → let (s', sent) = handle_heartbeat s req ext from iv now in
      (s'.peers ≡ s.peers)
      × (sent ≡ send_heartbeat_rsp s from req.uuid (heartbeat_refusal s code) iv)
unfolding handle_heartbeat
heartbeat_refused s req ext from iv now (not_logged_in on out) = rw (on, out) (refl, refl)
heartbeat_refused s req ext from iv now (blacklisted pass black) =
    rw (pass, black) (refl, send_any_abuse s now req from 2 iv)
heartbeat_refused s req ext from iv now (not_licensed pass on out) =
    rw
      (
        pass,
        both_true s.cfg.enable_license (allowed s.license req.uuid) on out,
        any_or_true (is_uuid_blacklisted s.abuse req.uuid now).1,
      )
      (refl, send_any_abuse s now req from 2 iv)

-- After a heartbeat of a uuid of 1 to 32 bytes that is logged in where a login is asked for, not
-- blacklisted, and on the white list where there is one, the peer is in the table with the address
-- that the datagram came from and the time of the heartbeat, and no other peer has changed.
pub heartbeat_admitted :
    (s : NatServer) (req : UuidReq) (ext : Bytes) (from : Sockaddr) (iv : Option Bytes) (now : ℕ)
    (other : Bytes)
    → (auth_enabled s.cfg && not (authed s.peers req.uuid now)) ≡ false
    → (is_uuid_blacklisted s.abuse req.uuid now).1 ≡ false
    → (s.cfg.enable_license && not (allowed s.license req.uuid)) ≡ false
    → 0 < length req.uuid
    → length req.uuid ≤ 32
    → other ≢ req.uuid
    → let s' = (handle_heartbeat s req ext from iv now).0 in
      ((p : Peer) × (get s'.peers req.uuid ≡ some p)
        × (p.pub_addr ≡ from)
        × (p.last_heartbeat ≡ now))
      × (get s'.peers other ≡ get s.peers other)
unfolding handle_heartbeat admit_heartbeat
heartbeat_admitted s req ext from iv now other pass white licensed h k n =
    let (ok, (p, found, reported), rest) =
      get-upsert s.peers req.uuid other (heartbeat_report req ext from) now h k n in
    rw (pass, white, licensed) ((p, found, reported.0, reported.4), rest)
