-- ===== src/NatServer/Packet/Admin/Authorised.antt =====
-- server/natserver/src/RecvProcess.cpp, MSG_ADMIN_BLACKLIST_REQ: who may change the blacklists.
use p2p_server.Prelude.{
  ℕ, ◌+◌, leb, ◌≡◌, refl, true, false, not, ◌||◌, ◌∷◌, some, Bytes, bytes_eq, bytes_eq_iff,
  is_empty, c_str, arith,
}
use p2p_server.Prelude.Maps.{nat_key, bytes_key}
use p2p_server.ProtoDef.Requests.{AdminBlacklistReq}
use p2p_server.Crypto.Hmac.{hmac_sha256}
use p2p_server.Util.{inet_pton}
use p2p_server.AntiAbuse.{AntiAbuse, is_ip_blacklisted_ip, blacklist_ip}
use p2p_server.AntiAbuse.Blacklist.{blacklisted_until}
use p2p_server.NatServer.{NatServer}
use p2p_server.NatServer.Packet.Admin.{admin_op, add_ip, denied, is_authorised, admin_blacklist}

-- Without the secret configured, or with a MAC that is not the keyed hash of the operation and the
-- key, a request changes nothing and learns nothing.
pub admin_denied :
    (s : NatServer) (req : AdminBlacklistReq) (now : ℕ)
    → (is_empty s.cfg.admin_secret
        || not (bytes_eq (hmac_sha256 s.cfg.admin_secret (req.op ∷ req.key)) req.mac))
      ≡ true
    → admin_blacklist s req now ≡ (s, denied)
unfolding admin_blacklist is_authorised
admin_denied s req now h = ground arith

authorised :
    (s : NatServer) (req : AdminBlacklistReq)
    → is_empty s.cfg.admin_secret ≡ false
    → req.mac ≡ hmac_sha256 s.cfg.admin_secret (req.op ∷ req.key)
    → is_authorised s req ≡ true
unfolding is_authorised
authorised s req full mac =
    ground (arith, bytes_eq_iff (hmac_sha256 s.cfg.admin_secret (req.op ∷ req.key)) req.mac)

op_adds_ip :
    (a : AntiAbuse) (op ip : ℕ) (key : Bytes) (now : ℕ)
    → op ≡ 1
    → inet_pton key ≡ some ip
    → admin_op a op key now ≡ (blacklist_ip a ip now, 0)
unfolding admin_op add_ip
op_adds_ip a op ip key now one text = rw (one, text) refl

result_of :
    (s : NatServer) (req : AdminBlacklistReq) (now : ℕ) (a : AntiAbuse) (result : ℕ)
    → is_authorised s req ≡ true
    → admin_op s.abuse req.op (c_str req.key) now ≡ (a, result)
    → ((admin_blacklist s req now).1.result ≡ result) × ((admin_blacklist s req now).0.abuse ≡ a)
unfolding admin_blacklist
result_of s req now a result ok done = rw (ok, done) (refl, refl)

-- An authorised request to add an address blacklists it for the configured time and is answered with
-- the code 0.
pub admin_adds_ip :
    (s : NatServer) (req : AdminBlacklistReq) (ip now later : ℕ)
    → is_empty s.cfg.admin_secret ≡ false
    → req.mac ≡ hmac_sha256 s.cfg.admin_secret (req.op ∷ req.key)
    → req.op ≡ 1
    → inet_pton (c_str req.key) ≡ some ip
    → let (s', rsp) = admin_blacklist s req now in
      (rsp.result ≡ 0)
      × ((is_ip_blacklisted_ip s'.abuse ip later).1 ≡ leb later (now + s.abuse.blacklist_sec))
admin_adds_ip s req ip now later full mac op key =
    let (result, abuse) =
      result_of s req now (blacklist_ip s.abuse ip now) 0 (authorised s req full mac)
        (op_adds_ip s.abuse req.op ip (c_str req.key) now op key) in
    (
      result,
      rw abuse (blacklisted_until s.abuse ip (ip + 1) now later (λ e. absurd (omega arith))).0,
    )
