-- ===== src/NatServer/Packet/Connect/Introduce.antt =====
-- server/natserver/src/RecvProcess.cpp: what a CONNECT request leads to.
use p2p_server.Prelude.{
  ℕ, ◌+◌, ◌%◌, ◌^◌, ◌≤◌, ◌<◌, ◌≡◌, ◌≢◌, refl, sym, ap, ◌∙◌, true, false, not, ◌&&◌, List, ◌++◌,
  Option, none, some, Bytes, length, arith, Bool-cases, inl, inr,
}
use p2p_server.ProtoDef.{msg_connect_ack, msg_connect_invite, connect_not_found}
use p2p_server.ProtoDef.Requests.{UuidReq, ConnectReq}
use p2p_server.ProtoDef.Replies.{connect_ack_bytes, connect_invite_bytes}
use p2p_server.Util.{Sockaddr}
use p2p_server.Net.{Datagram, send_msg}
use p2p_server.CfgFile.{auth_enabled}
use p2p_server.PeerManage.{Peer, get, authed}
use p2p_server.AntiAbuse.{is_uuid_blacklisted}
use p2p_server.LicenseMgr.{allowed}
use p2p_server.NatServer.{NatServer}
use p2p_server.NatServer.ProxyPool.{pick_proxy}
use p2p_server.NatServer.Heartbeat.{handle_heartbeat}
use p2p_server.NatServer.Heartbeat.Gate.{heartbeat_admitted}
use p2p_server.NatServer.Packet.Peers.{Env}
use p2p_server.NatServer.Packet.Connect.{
  connect_refusal, connect_granted, invite_of, refuse_connect, introduce, connect,
}

-- Why a connection is refused, with the code of the answer.
pub data Unconnected (s : NatServer) (req : ConnectReq) (now : ℕ) : ℕ → Type 0 where
  not_logged_in :
      auth_enabled s.cfg ≡ true → authed s.peers req.src_uuid now ≡ false → Unconnected s req now 3
  not_licensed :
      (auth_enabled s.cfg && not (authed s.peers req.src_uuid now)) ≡ false
      → (s.cfg.enable_license && not (allowed s.license req.src_uuid)) ≡ true
      → Unconnected s req now connect_not_found
  not_online :
      (auth_enabled s.cfg && not (authed s.peers req.src_uuid now)) ≡ false
      → get s.peers req.dst_uuid ≡ none
      → Unconnected s req now connect_not_found

-- A request that is refused changes nothing but the count of failures, and only the initiator hears
-- of it, with the code of the reason and no address.
pub connect_refused :
    (s : NatServer) (env : Env) (req : ConnectReq) (from : Sockaddr) {code : ℕ}
    → Unconnected s req env.now code
    → connect s env req from ≡ (
      record s { connect_fail = (s.connect_fail + 1) % 2 ^ 64 },
      send_msg from msg_connect_ack (connect_ack_bytes (connect_refusal req.dst_uuid code)),
    )
unfolding connect refuse_connect
connect_refused s env req from (not_logged_in on out) = ground arith
connect_refused s env req from (not_licensed pass out) = ground arith
connect_refused s env req from (not_online pass out) =
    elim (Bool-cases (s.cfg.enable_license && not (allowed s.license req.src_uuid))) [
      | inl stop ↦ rw (pass, stop) refl
      | inr go ↦ rw (pass, go, out) refl
    ]

cong_pair :
    (f : Sockaddr → Option Peer → List Datagram) (x y : Sockaddr) (o p : Option Peer)
    → x ≡ y
    → o ≡ p
    → f x o ≡ f y p
cong_pair f x y o p e d = ap (λ (a : Sockaddr). f a o) e ∙ ap (f y) d

introduced :
    (s : NatServer) (env : Env) (req : ConnectReq) (from : Sockaddr) (dst : Peer)
    → (auth_enabled s.cfg && not (authed s.peers req.src_uuid env.now)) ≡ false
    → (s.cfg.enable_license && not (allowed s.license req.src_uuid)) ≡ false
    → get s.peers req.dst_uuid ≡ some dst
    → (connect s env req from).1 ≡ (introduce s env req from dst).1
unfolding connect
introduced s env req from dst pass licensed there = rw (pass, licensed, there) refl

sent_to :
    (s : NatServer) (env : Env) (src : Bytes) (from peer : Sockaddr) (uuid : Bytes) (dst : Peer)
    (old new : Option Peer)
    → dst.pub_addr ≡ peer
    → old ≡ new
    → (send_msg from msg_connect_ack
          (connect_ack_bytes (connect_granted uuid dst (pick_proxy s env.draws env.now)))
        ++ send_msg dst.pub_addr msg_connect_invite
            (connect_invite_bytes (invite_of src from old (pick_proxy s env.invite_draws env.now))))
      ≡ send_msg from msg_connect_ack
          (connect_ack_bytes (connect_granted uuid dst (pick_proxy s env.draws env.now)))
        ++ send_msg peer msg_connect_invite
            (connect_invite_bytes (invite_of src from new (pick_proxy s env.invite_draws env.now)))
sent_to s env src from peer uuid dst old new at same =
    cong_pair
      (λ (to : Sockaddr) (o : Option Peer).
        send_msg from msg_connect_ack
          (connect_ack_bytes (connect_granted uuid dst (pick_proxy s env.draws env.now)))
        ++ send_msg to msg_connect_invite
            (connect_invite_bytes (invite_of src from o (pick_proxy s env.invite_draws env.now))))
      dst.pub_addr peer old new at same

-- After the heartbeat of a peer that the gates admit, with a uuid of 1 to 32 bytes, and for another
-- initiator that passes the gates of a connection: the initiator is told the address that the
-- heartbeat came from, and the invitation, with the initiator's own address, goes to that address.
pub connect-heartbeat :
    (s s' : NatServer) (req : UuidReq) (ext : Bytes) (peer : Sockaddr) (iv : Option Bytes) (t : ℕ)
    (env : Env) (src : Bytes) (from : Sockaddr)
    → (auth_enabled s.cfg && not (authed s.peers req.uuid t)) ≡ false
    → (is_uuid_blacklisted s.abuse req.uuid t).1 ≡ false
    → (s.cfg.enable_license && not (allowed s.license req.uuid)) ≡ false
    → 0 < length req.uuid
    → length req.uuid ≤ 32
    → src ≢ req.uuid
    → (handle_heartbeat s req ext peer iv t).0 ≡ s'
    → (auth_enabled s'.cfg && not (authed s'.peers src env.now)) ≡ false
    → (s'.cfg.enable_license && not (allowed s'.license src)) ≡ false
    → (dst : Peer) × (dst.pub_addr ≡ peer)
      × ((connect s' env (record { src_uuid = src; dst_uuid = req.uuid }) from).1
          ≡ send_msg from msg_connect_ack
              (connect_ack_bytes (connect_granted req.uuid dst (pick_proxy s' env.draws env.now)))
            ++ send_msg peer msg_connect_invite (
                connect_invite_bytes
                  (invite_of src from (get s.peers src) (pick_proxy s' env.invite_draws env.now))))
unfolding introduce
connect-heartbeat s s' req ext peer iv t env src from pass white licensed h k n e pass' licensed' =
    let ((dst, found, at, time), rest) =
      heartbeat_admitted s req ext peer iv t src pass white licensed h k n in
    let there : get s'.peers req.uuid ≡ some dst =
      ap (λ (x : NatServer). get x.peers req.uuid) (sym e) ∙ found in
    let same : get s'.peers src ≡ get s.peers src =
      ap (λ (x : NatServer). get x.peers src) (sym e) ∙ rest in
    (
      dst,
      at,
      introduced s' env (record { src_uuid = src; dst_uuid = req.uuid }) from dst pass' licensed'
            there
          ∙ sent_to s' env src from peer req.uuid dst (get s'.peers src) (get s.peers src) at same,
    )
