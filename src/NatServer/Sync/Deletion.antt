-- ===== src/NatServer/Sync/Deletion.antt =====
-- server/natserver/src/NatServer.cpp, `handle_sync_del`: to whom a deletion is passed on.
use p2p_server.Prelude.{
  ℕ, ◌≡◌, refl, sym, ap, ◌∙◌, true, false, List, [], ◌∷◌, ◌++◌, some, Bytes, arith,
}
use p2p_server.Prelude.Maps.{bytes_key}
use p2p_server.ProtoDef.{msg_sync_peer_del}
use p2p_server.ProtoDef.Replies.{uuid_field}
use p2p_server.Util.{Sockaddr, sockaddr_eq}
use p2p_server.Net.{Datagram}
use p2p_server.PeerManage.{PeerManager}
use p2p_server.NatServer.{NatServer}
use p2p_server.NatServer.Sync.{
  sync_enabled, sync_send_msg, is_excepted, broadcast_to, handle_sync_del,
}

append_nil : (xs : List Datagram) → xs ++ [] ≡ xs
append_nil [] = refl
append_nil (x ∷ xs) = ap (◌∷◌ x) (append_nil xs)

sockaddr_eq_refl : (a : Sockaddr) → sockaddr_eq a a ≡ true
unfolding sockaddr_eq
sockaddr_eq_refl a = ground arith

-- Of two servers the one that is not excepted gets the message.
broadcast_second :
    (s : NatServer) (a b : Sockaddr) (msg_id : ℕ) (payload : Bytes)
    → sockaddr_eq a b ≡ false
    → broadcast_to s (a ∷ b ∷ []) msg_id payload (some a) ≡ sync_send_msg s b msg_id payload
unfolding broadcast_to is_excepted
broadcast_second s a b msg_id payload d =
    rw (sockaddr_eq_refl a, d) (append_nil (sync_send_msg s b msg_id payload))

broadcast_first :
    (s : NatServer) (a b : Sockaddr) (msg_id : ℕ) (payload : Bytes)
    → sockaddr_eq b a ≡ false
    → broadcast_to s (a ∷ b ∷ []) msg_id payload (some b) ≡ sync_send_msg s a msg_id payload
unfolding broadcast_to is_excepted
broadcast_first s a b msg_id payload d =
    rw (d, sockaddr_eq_refl b) (append_nil (sync_send_msg s a msg_id payload))

del_sent :
    (s : NatServer) (uuid : Bytes) (from : Sockaddr) (tos : List Sockaddr)
    → sync_enabled s ≡ true
    → s.sync_addrs ≡ tos
    → (handle_sync_del s uuid from).1
      ≡ broadcast_to s tos msg_sync_peer_del (uuid_field uuid) (some from)
unfolding handle_sync_del
del_sent s uuid from tos on e = rw (on, e) refl

-- What a server sends does not depend on its table of peers.
send_any_peers :
    (s : NatServer) (peers : PeerManager) (to : Sockaddr) (msg_id : ℕ) (payload : Bytes)
    → sync_send_msg (record s { peers = peers }) to msg_id payload
      ≡ sync_send_msg s to msg_id payload
unfolding sync_send_msg
send_any_peers s peers to msg_id payload = refl

enabled_any_peers :
    (s : NatServer) (peers : PeerManager)
    → sync_enabled (record s { peers = peers }) ≡ sync_enabled s
unfolding sync_enabled
enabled_any_peers s peers = refl

-- With two other servers, a and b, in the list, a deletion that one of them announces is passed on
-- to the other, from a to b and from b to a, whatever the table of peers holds by then: nothing
-- tells a deletion that has been round from a new one.
pub del_forwarded_again :
    (s : NatServer) (peers : PeerManager) (uuid : Bytes) (a b : Sockaddr)
    → sync_enabled s ≡ true
    → s.sync_addrs ≡ a ∷ b ∷ []
    → sockaddr_eq a b ≡ false
    → sockaddr_eq b a ≡ false
    → let again = record s { peers = peers } in
      ((handle_sync_del s uuid a).1 ≡ sync_send_msg s b msg_sync_peer_del (uuid_field uuid))
      × ((handle_sync_del again uuid a).1 ≡ (handle_sync_del s uuid a).1)
      × ((handle_sync_del again uuid b).1 ≡ sync_send_msg s a msg_sync_peer_del (uuid_field uuid))
del_forwarded_again s peers uuid a b on two d d' =
    let again = record s { peers = peers } in
    let payload = uuid_field uuid in
    let still : sync_enabled again ≡ true = enabled_any_peers s peers ∙ on in
    let first : (handle_sync_del s uuid a).1 ≡ sync_send_msg s b msg_sync_peer_del payload =
      del_sent s uuid a (a ∷ b ∷ []) on two ∙ broadcast_second s a b msg_sync_peer_del payload d in
    (
      first,
      del_sent again uuid a (a ∷ b ∷ []) still two
          ∙ broadcast_second again a b msg_sync_peer_del payload d
          ∙ send_any_peers s peers b msg_sync_peer_del payload
          ∙ sym first,
      del_sent again uuid b (a ∷ b ∷ []) still two
          ∙ broadcast_first again a b msg_sync_peer_del payload d'
          ∙ send_any_peers s peers a msg_sync_peer_del payload,
    )
