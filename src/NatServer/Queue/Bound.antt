-- ===== src/NatServer/Queue/Bound.antt =====
-- server/natserver/src/NatServer.cpp: what `recv_thread` lets through to the workers.
use p2p_server.Prelude.{
  ℕ, ◌≤◌, if◌then◌else◌, ◌≡◌, ◌||◌, List, [], ◌∷◌, Bytes, length, length-append, arith,
}
use p2p_server.Prelude.Maps.{nat_key}
use p2p_server.Util.{Sockaddr}
use p2p_server.AntiAbuse.{is_ip_blacklisted, check_flood}
use p2p_server.NatServer.{NatServer, IncomingPacket}
use p2p_server.NatServer.Queue.{enqueue, receive}

enqueue-length :
    (qs : List IncomingPacket) (p : IncomingPacket)
    → length qs ≤ 8192
    → length (enqueue qs p) ≤ 8192
unfolding enqueue
enqueue-length [] p h = omega arith
enqueue-length (q ∷ qs) p h =
    ground (arith, length-append qs (p ∷ []), length-append (q ∷ qs) (p ∷ []))

-- A queue of at most 8192 packets stays one, whatever arrives. A datagram from a blacklisted address,
-- or one that makes or finds the flood limit exceeded, does not enter it and is not answered.
pub receive-mq :
    (s : NatServer) (input : Bytes) (from : Sockaddr) (now : ℕ)
    → length s.mq ≤ 8192
    → let (abuse, black) = is_ip_blacklisted s.abuse from now in
      let flood = (check_flood abuse from now).1 in
      let (s', sent) = receive s input from now in
      (length s'.mq ≤ 8192)
      × ((if black || flood then s'.mq else s.mq) ≡ s.mq)
      × ((if black || flood then sent else []) ≡ [])
unfolding receive
receive-mq s input from now h =
    let p : IncomingPacket = record { buf = input; from = from } in
    ground (arith, enqueue-length s.mq p h)
