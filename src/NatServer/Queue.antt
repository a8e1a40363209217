-- ===== src/NatServer/Queue.antt =====
-- server/natserver/src/NatServer.cpp: `recv_thread` with one datagram, and the workers' queue.
pub mod Bound
use p2p_server.Prelude.{
  ℕ, ◌+◌, ◌%◌, ◌^◌, ◌==◌, ltb, leb, if◌then◌else◌, Bool, true, false, not, ◌||◌, List, [], ◌∷◌,
  ◌++◌, Option, none, some, Bytes, length, get_or,
}
use p2p_server.Prelude.Wire.{read_be16}
use p2p_server.ProtoDef.{nat_magic, proto_ver, msg_nat_detect_req, msg_nat_detect_rsp}
use p2p_server.ProtoDef.Replies.{NatDetectRsp, nat_detect_rsp_bytes}
use p2p_server.Util.{Sockaddr, inet_ntop}
use p2p_server.Net.{Datagram}
use p2p_server.AntiAbuse.{is_ip_blacklisted, check_flood}
use p2p_server.NatServer.{NatServer, IncomingPacket, Outcome}

-- server/natserver/src/NatTypeCheck.cpp: the answer of one of the two sockets. `self` is what
-- `getsockname` gives, `none` when it fails.
abbrev pub detect_rsp : ℕ → Option Sockaddr → Sockaddr → ℕ → ℕ → NatDetectRsp
detect_rsp index none to main_port alt_port = record {
  server_index = index;
  server_ip = [];
  server_port = 0;
  mapped_ip = inet_ntop to.addr;
  mapped_port = to.port;
  main_port = main_port;
  alt_port = alt_port;
}
detect_rsp index (some self) to main_port alt_port = record {
  server_index = index;
  server_ip = inet_ntop self.addr;
  server_port = self.port;
  mapped_ip = inet_ntop to.addr;
  mapped_port = to.port;
  main_port = main_port;
  alt_port = alt_port;
}

unfoldable pub send_rsp : ℕ → Option Sockaddr → Sockaddr → ℕ → ℕ → Datagram
send_rsp index self to main_port alt_port = record {
  to = to;
  msg_id = msg_nat_detect_rsp;
  payload = nat_detect_rsp_bytes (detect_rsp index self to main_port alt_port);
}

-- The sockets are bound to any address, the first to the main port and the second to the other.
abbrev pub socket_name : ℕ → Option Sockaddr
socket_name port = some (record { addr = 0; port = port })

unfoldable pub dual_reply : NatServer → Sockaddr → List Datagram
dual_reply s from =
    send_rsp 0 (socket_name s.nat_port) from s.nat_port s.alt_port
    ∷ send_rsp 1 (socket_name s.alt_port) from s.nat_port s.alt_port
    ∷ []

unfoldable pub is_detect_req : Bytes → Bool
is_detect_req input = not (
    ltb (length input) 8
    || not (read_be16 input 0 == nat_magic)
    || not (get_or input 2 0 == proto_ver)
    || not (get_or input 3 0 == msg_nat_detect_req))

unfoldable pub try_fast_handle : NatServer → Bytes → Sockaddr → Option (List Datagram)
try_fast_handle s input from = if is_detect_req input then some (dual_reply s from) else none

-- The bounded queue: the oldest packet makes room.
unfoldable pub enqueue : List IncomingPacket → IncomingPacket → List IncomingPacket
enqueue [] p = p ∷ []
enqueue (q ∷ qs) p = if leb 8192 (length (q ∷ qs)) then qs ++ p ∷ [] else (q ∷ qs) ++ p ∷ []

-- What one datagram does before it reaches a worker.
unfoldable pub receive : NatServer → Bytes → Sockaddr → ℕ → Outcome
receive s input from now =
    let (abuse1, black) = is_ip_blacklisted s.abuse from now in
    let (abuse2, flood) = check_flood abuse1 from now in
    let counted = record s { total_pkts = (s.total_pkts + 1) % 2 ^ 64; abuse = abuse1 } in
    let passed = record counted { abuse = abuse2 } in
    if black
    then (counted, [])
    else if flood
    then (passed, [])
    else elim (try_fast_handle passed input from) [
      | some sent ↦ (passed, sent)
      | none ↦ (record passed { mq = enqueue s.mq (record { buf = input; from = from }) }, [])
    ]

-- A worker takes the oldest packet.
unfoldable pub dequeue : NatServer → Option (IncomingPacket × NatServer)
dequeue s = elim s.mq [ [] ↦ none | ◌∷◌ p qs ↦ some (p, record s { mq = qs }) ]
