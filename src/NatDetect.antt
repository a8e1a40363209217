-- ===== src/NatDetect.antt =====
-- client/sdk/transport/NatDetect.h: the client's detection of its NAT. What `send` is given is the
-- result of a call; `inet_pton` of the server's text is an argument, `none` when it fails.
pub mod Phases
use p2p_server.Prelude.{
  ℕ, ◌+◌, ◌*◌, ◌==◌, ltb, leb, if◌then◌else◌, Bool, true, false, not, ◌&&◌, List, [], ◌∷◌, ◌++◌,
  Option, none, some, Bytes, length, get_or, replicate,
}
use p2p_server.Prelude.Wire.{read_be16, slice}
use p2p_server.ProtoDef.{
  msg_nat_detect_req, nat_unknown, nat_full_cone, nat_port_restricted, nat_symmetric,
}
use p2p_server.Util.{Sockaddr}
use p2p_server.Net.{Datagram}

pub data Phase : Type 0 where
  idle : Phase
  main : Phase
  alt : Phase
  done : Phase

pub record NatDetect : Type 0 where
  pub phase : Phase
  pub nattype : ℕ
  pub got_main_idx0 : Bool
  pub got_main_idx1 : Bool
  pub got_alt : Bool
  pub mapped_ip_main : Bytes
  pub mapped_port_main : ℕ
  pub mapped_port_alt : ℕ
  pub deadline : ℕ
  pub main_timeout_ms : ℕ
  pub retry_ms : ℕ

abbrev pub new_detect : NatDetect
new_detect = record {
  phase = idle;
  nattype = nat_unknown;
  got_main_idx0 = false;
  got_main_idx1 = false;
  got_alt = false;
  mapped_ip_main = replicate 16 0;
  mapped_port_main = 0;
  mapped_port_alt = 0;
  deadline = 0;
  main_timeout_ms = 2500;
  retry_ms = 500;
}

unfoldable pub send_req : Option ℕ → ℕ → List Datagram
send_req none port = []
send_req (some ip) port =
    record { to = record { addr = ip; port = port }; msg_id = msg_nat_detect_req; payload = [] }
    ∷ []

unfoldable pub start : NatDetect → Option ℕ → ℕ → ℕ → NatDetect × List Datagram
start s server main_port now_ms = (
  record s {
    phase = main;
    mapped_port_main = 0;
    got_main_idx0 = false;
    got_main_idx1 = false;
    got_alt = false;
    deadline = now_ms + s.main_timeout_ms;
    mapped_ip_main = replicate 16 0;
  },
  send_req server main_port,
)

unfoldable pub classify : NatDetect → NatDetect
classify s = record s {
  nattype =
      if s.got_alt && s.mapped_port_alt == s.mapped_port_main
      then nat_port_restricted
      else nat_symmetric;
  phase = done;
}

unfoldable pub both_heard : NatDetect → NatDetect
both_heard s =
    if s.got_main_idx0 && s.got_main_idx1
    then record s { nattype = nat_full_cone; phase = done }
    else s

unfoldable pub feed_main : NatDetect → Bytes → NatDetect
feed_main s rsp = both_heard (
    if get_or rsp 0 0 == 0
    then record s {
      got_main_idx0 = true;
      mapped_ip_main = slice rsp 19 16;
      mapped_port_main = read_be16 rsp 35;
    }
    else if get_or rsp 0 0 == 1
    then record s { got_main_idx1 = true }
    else s)

unfoldable pub feed_alt : NatDetect → Bytes → NatDetect
feed_alt s rsp =
    if get_or rsp 0 0 == 0
    then classify (record s { got_alt = true; mapped_port_alt = read_be16 rsp 35 })
    else s

-- The code asks only for 3 bytes of the answer and reads up to its byte 36: `beyond` is the memory
-- behind it.
unfoldable pub feed : NatDetect → Bytes → Bytes → NatDetect
feed s beyond rsp = if ltb (length rsp) 3 then s else elim s.phase [
  | idle ↦ s
  | main ↦ feed_main s (rsp ++ beyond)
  | alt ↦ feed_alt s (rsp ++ beyond)
  | done ↦ s
]

abbrev pub renewed : NatDetect → ℕ → NatDetect
renewed s now_ms = record s { deadline = now_ms + s.main_timeout_ms }

unfoldable pub tick_main : NatDetect → Option ℕ → ℕ → ℕ → ℕ → NatDetect × List Datagram
tick_main s server main_port alt_port now_ms =
    if not s.got_main_idx0
    then (renewed s now_ms, send_req server main_port)
    else (record (renewed s now_ms) { phase = alt }, send_req server alt_port)

unfoldable pub tick_alt : NatDetect → Option ℕ → ℕ → ℕ → NatDetect × List Datagram
tick_alt s server alt_port now_ms =
    if s.got_alt then (classify s, []) else (renewed s now_ms, send_req server alt_port)

unfoldable pub tick : NatDetect → Option ℕ → ℕ → ℕ → ℕ → NatDetect × List Datagram
tick s server main_port alt_port now_ms =
    if leb (s.deadline + s.retry_ms) now_ms
    then elim s.phase [
      | idle ↦ (s, [])
      | main ↦ tick_main s server main_port alt_port now_ms
      | alt ↦ tick_alt s server alt_port now_ms
      | done ↦ (s, [])
    ]
    else (s, [])

abbrev pub set_timeouts : NatDetect → ℕ → ℕ → NatDetect
set_timeouts s main_timeout retry = record s { main_timeout_ms = main_timeout; retry_ms = retry }
