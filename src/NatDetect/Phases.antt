-- ===== src/NatDetect/Phases.antt =====
-- client/sdk/transport/NatDetect.h: what the detection concludes, and from what.
use p2p_server.Prelude.{
  ℕ, ◌+◌, List, [], ◌∷◌, ◌++◌, some, ◌≤◌, ◌==◌, ltb, leb, if◌then◌else◌, ◌≡◌, refl, sym, ap, ◌∙◌,
  true, false, Option, Bytes, length, get_or, replicate, arith,
}
use p2p_server.Prelude.Wire.{read_be16, slice}
use p2p_server.Net.{Datagram}
use p2p_server.ProtoDef.Terminated.{get-first}
use p2p_server.ProtoDef.{msg_nat_detect_req, nat_full_cone, nat_port_restricted, nat_symmetric}
use p2p_server.NatDetect.{
  main, alt, done, NatDetect, send_req, start, classify, both_heard, feed_main, feed_alt, feed,
  tick_main, tick,
}

long : (rsp : Bytes) → 3 ≤ length rsp → ltb (length rsp) 3 ≡ false
long rsp h = ground arith

waited : (m n : ℕ) → m ≤ n → leb m n ≡ true
waited m n h = ground arith

-- The state after an answer of the main socket, and of the other.
abbrev heard : NatDetect → Bytes → NatDetect
heard s a = record s {
  got_main_idx0 = true;
  mapped_ip_main = slice a 19 16;
  mapped_port_main = read_be16 a 35;
}

abbrev in_main : NatDetect → NatDetect
in_main s = record s { phase = main }

feed-zero :
    (s : NatDetect) (beyond a : Bytes)
    → 3 ≤ length a
    → get_or a 0 0 ≡ 0
    → feed (in_main s) beyond a ≡ both_heard (heard (in_main s) (a ++ beyond))
unfolding feed feed_main
feed-zero s beyond a l i = rw (long a l, get-first a beyond 0 (omega (arith, l)), i) refl

feed-one :
    (s : NatDetect) (beyond b : Bytes)
    → 3 ≤ length b
    → get_or b 0 0 ≡ 1
    → feed (in_main s) beyond b ≡ both_heard (record (in_main s) { got_main_idx1 = true })
unfolding feed feed_main
feed-one s beyond b l i = rw (long b l, get-first b beyond 0 (omega (arith, l)), i) refl

feed-alt :
    (s : NatDetect) (beyond b : Bytes)
    → 3 ≤ length b
    → get_or b 0 0 ≡ 0
    → feed (record s { phase = alt }) beyond b
      ≡ classify
          (record s { phase = alt; got_alt = true; mapped_port_alt = read_be16 (b ++ beyond) 35 })
unfolding feed feed_alt
feed-alt s beyond b l i = rw (long b l, get-first b beyond 0 (omega (arith, l)), i) refl

-- The state after a start, by its parts.
abbrev asked : NatDetect → ℕ → NatDetect
asked s now_ms = record s {
  phase = main;
  mapped_port_main = 0;
  got_main_idx0 = false;
  got_main_idx1 = false;
  got_alt = false;
  deadline = now_ms + s.main_timeout_ms;
  mapped_ip_main = replicate 16 0;
}

start-asked :
    (s : NatDetect) (server : Option ℕ) (port now_ms : ℕ)
    → (start s server port now_ms).0 ≡ asked s now_ms
unfolding start
start-asked s server port now_ms = refl

after_zero :
    (s : NatDetect) (now_ms : ℕ) (beyond a : Bytes)
    → 3 ≤ length a
    → get_or a 0 0 ≡ 0
    → feed (asked s now_ms) beyond a ≡ heard (asked s now_ms) (a ++ beyond)
unfolding both_heard
after_zero s now_ms beyond a l i = feed-zero (asked s now_ms) beyond a l i

after_one :
    (s : NatDetect) (now_ms : ℕ) (beyond b : Bytes)
    → 3 ≤ length b
    → get_or b 0 0 ≡ 1
    → feed (asked s now_ms) beyond b ≡ record (asked s now_ms) { got_main_idx1 = true }
unfolding both_heard
after_one s now_ms beyond b l i = feed-one (asked s now_ms) beyond b l i

-- From a start, the answers of both sockets, in either order, mean a full-cone NAT.
pub detect_full_cone :
    (s : NatDetect) (server : Option ℕ) (port now_ms : ℕ) (beyond a b : Bytes)
    → 3 ≤ length a
    → 3 ≤ length b
    → get_or a 0 0 ≡ 0
    → get_or b 0 0 ≡ 1
    → let s' = (start s server port now_ms).0 in
      (feed (feed s' beyond a) beyond b ≡ feed (feed s' beyond b) beyond a)
      × ((feed (feed s' beyond a) beyond b).phase ≡ done)
      × ((feed (feed s' beyond a) beyond b).nattype ≡ nat_full_cone)
unfolding both_heard
detect_full_cone s server port now_ms beyond a b la lb ia ib =
    let t = asked s now_ms in
    let over : NatDetect = record (heard t (a ++ beyond)) {
      got_main_idx1 = true;
      nattype = nat_full_cone;
      phase = done;
    } in
    let one : feed (feed (start s server port now_ms).0 beyond a) beyond b ≡ over =
      ap (λ (x : NatDetect). feed (feed x beyond a) beyond b) (start-asked s server port now_ms)
      ∙ ap (λ (x : NatDetect). feed x beyond b) (after_zero s now_ms beyond a la ia)
      ∙ feed-one (heard t (a ++ beyond)) beyond b lb ib in
    let two : feed (feed (start s server port now_ms).0 beyond b) beyond a ≡ over =
      ap (λ (x : NatDetect). feed (feed x beyond b) beyond a) (start-asked s server port now_ms)
      ∙ ap (λ (x : NatDetect). feed x beyond a) (after_one s now_ms beyond b lb ib)
      ∙ feed-zero (record t { got_main_idx1 = true }) beyond a la ia in
    (one ∙ sym two, ap (λ (x : NatDetect). x.phase) one, ap (λ (x : NatDetect). x.nattype) one)

abbrev request : ℕ → ℕ → Datagram
request ip port = record {
  to = record { addr = ip; port = port };
  msg_id = msg_nat_detect_req;
  payload = [];
}

start-request :
    (s : NatDetect) (ip port now_ms : ℕ)
    → start s (some ip) port now_ms ≡ (asked s now_ms, request ip port ∷ [])
unfolding start send_req
start-request s ip port now_ms = refl

-- The state of a detection that waits for the other socket.
abbrev waiting : NatDetect → ℕ → ℕ → Bytes → NatDetect
waiting s now_ms later a = record (heard (asked s now_ms) a) {
  phase = alt;
  deadline = later + s.main_timeout_ms;
}

tick-request :
    (s : NatDetect) (ip port other now_ms later : ℕ) (a : Bytes)
    → now_ms + s.main_timeout_ms + s.retry_ms ≤ later
    → tick (heard (asked s now_ms) a) (some ip) port other later
      ≡ (waiting s now_ms later a, request ip other ∷ [])
unfolding tick tick_main send_req
tick-request s ip port other now_ms later a due =
    rw (waited (now_ms + s.main_timeout_ms + s.retry_ms) later due) refl

-- The state and the datagrams once the first answer has come and its time is up.
asks_other :
    (s : NatDetect) (ip port other now_ms later : ℕ) (beyond a : Bytes)
    → 3 ≤ length a
    → get_or a 0 0 ≡ 0
    → now_ms + s.main_timeout_ms + s.retry_ms ≤ later
    → tick (feed (start s (some ip) port now_ms).0 beyond a) (some ip) port other later
      ≡ (waiting s now_ms later (a ++ beyond), request ip other ∷ [])
asks_other s ip port other now_ms later beyond a la ia due =
    ap (λ (x : NatDetect × List Datagram). tick (feed x.0 beyond a) (some ip) port other later)
      (start-request s ip port now_ms)
    ∙ ap (λ (x : NatDetect). tick x (some ip) port other later) (after_zero s now_ms beyond a la ia)
    ∙ tick-request s ip port other now_ms later (a ++ beyond) due

abbrev verdict : ℕ → ℕ → ℕ
verdict p q = if p == q then nat_port_restricted else nat_symmetric

decided :
    (s : NatDetect) (now_ms later : ℕ) (beyond a b : Bytes)
    → 3 ≤ length b
    → get_or b 0 0 ≡ 0
    → let s' = feed (waiting s now_ms later a) beyond b in
      (s'.phase ≡ done) × (s'.nattype ≡ verdict (read_be16 (b ++ beyond) 35) (read_be16 a 35))
unfolding classify
decided s now_ms later beyond a b lb ib =
    let over = feed-alt (waiting s now_ms later a) beyond b lb ib in
    (ap (λ (x : NatDetect). x.phase) over, ap (λ (x : NatDetect). x.nattype) over)

-- The answers of the two requests look alike, and the code does not tell them apart: a second copy
-- of the first answer that arrives after the phase has changed ends the detection, and the NAT
-- counts as port-restricted whatever it is.
pub late_answer_decides :
    (s : NatDetect) (ip port other now_ms later : ℕ) (beyond a : Bytes)
    → 3 ≤ length a
    → get_or a 0 0 ≡ 0
    → now_ms + s.main_timeout_ms + s.retry_ms ≤ later
    → let s' =
        feed
          (tick (feed (start s (some ip) port now_ms).0 beyond a) (some ip) port other later).0
          beyond
          a in
      (s'.phase ≡ done) × (s'.nattype ≡ nat_port_restricted)
late_answer_decides s ip port other now_ms later beyond a la ia due =
    let step = asks_other s ip port other now_ms later beyond a la ia due in
    let (phase, type) = decided s now_ms later beyond (a ++ beyond) a la ia in
    (
      ap (λ (x : NatDetect × List Datagram). (feed x.0 beyond a).phase) step ∙ phase,
      ap (λ (x : NatDetect × List Datagram). (feed x.0 beyond a).nattype) step
          ∙ type
          ∙ same_port (read_be16 (a ++ beyond) 35),
    )
  where
    same_port :
        (p : ℕ) → (if p == p then nat_port_restricted else nat_symmetric) ≡ nat_port_restricted
    same_port p = ground arith
