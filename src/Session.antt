-- ===== src/Session.antt =====
-- client/sdk/session/Session.h: a tunnel session. A callback is an event of the result: `delivered`
-- is `on_data`, `transmitted` is `on_tx`; both are taken to be set. `plat_now_ms` is an argument.
pub mod Window
pub mod Calls
pub mod Ack
pub mod Order
pub mod Stall
use p2p_server.Prelude.{
  ℕ, zero, suc, ◌+◌, ◌-◌, ◌%◌, ◌^◌, bit_and, ◌==◌, ltb, leb, if◌then◌else◌, Bool, true, false, not,
  ◌&&◌, ◌||◌, List, [], ◌∷◌, ◌++◌, Option, none, some, Bytes, length, replicate, is_empty,
}
use p2p_server.Prelude.Maps.{Map, find, insert, erase, nat_key}
use p2p_server.ProtoDef.{
  max_tunnel_payload, tf_reliable, tt_data, tt_ack, tt_ping, tt_pong, tt_close,
}
use p2p_server.Codec.{WireTunnel, codec_write_tunnel, codec_read_tunnel}

pub record Msg : Type 0 where
  pub seq : ℕ
  pub channel_id : ℕ
  pub flags : ℕ
  pub frame : Bytes
  pub sent_ms : ℕ

pub record Session : Type 0 where
  pub session_id : ℕ
  pub active : Bool
  pub next_seq : ℕ
  pub expected_seq : ℕ
  pub rto_ms : ℕ
  pub last_ping_ms : ℕ
  pub pending : List Msg
  pub ooo : Map ℕ Bytes
  pub slot_channel : Map ℕ ℕ
  pub tx_bytes : ℕ
  pub rx_bytes : ℕ

unfoldable pub new_session : ℕ → Session
new_session id = record {
  session_id = id;
  active = true;
  next_seq = 0;
  expected_seq = 0;
  rto_ms = 400;
  last_ping_ms = 0;
  pending = [];
  ooo = [];
  slot_channel = [];
  tx_bytes = 0;
  rx_bytes = 0;
}

pub data Event : Type 0 where
  delivered : ℕ → Bytes → Event
  transmitted : Bytes → Event

pub data SendResult : Type 0 where
  sent too_long window_full : SendResult

abbrev pub window : ℕ
window = 64

-- `codec_write_tunnel` into a zeroed vector of 14 + len bytes.
unfoldable pub frame_bytes : WireTunnel → Bytes
frame_bytes t = elim (codec_write_tunnel (14 + length t.payload) t) [
  | none ↦ replicate (14 + length t.payload) 0
  | some written ↦ written
]

-- The frames of a session.
abbrev pub control : Session → ℕ → ℕ → WireTunnel
control s type ack = record {
  type = type;
  session_id = s.session_id;
  channel_id = 0;
  flags = 0;
  seq = 0;
  ack = ack;
  payload = [];
}

abbrev pub data_frame : Session → ℕ → ℕ → ℕ → Bytes → WireTunnel
data_frame s channel flags seq payload = record {
  type = tt_data;
  session_id = s.session_id;
  channel_id = channel;
  flags = flags;
  seq = seq;
  ack = 0;
  payload = payload;
}

-- The message that a reliable send keeps until it is acknowledged.
abbrev pub reliable_msg : Session → ℕ → Bytes → ℕ → Msg
reliable_msg s channel payload now = record {
  seq = s.next_seq;
  channel_id = channel;
  flags = tf_reliable;
  frame = frame_bytes (data_frame s channel tf_reliable s.next_seq payload);
  sent_ms = now;
}

unfoldable pub send : Session → ℕ → Bytes → Bool → ℕ → Session × SendResult × List Event
send s channel payload reliable now =
    if ltb max_tunnel_payload (length payload)
    then (s, too_long, [])
    else if reliable && leb window (length s.pending)
    then (s, window_full, [])
    else if reliable
    then (
      record s {
        next_seq = (s.next_seq + 1) % 2 ^ 16;
        pending = s.pending ++ (reliable_msg s channel payload now ∷ []);
      },
      sent,
      transmitted (reliable_msg s channel payload now).frame ∷ [],
    )
    else (s, sent, transmitted (frame_bytes (data_frame s channel 0 0 payload)) ∷ [])

-- `on_data` is called for a payload that is not empty.
unfoldable pub deliveries : ℕ → Bytes → List Event
deliveries channel payload = if is_empty payload then [] else delivered channel payload ∷ []

unfoldable pub deliver : Session → ℕ → Bytes → Session
deliver s channel payload = record s { rx_bytes = (s.rx_bytes + length payload) % 2 ^ 64 }

abbrev channel_or_zero : Option ℕ → ℕ
channel_or_zero none = 0
channel_or_zero (some c) = c

-- The loop that delivers buffered frames in order: `m` is `ooo_`, smallest number first.
unfoldable pub drain : Session → Map ℕ Bytes → Session × List Event
drain s [] = (record s { ooo = [] }, [])
drain s ((seq, payload) ∷ m) =
    let channel = channel_or_zero (find seq s.slot_channel) in
    let next =
      drain
        (record (deliver s channel payload) {
          slot_channel = erase seq s.slot_channel;
          expected_seq = (s.expected_seq + 1) % 2 ^ 16;
        })
        m in
    if seq == s.expected_seq
    then (next.0, deliveries channel payload ++ next.1)
    else (record s { ooo = (seq, payload) ∷ m }, [])

unfoldable pub ack_number : Session → ℕ
ack_number s = if ltb 0 s.expected_seq then s.expected_seq - 1 else 0

unfoldable pub send_ack : Session → List Event
send_ack s = transmitted (frame_bytes (control s tt_ack (ack_number s))) ∷ []

-- The reliable branch of `handle_data`, before the acknowledgement.
unfoldable pub accept : Session → WireTunnel → Session × List Event
accept s t =
    if t.seq == s.expected_seq
    then (let (s', later) =
          drain
            (record (deliver s t.channel_id t.payload) {
              expected_seq = (s.expected_seq + 1) % 2 ^ 16;
            })
            s.ooo in
        (s', deliveries t.channel_id t.payload ++ later))
    else if ltb s.expected_seq t.seq && ltb (length s.ooo) 64
    then (
      record s {
        ooo = insert t.seq t.payload s.ooo;
        slot_channel = insert t.seq t.channel_id s.slot_channel;
      },
      [],
    )
    else (s, [])

unfoldable pub handle_data : Session → WireTunnel → Session × List Event
handle_data old t =
    let s = record old { tx_bytes = (old.tx_bytes + length t.payload) % 2 ^ 64 } in
    if bit_and t.flags tf_reliable == 0
    then (deliver s t.channel_id t.payload, deliveries t.channel_id t.payload)
    else let (s', events) = accept s t in (s', events ++ send_ack s')

-- `(int16_t)(seq - ack) <= 0`
unfoldable pub acked : ℕ → ℕ → Bool
acked seq ack = let d = (seq + 2 ^ 16 - ack) % 2 ^ 16 in d == 0 || leb (2 ^ 15) d

unfoldable pub drop_acked : ℕ → List Msg → List Msg
drop_acked ack [] = []
drop_acked ack (m ∷ ms) = if acked m.seq ack then drop_acked ack ms else m ∷ ms

unfoldable pub handle_ack : Session → ℕ → Session
handle_ack s ack = record s { pending = drop_acked ack s.pending }

unfoldable pub reply_pong : Session → List Event
reply_pong s = transmitted (frame_bytes (control s tt_pong 0)) ∷ []

unfoldable pub on_frame : Session → Bytes → Session × List Event
on_frame s buf = elim (codec_read_tunnel buf) [
  | none ↦ (s, [])
  | some t ↦
      if t.type == tt_data
      then handle_data s t
      else if t.type == tt_ack
      then (handle_ack s t.ack, [])
      else if t.type == tt_ping
      then (s, reply_pong s)
      else if t.type == tt_close
      then (record s { active = false }, [])
      else (s, [])
]

-- `now - then` of type uint64_t.
unfoldable pub elapsed : ℕ → ℕ → ℕ
elapsed now past = (now + 2 ^ 64 - past) % 2 ^ 64

unfoldable pub resend : ℕ → ℕ → List Msg → List Msg × List Event
resend rto now [] = ([], [])
resend rto now (m ∷ ms) =
    let (rest, events) = resend rto now ms in
    if leb rto (elapsed now m.sent_ms)
    then (record m { sent_ms = now } ∷ rest, transmitted m.frame ∷ events)
    else (m ∷ rest, events)

unfoldable pub tick : Session → ℕ → Session × List Event
tick s now =
    let due = leb 15000 (elapsed now s.last_ping_ms) in
    let (pending, events) = resend s.rto_ms now s.pending in
    (
      record s { last_ping_ms = if due then now else s.last_ping_ms; pending = pending },
      (if due then transmitted (frame_bytes (control s tt_ping 0)) ∷ [] else []) ++ events,
    )
