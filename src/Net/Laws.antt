-- ===== src/Net/Laws.antt =====
-- A datagram that one server sends is opened by the other as its message.
use p2p_server.Prelude.{ℕ, ◌^◌, ◌≤◌, ◌<◌, ◌≡◌, refl, [], ◌∷◌, some, Bytes, length, take_all, arith}
use p2p_server.Prelude.Wire.{be32_round}
use p2p_server.Util.{Sockaddr}
use p2p_server.Codec.{codec_write_head}
use p2p_server.Net.{Datagram, send_msg, datagram_bytes, open_packet}

pub open_datagram :
    (d : Datagram)
    → length d.payload < 2 ^ 32
    → open_packet (datagram_bytes d) ≡ some (d.msg_id, d.payload)
unfolding open_packet datagram_bytes codec_write_head
open_datagram d h =
    ground (arith, be32_round (length d.payload) h, take_all (length d.payload) d.payload)

-- A payload of at most 2040 bytes is sent as one datagram to the given address, whose bytes the
-- packet handlers open as the same message id and payload.
pub open-send_msg :
    (to : Sockaddr) (msg_id : ℕ) (payload : Bytes)
    → length payload ≤ 2040
    → (d : Datagram) × (send_msg to msg_id payload ≡ d ∷ [])
      × (d.to ≡ to)
      × (open_packet (datagram_bytes d) ≡ some (msg_id, payload))
unfolding send_msg
open-send_msg to msg_id payload h =
    let d : Datagram = record { to = to; msg_id = msg_id; payload = payload } in
    (d, ground arith, refl, open_datagram d (omega arith))

-- A payload that fits the buffer goes out as one datagram.
pub send_msg-fits :
    (to : Sockaddr) (msg_id : ℕ) (p : Bytes)
    → length p ≤ 2040
    → send_msg to msg_id p ≡ record { to = to; msg_id = msg_id; payload = p } ∷ []
unfolding send_msg
send_msg-fits to msg_id p h = ground arith
