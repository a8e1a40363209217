-- ===== src/Session/Stall.antt =====
-- client/sdk/session/Session.h: what `send_ack` says before the first frame has arrived.
use p2p_server.Prelude.{◌<◌, ◌≡◌, ◌≢◌, [], ◌∷◌, length, drop, arith, bit_and}
use p2p_server.Prelude.Maps.{nat_key}
use p2p_server.ProtoDef.{tf_reliable, tt_ack}
use p2p_server.Codec.{WireTunnel}
use p2p_server.Session.{
  Session, transmitted, accept, handle_data, handle_ack, send_ack, ack_number, control, frame_bytes,
}
use p2p_server.Session.Window.{IsSession}
use p2p_server.Session.Ack.{handle_ack_cumulative}

-- A receiver that waits for number 0 (a new one, or one whose counter wrapped) and gets another
-- reliable frame first still waits for 0 and delivers nothing, but acknowledges number 0; a sender
-- whose oldest waiting frame is number 0 drops it on that acknowledgement.
pub first_frame_lost :
    (receiver sender : Session) (t : WireTunnel) (v : IsSession sender)
    → receiver.expected_seq ≡ 0
    → t.seq ≢ 0
    → bit_and t.flags tf_reliable ≢ 0
    → v.oldest ≡ 0
    → 0 < length sender.pending
    → ((handle_data receiver t).0.expected_seq ≡ 0)
      × ((handle_data receiver t).1 ≡ transmitted (frame_bytes (control receiver tt_ack 0)) ∷ [])
      × ((handle_ack sender 0).pending ≡ drop 1 sender.pending)
unfolding handle_data accept send_ack ack_number
first_frame_lost receiver sender t v e n r o h =
    let dropped = handle_ack_cumulative sender v 0 h in
    (ground arith, ground arith, ground (arith, dropped))
