-- ===== src/Examples/Tunnel.antt =====
-- client/sdk: runs of the session and of the NAT detection.
use p2p_server.Prelude.{
  ℕ, ◌+◌, ◌%◌, ◌^◌, ◌≡◌, refl, true, [], ◌∷◌, ◌++◌, Bytes, drop, map, arith, replicate,
}
use p2p_server.ProtoDef.{tf_reliable, tt_data, tt_ack}
use p2p_server.Codec.{WireTunnel}
use p2p_server.Session.{
  Session, new_session, Msg, handle_ack, handle_data, frame_bytes, control, transmitted,
}
use p2p_server.Session.Window.{IsSession}
use p2p_server.Session.Calls.{sends, receives, ticks, run, run_new-IsSession}
use p2p_server.Session.Ack.{handle_ack_cumulative}
use p2p_server.Session.Stall.{first_frame_lost}
use p2p_server.Session.Order.{Stream, prefix}
use p2p_server.Session.Order.Buffer.{frame}
use p2p_server.Session.Order.Delivery.{received_in_order, receive_all, to_application, IsSendable}

-- Every payload is the byte 7, on channel 1.
abbrev sevens : Stream
sevens = record { channel = λ i. 1; payload = λ i. 7 ∷ [] }

sevens-IsSendable : IsSendable sevens (new_session 5)
unfolding new_session
sevens-IsSendable = record { session_fits = omega arith; payload_fits = λ i. omega arith }

-- Frames 1, 0, 3, 1 arrive.
received_in_order_example :
    let result =
      receive_all
        (new_session 5)
        (map (λ i. frame_bytes (frame sevens (new_session 5) i)) (1 ∷ 0 ∷ 3 ∷ 1 ∷ [])) in
    to_application result.1 ≡ prefix sevens result.0.expected_seq
received_in_order_example =
    received_in_order sevens 5 (new_session 5) (1 ∷ 0 ∷ 3 ∷ 1 ∷ []) sevens-IsSendable
      (omega arith, (omega arith, (omega arith, (omega arith, tt))))

run_new-IsSession_example :
    IsSession (run (new_session 9) (sends 1 (7 ∷ []) true 10 ∷ receives (1 ∷ []) ∷ ticks 900 ∷ []))
run_new-IsSession_example =
    run_new-IsSession 9 (sends 1 (7 ∷ []) true 10 ∷ receives (1 ∷ []) ∷ ticks 900 ∷ [])

abbrev message : ℕ → Msg
message seq = record { seq = seq; channel_id = 1; flags = tf_reliable; frame = []; sent_ms = 0 }

-- Three frames wait, their numbers across the wrap.
abbrev waiting : Session
waiting = record {
  session_id = 9;
  active = true;
  next_seq = 1;
  expected_seq = 0;
  rto_ms = 400;
  last_ping_ms = 0;
  pending = message 65534 ∷ message 65535 ∷ message 0 ∷ [];
  ooo = [];
  slot_channel = [];
  tx_bytes = 0;
  rx_bytes = 0;
}

abbrev waiting-IsSession : IsSession waiting
waiting-IsSession = record {
  oldest = 65534;
  in_order = (refl, (refl, (refl, refl)));
  oldest_fits = omega arith;
  within = omega arith;
}

handle_ack_cumulative_example :
    (handle_ack waiting ((65534 + 1) % 2 ^ 16)).pending ≡ drop 2 waiting.pending
handle_ack_cumulative_example = handle_ack_cumulative waiting waiting-IsSession 1 (omega arith)

abbrev from_start : Session
from_start = record waiting { next_seq = 2; pending = message 0 ∷ message 1 ∷ [] }

abbrev from_start-IsSession : IsSession from_start
from_start-IsSession = record {
  oldest = 0;
  in_order = (refl, (refl, refl));
  oldest_fits = omega arith;
  within = omega arith;
}

-- The second frame of a sender arrives first.
abbrev second : WireTunnel
second = record {
  type = tt_data;
  session_id = 9;
  channel_id = 1;
  flags = tf_reliable;
  seq = 1;
  ack = 0;
  payload = 7 ∷ [];
}

first_frame_lost_example :
    ((handle_data waiting second).0.expected_seq ≡ 0)
    × ((handle_data waiting second).1 ≡ transmitted (frame_bytes (control waiting tt_ack 0)) ∷ [])
    × ((handle_ack from_start 0).pending ≡ drop 1 from_start.pending)
first_frame_lost_example =
    first_frame_lost waiting from_start second from_start-IsSession refl (λ e. absurd (omega arith))
      (λ e. absurd (omega arith)) refl (omega arith)

-- An answer of the main socket that saw the port 258.
abbrev answer : Bytes
answer = replicate 35 0 ++ 1 ∷ 2 ∷ []
