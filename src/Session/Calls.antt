-- ===== src/Session/Calls.antt =====
-- client/sdk/session/Session.h: any history of calls of a session keeps its sending side in order.
use p2p_server.Prelude.{
  ℕ, ◌+◌, ◌%◌, ◌^◌, ◌≡◌, refl, Bool, List, [], ◌∷◌, some, Bytes, length, arith, Option-cases, inl,
  inr,
}
use p2p_server.Codec.{WireTunnel, codec_read_tunnel}
use p2p_server.Session.{Session, new_session, send, accept, deliver, handle_data, on_frame, tick}
use p2p_server.Session.Window.{
  IsSession, send-IsSession, handle_ack-IsSession, tick-IsSession, SameWindow, drain-SameWindow,
}

accept-SameWindow : (s : Session) (t : WireTunnel) → SameWindow s (accept s t).0
unfolding accept deliver
accept-SameWindow s t = ground (
  arith,
  drain-SameWindow
      (record s {
        rx_bytes = (s.rx_bytes + length t.payload) % 2 ^ 64;
        expected_seq = (s.expected_seq + 1) % 2 ^ 16;
      })
      s.ooo,
)

SameWindow-IsSession : {s t : Session} → SameWindow s t → IsSession s → IsSession t
SameWindow-IsSession e v = ground arith

handle_data-SameWindow : (s : Session) (t : WireTunnel) → SameWindow s (handle_data s t).0
unfolding handle_data deliver
handle_data-SameWindow s t =
    ground (
      arith,
      accept-SameWindow (record s { tx_bytes = (s.tx_bytes + length t.payload) % 2 ^ 64 }) t,
    )

frame-IsSession :
    (s : Session) (buf : Bytes) (t : WireTunnel)
    → codec_read_tunnel buf ≡ some t
    → IsSession s
    → IsSession (on_frame s buf).0
unfolding on_frame
frame-IsSession s buf t e v =
    let after_data : IsSession (handle_data s t).0 =
      SameWindow-IsSession (handle_data-SameWindow s t) v in
    let after_ack = handle_ack-IsSession s t.ack v in rw (e, on_frame) (ground arith)

on_frame-IsSession : (s : Session) (buf : Bytes) → IsSession s → IsSession (on_frame s buf).0
unfolding on_frame
on_frame-IsSession s buf v = elim (Option-cases (codec_read_tunnel buf)) [
  | inl e ↦ rw (e, on_frame) v
  | inr (t, e) ↦ frame-IsSession s buf t e v
]

-- The public calls of a session.
pub data Call : Type 0 where
  sends : ℕ → Bytes → Bool → ℕ → Call
  receives : Bytes → Call
  ticks : ℕ → Call

unfoldable pub step : Session → Call → Session
step s (sends channel payload reliable now) = (send s channel payload reliable now).0
step s (receives buf) = (on_frame s buf).0
step s (ticks now) = (tick s now).0

unfoldable pub run : Session → List Call → Session
run s [] = s
run s (c ∷ cs) = run (step s c) cs

step-IsSession : (s : Session) (c : Call) → IsSession s → IsSession (step s c)
unfolding step
step-IsSession s (sends channel payload reliable now) v =
    send-IsSession s channel payload reliable now v
step-IsSession s (receives buf) v = on_frame-IsSession s buf v
step-IsSession s (ticks now) v = tick-IsSession s now v

run-IsSession : (s : Session) (cs : List Call) → IsSession s → IsSession (run s cs)
unfolding run
run-IsSession s [] v = v
run-IsSession s (c ∷ cs) v = run-IsSession (step s c) cs (step-IsSession s c v)

-- After any calls on a new session, whatever bytes arrived, at most 64 frames wait for an
-- acknowledgement, and their sequence numbers are consecutive modulo 2 ^ 16 up to the next one.
pub run_new-IsSession : (id : ℕ) (cs : List Call) → IsSession (run (new_session id) cs)
unfolding new_session
run_new-IsSession id cs =
    run-IsSession _ cs
      (record { oldest = 0; in_order = refl; oldest_fits = omega arith; within = omega arith })
