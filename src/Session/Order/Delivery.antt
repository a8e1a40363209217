-- ===== src/Session/Order/Delivery.antt =====
-- client/sdk/session/Session.h: the receiver against the sender's stream, from bytes to callbacks.
use p2p_server.Prelude.{
  ℕ, zero, suc, ◌+◌, ◌-◌, ◌%◌, ◌^◌, ◌≤◌, ◌<◌, ◌≡◌, refl, sym, ap, ◌∙◌, List, [], ◌∷◌, ◌++◌, map,
  some, Bytes, length, All, arith,
}
use mathlib.Core.List.{append-nil, append_assoc}
use p2p_server.Prelude.Maps.{nat_key}
use p2p_server.ProtoDef.{max_tunnel_payload}
use p2p_server.Codec.{WireTunnel, codec_write_tunnel, codec_read_tunnel}
use p2p_server.Codec.RoundTrip.{IsWireTunnel, read_tunnel-write_tunnel}
use p2p_server.Session.{
  Session, Event, delivered, transmitted, deliveries, accept, handle_data, new_session, send_ack,
  frame_bytes, on_frame,
}
use p2p_server.Session.Order.{Stream, prefix, Receiving}
use p2p_server.Session.Order.Buffer.{Continues, frame, accept-Continues}

-- What the application sees of a list of events.
unfoldable pub to_application : List Event → List Event
to_application [] = []
to_application (delivered c p ∷ es) = delivered c p ∷ to_application es
to_application (transmitted b ∷ es) = to_application es

to_application-append :
    (xs ys : List Event) → to_application (xs ++ ys) ≡ to_application xs ++ to_application ys
unfolding to_application
to_application-append [] ys = refl
to_application-append (delivered c p ∷ xs) ys =
    ap (◌∷◌ (delivered c p)) (to_application-append xs ys)
to_application-append (transmitted b ∷ xs) ys = to_application-append xs ys

-- Datagrams handed to `on_frame` one after another.
unfoldable pub receive_all : Session → List Bytes → Session × List Event
receive_all s [] = (s, [])
receive_all s (b ∷ bs) =
    let (s1, first) = on_frame s b in let (s2, later) = receive_all s1 bs in (s2, first ++ later)

frame_bytes-write :
    (t : WireTunnel) → codec_write_tunnel (14 + length t.payload) t ≡ some (frame_bytes t)
unfolding frame_bytes codec_write_tunnel
frame_bytes-write t = ground arith

pub read_tunnel-frame_bytes :
    (t : WireTunnel) → IsWireTunnel t → codec_read_tunnel (frame_bytes t) ≡ some t
read_tunnel-frame_bytes t w =
    rw append-nil at (
      read_tunnel-write_tunnel (14 + length t.payload) t (frame_bytes t) [] w (frame_bytes-write t))

deliveries_only : (c : ℕ) (p : Bytes) → to_application (deliveries c p) ≡ deliveries c p
unfolding to_application deliveries
deliveries_only c p = ground arith

module _ (st : Stream) where
  prefix_only : (n : ℕ) → to_application (prefix st n) ≡ prefix st n
  unfolding prefix
  prefix_only zero = unfold to_application in refl
  prefix_only (suc n) =
      to_application-append (prefix st n) (deliveries (st.channel n) (st.payload n))
      ∙ rw (prefix_only n, deliveries_only (st.channel n) (st.payload n)) refl

  -- `Continues`, of what the application sees.
  abbrev Extends : Session → Session → List Event → Type 0
  Extends s s' ev =
      (prefix st s.expected_seq ++ to_application ev ≡ prefix st s'.expected_seq) × Receiving st s'

  Continues-Extends : (s s' : Session) (ev : List Event) → Continues st s s' ev → Extends s s' ev
  Continues-Extends s s' ev c = (
    rw (prefix_only s.expected_seq, prefix_only s'.expected_seq) at
        (sym (to_application-append (prefix st s.expected_seq) ev) ∙ ap to_application c.0),
    c.1,
  )

  -- The contents of the stream fit a frame.
  pub record IsSendable (peer : Session) : Type 0 where
    pub session_fits : peer.session_id < 2 ^ 16
    pub payload_fits : (i : ℕ) → length (st.payload i) ≤ max_tunnel_payload

  frame-IsWireTunnel :
      (peer : Session) (i : ℕ) → IsSendable peer → i < 2 ^ 16 - 1 → IsWireTunnel (frame st peer i)
  frame-IsWireTunnel peer i w h = record {
    session_fits = w.session_fits;
    seq_fits = omega arith;
    ack_fits = omega arith;
    len_fits = omega (arith, w.payload_fits i);
  }

  handle_data-Extends :
      (s peer : Session) (i : ℕ)
      → i < 2 ^ 16 - 1
      → Receiving st s
      → Extends s (handle_data s (frame st peer i)).0 (handle_data s (frame st peer i)).1
  handle_data-Extends s peer i h r =
      let counted = record s { tx_bytes = (s.tx_bytes + length (st.payload i)) % 2 ^ 64 } in
      let r' : Receiving st counted = record { expected_fits = r.expected_fits; held = r.held } in
      let acc = accept counted (frame st peer i) in
      let c = Continues-Extends counted acc.0 acc.1 (accept-Continues st counted peer i h r') in
      unfold handle_data in
      (
        rw (to_application-append acc.1 (send_ack acc.0))
            (unfold send_ack to_application in rw (append-nil (to_application acc.1)) c.0),
        c.1,
      )

  on_frame-Extends :
      (s peer : Session) (i : ℕ)
      → IsSendable peer
      → i < 2 ^ 16 - 1
      → Receiving st s
      → Extends s
          (on_frame s (frame_bytes (frame st peer i))).0
          (on_frame s (frame_bytes (frame st peer i))).1
  unfolding on_frame
  on_frame-Extends s peer i w h r =
      rw (read_tunnel-frame_bytes (frame st peer i) (frame-IsWireTunnel peer i w h), on_frame)
        (handle_data-Extends s peer i h r)

  Extends-join :
      (s : Session) (b : Bytes) (bs : List Bytes)
      → Extends s (on_frame s b).0 (on_frame s b).1
      → Extends
          (on_frame s b).0
          (receive_all (on_frame s b).0 bs).0
          (receive_all (on_frame s b).0 bs).1
      → Extends s (receive_all s (b ∷ bs)).0 (receive_all s (b ∷ bs)).1
  unfolding receive_all
  Extends-join s b bs first later =
      let rest = receive_all (on_frame s b).0 bs in
      (
        rw (to_application-append (on_frame s b).1 rest.1) (
            sym (append_assoc (prefix st s.expected_seq) _ _)
            ∙ ap (λ (l : List Event). l ++ to_application rest.1) first.0
            ∙ later.0),
        later.1,
      )

  receive_all-Extends :
      (is : List ℕ) (s peer : Session)
      → IsSendable peer
      → All (λ i. i < 2 ^ 16 - 1) is
      → Receiving st s
      → let bufs = map (λ i. frame_bytes (frame st peer i)) is in
        Extends s (receive_all s bufs).0 (receive_all s bufs).1
  unfolding receive_all to_application
  receive_all-Extends [] s peer w h r = (append-nil (prefix st s.expected_seq), r)
  receive_all-Extends (i ∷ is) s peer w h r =
      let b = frame_bytes (frame st peer i) in
      let first = on_frame-Extends s peer i w h.0 r in
      Extends-join s b (map (λ (i : ℕ). frame_bytes (frame st peer i)) is) first
        (receive_all-Extends is (on_frame s b).0 peer w h.1 first.1)

  -- A new session receives reliable frames of a stream, any choice of them with numbers below
  -- 2 ^ 16 - 1, in any order, with repetitions and gaps. The application then has seen the first
  -- `expected_seq` payloads of the stream, on their channels, in order, each once, and nothing else.
  pub received_in_order :
      (id : ℕ) (peer : Session) (is : List ℕ)
      → IsSendable peer
      → All (λ i. i < 2 ^ 16 - 1) is
      → let result = receive_all (new_session id) (map (λ i. frame_bytes (frame st peer i)) is) in
        to_application result.1 ≡ prefix st result.0.expected_seq
  unfolding new_session
  received_in_order id peer is w h =
      let r : Receiving st (new_session id) = record { expected_fits = omega arith; held = tt } in
      unfold prefix in (receive_all-Extends is (new_session id) peer w h r).0
