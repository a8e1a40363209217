-- ===== src/Session/Window.antt =====
-- client/sdk/session/Session.h: the sending side. The window, its sequence numbers, and what an
-- acknowledgement removes.
use p2p_server.Prelude.{
  ℕ, suc, ◌+◌, ◌%◌, ◌^◌, ◌≤◌, ◌<◌, if◌then◌else◌, ◌≡◌, refl, Bool, true, false, List, [], ◌∷◌, ◌++◌,
  Bytes, length, length-append, arith,
}
use p2p_server.Prelude.Maps.{Map, erase, nat_key}
use p2p_server.Session.{
  Session, Msg, window, reliable_msg, send, drain, deliver, acked, drop_acked, handle_ack, resend,
  tick,
}

-- The sequence numbers count on from `k`, modulo 2 ^ 16, and `next` comes after the last.
abbrev pub Consecutive : ℕ → List Msg → ℕ → Type 0
Consecutive k [] next = k ≡ next
Consecutive k (m ∷ ms) next = (m.seq ≡ k) × Consecutive ((k + 1) % 2 ^ 16) ms next

pub record IsSession (s : Session) : Type 0 where
  pub oldest : ℕ
  pub in_order : Consecutive oldest s.pending s.next_seq
  pub oldest_fits : oldest < 2 ^ 16
  pub within : length s.pending ≤ window

Consecutive-push :
    (k next : ℕ) (ms : List Msg) (m : Msg)
    → m.seq ≡ next
    → Consecutive k ms next
    → Consecutive k (ms ++ (m ∷ [])) ((next + 1) % 2 ^ 16)
Consecutive-push k next [] m e c = ground arith
Consecutive-push k next (x ∷ ms) m e c = (c.0, Consecutive-push ((k + 1) % 2 ^ 16) next ms m e c.1)

pub send-IsSession :
    (s : Session) (channel : ℕ) (payload : Bytes) (reliable : Bool) (now : ℕ)
    → IsSession s
    → IsSession (send s channel payload reliable now).0
unfolding send
send-IsSession s channel payload reliable now v = ground (
  arith,
  Consecutive-push v.oldest s.next_seq s.pending (reliable_msg s channel payload now),
  length-append s.pending (reliable_msg s channel payload now ∷ []),
)

-- What is left of consecutive messages is consecutive.
record Rest (next : ℕ) (ms : List Msg) (bound : ℕ) : Type 0 where
  first : ℕ
  first_fits : first < 2 ^ 16
  in_order : Consecutive first ms next
  shorter : length ms ≤ bound

drop_acked-Rest :
    (ack k next : ℕ) (ms : List Msg)
    → k < 2 ^ 16
    → Consecutive k ms next
    → Rest next (drop_acked ack ms) (length ms)
unfolding drop_acked
drop_acked-Rest ack k next [] h c = record {
  first = k;
  first_fits = h;
  in_order = c;
  shorter = omega arith;
}
drop_acked-Rest ack k next (m ∷ ms) h c =
    let rest = drop_acked-Rest ack ((k + 1) % 2 ^ 16) next ms (omega arith) c.1 in
    elim (acked m.seq ack)
      as (λ b. Rest next (if b then drop_acked ack ms else m ∷ ms) (suc (length ms))) [
        | true ↦ record {
          first = rest.first;
          first_fits = rest.first_fits;
          in_order = rest.in_order;
          shorter = omega (arith, rest.shorter);
        }
        | false ↦ record { first = k; first_fits = h; in_order = c; shorter = omega arith }
      ]

pub handle_ack-IsSession : (s : Session) (ack : ℕ) → IsSession s → IsSession (handle_ack s ack)
unfolding handle_ack
handle_ack-IsSession s ack v =
    let rest = drop_acked-Rest ack v.oldest s.next_seq s.pending v.oldest_fits v.in_order in
    record {
      oldest = rest.first;
      in_order = rest.in_order;
      oldest_fits = rest.first_fits;
      within = omega (arith, rest.shorter, v.within);
    }

resend-Consecutive :
    (rto now k next : ℕ) (ms : List Msg)
    → Consecutive k ms next
    → Consecutive k (resend rto now ms).0 next
unfolding resend
resend-Consecutive rto now k next [] c = c
resend-Consecutive rto now k next (m ∷ ms) c =
    ground (arith, resend-Consecutive rto now ((k + 1) % 2 ^ 16) next ms)

length-resend : (rto now : ℕ) (ms : List Msg) → length (resend rto now ms).0 ≡ length ms
unfolding resend
length-resend rto now [] = refl
length-resend rto now (m ∷ ms) = ground (arith, length-resend rto now ms)

pub tick-IsSession : (s : Session) (now : ℕ) → IsSession s → IsSession (tick s now).0
unfolding tick
tick-IsSession s now v = record {
  oldest = v.oldest;
  in_order = resend-Consecutive s.rto_ms now v.oldest s.next_seq s.pending v.in_order;
  oldest_fits = v.oldest_fits;
  within = omega (arith, length-resend s.rto_ms now s.pending, v.within);
}

-- Receiving data touches neither the window nor the next number.
abbrev pub SameWindow : Session → Session → Type 0
SameWindow s t = (t.pending ≡ s.pending) × (t.next_seq ≡ s.next_seq)

pub drain-SameWindow : (s : Session) (m : Map ℕ Bytes) → SameWindow s (drain s m).0
unfolding drain deliver
drain-SameWindow s [] = (refl, refl)
drain-SameWindow s ((seq, payload) ∷ m) = ground (
  arith,
  drain-SameWindow
      (record s {
        rx_bytes = (s.rx_bytes + length payload) % 2 ^ 64;
        slot_channel = erase seq s.slot_channel;
        expected_seq = (s.expected_seq + 1) % 2 ^ 16;
      })
      m,
)
