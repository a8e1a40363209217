-- ===== src/Session/Ack.antt =====
-- client/sdk/session/Session.h: what a cumulative acknowledgement removes from the window.
use p2p_server.Prelude.{
  ℕ, zero, suc, ◌+◌, ◌%◌, ◌^◌, ◌≤◌, ◌<◌, ◌≡◌, refl, List, [], ◌∷◌, length, drop, arith,
}
use p2p_server.Session.{Session, Msg, window, acked, drop_acked, handle_ack}
use p2p_server.Session.Window.{IsSession, Consecutive}

-- The number just behind the acknowledged one stays.
keep_next :
    (ack k next : ℕ) (ms : List Msg)
    → k ≡ (ack + 1) % 2 ^ 16
    → ack < 2 ^ 16
    → Consecutive k ms next
    → drop_acked ack ms ≡ ms
unfolding drop_acked acked
keep_next ack k next [] h fits c = refl
keep_next ack k next (m ∷ ms) h fits c = ground arith

-- `j` messages lie before the acknowledged one.
drop_through :
    (j k next : ℕ) (ms : List Msg)
    → k < 2 ^ 16
    → j < length ms
    → length ms ≤ window
    → Consecutive k ms next
    → drop_acked ((k + j) % 2 ^ 16) ms ≡ drop (suc j) ms
unfolding drop_acked acked
drop_through j k next [] hk hj hl c = absurd (omega arith)
drop_through zero k next (m ∷ ms) hk hj hl c =
    ground (arith, keep_next ((k + 0) % 2 ^ 16) ((k + 1) % 2 ^ 16) next ms)
drop_through (suc j) k next (m ∷ ms) hk hj hl c =
    let e : (k + suc j) % 2 ^ 16 ≡ ((k + 1) % 2 ^ 16 + j) % 2 ^ 16 = omega arith in
    let rest =
      drop_through j ((k + 1) % 2 ^ 16) next ms (omega arith) (omega arith) (omega arith) c.1 in
    ground arith

-- An acknowledgement of the j-th waiting frame (counted from 0, its number modulo 2 ^ 16 wrapping or
-- not) removes exactly that frame and those before it, and keeps the others in order.
pub handle_ack_cumulative :
    (s : Session) (v : IsSession s) (j : ℕ)
    → j < length s.pending
    → (handle_ack s ((v.oldest + j) % 2 ^ 16)).pending ≡ drop (suc j) s.pending
unfolding handle_ack
handle_ack_cumulative s v j h =
    drop_through j v.oldest s.next_seq s.pending v.oldest_fits h v.within v.in_order
