-- ===== src/Session/Order/Buffer.antt =====
-- client/sdk/session/Session.h: `handle_data` keeps the receiver's order.
use p2p_server.Prelude.{
  ℕ, suc, ◌+◌, ◌-◌, ◌%◌, ◌^◌, ◌≤◌, ◌<◌, ◌==◌, ==_iff, ◌≡◌, ◌≢◌, refl, sym, ap, ◌∙◌, List, [], ◌∷◌,
  ◌++◌, some, Bytes, arith, Bool-cases, inl, inr,
}
use mathlib.Core.List.{append-nil, append_assoc}
use p2p_server.Prelude.Maps.{Map, find, insert, erase, nat_key, find-insert}
use p2p_server.Session.{Session, Event, deliveries, deliver, drain, accept, data_frame}
use p2p_server.Session.Order.{Stream, prefix, Held, Receiving, Held-erase, Held-slot, Held-insert}
use p2p_server.ProtoDef.{tf_reliable}
use p2p_server.Codec.{WireTunnel}

module _ (st : Stream) where
  -- From `s`, the events `ev` lead to `s'`: they continue the stream where it stood.
  abbrev pub Continues : Session → Session → List Event → Type 0
  Continues s s' ev = (prefix st s.expected_seq ++ ev ≡ prefix st s'.expected_seq) × Receiving st s'

  -- The session after the frame `k` in the loop of `drain`.
  abbrev drained : Session → ℕ → Bytes → Session
  drained s k v = record (deliver s (st.channel k) v) {
    slot_channel = erase k s.slot_channel;
    expected_seq = (s.expected_seq + 1) % 2 ^ 16;
  }

  prefix_next :
      (n k : ℕ) (v : Bytes) (ev : List Event)
      → k ≡ n
      → v ≡ st.payload k
      → prefix st n ++ (deliveries (st.channel k) v ++ ev) ≡ prefix st (suc k) ++ ev
  unfolding prefix
  prefix_next n k v ev e p = rw (← e, p) (sym (append_assoc (prefix st k) _ ev))

  drain_hit :
      (s : Session) (k : ℕ) (v : Bytes) (m : Map ℕ Bytes)
      → k ≡ s.expected_seq
      → find k s.slot_channel ≡ some (st.channel k)
      → drain s ((k, v) ∷ m)
        ≡ ((drain (drained s k v) m).0, deliveries (st.channel k) v ++ (drain (drained s k v) m).1)
  unfolding drain
  drain_hit s k v m e f = ground arith

  drain_miss :
      (s : Session) (k : ℕ) (v : Bytes) (m : Map ℕ Bytes)
      → k ≢ s.expected_seq
      → drain s ((k, v) ∷ m) ≡ (record s { ooo = (k, v) ∷ m }, [])
  unfolding drain
  drain_miss s k v m n = ground arith

  pub drain-Continues :
      (s : Session) (m : Map ℕ Bytes)
      → s.expected_seq < 2 ^ 16
      → Held st s.expected_seq s.slot_channel m
      → Continues s (drain s m).0 (drain s m).1
  drain-Continues s [] h held =
      unfold drain in (append-nil _, record { expected_fits = h; held = tt })
  drain-Continues s ((k, v) ∷ m) h held = elim (Bool-cases (k == s.expected_seq)) [
    | inl hit ↦
        let e = (==_iff k s.expected_seq).0 hit in
        let s1 = drained s k v in
        let next : s1.expected_seq ≡ suc k = unfold deliver in omega arith in
        let held' : Held st s1.expected_seq s1.slot_channel m =
          rw next
            (unfold deliver in Held-erase st (suc k) k s.slot_channel m (omega arith) held.4) in
        let rest = drain-Continues s1 m (omega arith) held' in
        rw (drain_hit s k v m e held.3) (
          prefix_next s.expected_seq k v (drain s1 m).1 e held.2
              ∙ ap (λ (n : ℕ). prefix st n ++ (drain s1 m).1) (sym next)
              ∙ rest.0,
          rest.1,
        )
    | inr miss ↦
        let n : k ≢ s.expected_seq = ground arith in
        rw (drain_miss s k v m n) (
          append-nil _,
          record { expected_fits = h; held = (omega arith, held.1, held.2, held.3, held.4) },
        )
  ]

  -- The frame with number `i` of the stream, as the sender of session `id` writes it.
  abbrev pub frame : Session → ℕ → WireTunnel
  frame s i = data_frame s (st.channel i) tf_reliable i (st.payload i)

  pub accept_hit :
      (s peer : Session) (i : ℕ)
      → i ≡ s.expected_seq
      → let s1 = record (deliver s (st.channel i) (st.payload i)) {
        expected_seq = (s.expected_seq + 1) % 2 ^ 16;
      } in
        accept s (frame peer i)
        ≡ ((drain s1 s.ooo).0, deliveries (st.channel i) (st.payload i) ++ (drain s1 s.ooo).1)
  unfolding accept
  accept_hit s peer i e = ground arith

  accept_miss :
      (s peer : Session) (i : ℕ)
      → i < 2 ^ 16 - 1
      → i ≢ s.expected_seq
      → Receiving st s
      → Continues s (accept s (frame peer i)).0 (accept s (frame peer i)).1
  unfolding accept
  accept_miss s peer i fits n r =
      let kept = append-nil (prefix st s.expected_seq) in
      let slots = insert i (st.channel i) s.slot_channel in
      let found = find-insert i i (st.channel i) s.slot_channel in
      let held = Held-slot st (suc s.expected_seq) i s.slot_channel s.ooo r.held in
      let grown = Held-insert st (suc s.expected_seq) i slots s.ooo in
      ground (arith, kept, found, held, grown)

  pub accept-Continues :
      (s peer : Session) (i : ℕ)
      → i < 2 ^ 16 - 1
      → Receiving st s
      → Continues s (accept s (frame peer i)).0 (accept s (frame peer i)).1
  accept-Continues s peer i fits r = elim (Bool-cases (i == s.expected_seq)) [
    | inl hit ↦
        let e = (==_iff i s.expected_seq).0 hit in
        let s1 = record (deliver s (st.channel i) (st.payload i)) {
          expected_seq = (s.expected_seq + 1) % 2 ^ 16;
        } in
        let next : s1.expected_seq ≡ suc i = unfold deliver in omega arith in
        let held' : Held st s1.expected_seq s1.slot_channel s.ooo =
          rw next (unfold deliver in rw e r.held) in
        let rest = drain-Continues s1 s.ooo (omega arith) held' in
        rw (accept_hit s peer i e) (
          prefix_next s.expected_seq i (st.payload i) (drain s1 s.ooo).1 e refl
              ∙ ap (λ (n : ℕ). prefix st n ++ (drain s1 s.ooo).1) (sym next)
              ∙ rest.0,
          rest.1,
        )
    | inr miss ↦ accept_miss s peer i fits (ground arith) r
  ]

  drain_grows :
      (s : Session) (m : Map ℕ Bytes)
      → s.expected_seq < 2 ^ 16
      → Held st s.expected_seq s.slot_channel m
      → s.expected_seq ≤ (drain s m).0.expected_seq
  unfolding drain deliver
  drain_grows s [] h held = omega arith
  drain_grows s ((k, v) ∷ m) h held = ground (
    arith,
    drain_grows (drained s k v) m,
    held.3,
    Held-erase st (suc k) k s.slot_channel m (omega arith) held.4,
  )

  -- A receiver of a stream that waits for a number below 2 ^ 16 - 1 has a greater `expected_seq` once
  -- it accepts the frame of that number, whatever frames it holds back.
  pub accept_expected :
      (s peer : Session)
      → s.expected_seq < 2 ^ 16 - 1
      → Receiving st s
      → s.expected_seq < (accept s (frame peer s.expected_seq)).0.expected_seq
  unfolding deliver
  accept_expected s peer h r =
      let i = s.expected_seq in
      let s1 = record (deliver s (st.channel i) (st.payload i)) {
        expected_seq = (s.expected_seq + 1) % 2 ^ 16;
      } in
      let next : s1.expected_seq ≡ suc i = omega arith in
      let held : Held st s1.expected_seq s1.slot_channel s.ooo = rw next r.held in
      rw (accept_hit s peer i refl) (omega (arith, drain_grows s1 s.ooo (omega arith) held))
