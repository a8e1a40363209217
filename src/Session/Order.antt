-- ===== src/Session/Order.antt =====
-- client/sdk/session/Session.h: the receiving side. Whatever order reliable frames arrive in, lost,
-- repeated or late, the application gets the sender's stream from its start, in order and once.
pub mod Buffer
pub mod Delivery
use p2p_server.Prelude.{
  ℕ, zero, suc, ◌+◌, ◌-◌, ◌%◌, ◌^◌, ◌≤◌, ◌<◌, ◌==◌, ltb, if◌then◌else◌, ◌≡◌, refl, sym, ap, ◌∙◌,
  List, [], ◌∷◌, ◌++◌, Option, none, some, Bytes, length, arith,
}
use mathlib.Core.List.{append-nil, append_assoc}
use p2p_server.Prelude.Maps.{Map, find, insert, erase, nat_key, find-erase, find-insert}
use p2p_server.Session.{
  Session, Event, delivered, deliveries, deliver, drain, accept, handle_data, new_session,
}
use p2p_server.Codec.{WireTunnel}

-- What a sender sends: the channel and the payload of each sequence number.
pub record Stream : Type 0 where
  pub channel : ℕ → ℕ
  pub payload : ℕ → Bytes

module _ (st : Stream) where
  -- The events for the first `n` frames.
  unfoldable pub prefix : ℕ → List Event
  prefix zero = []
  prefix (suc n) = prefix n ++ deliveries (st.channel n) (st.payload n)

  -- The buffered frames: rising numbers from `lo` on, below the wrap, with the sender's contents.
  abbrev pub Held : ℕ → Map ℕ ℕ → Map ℕ Bytes → Type 0
  Held lo slots [] = Unit {0}
  Held lo slots ((k, v) ∷ m) =
      (lo ≤ k)
      × (k < 2 ^ 16 - 1)
      × (v ≡ st.payload k)
      × (find k slots ≡ some (st.channel k))
      × Held (suc k) slots m

  -- A receiver between two frames: the next number is missing, so all that is held lies behind it.
  pub record Receiving (s : Session) : Type 0 where
    pub expected_fits : s.expected_seq < 2 ^ 16
    pub held : Held (suc s.expected_seq) s.slot_channel s.ooo

  pub Held-weaken :
      (lo lo' : ℕ) (slots : Map ℕ ℕ) (m : Map ℕ Bytes)
      → lo' ≤ lo
      → Held lo slots m
      → Held lo' slots m
  Held-weaken lo lo' slots [] h held = tt
  Held-weaken lo lo' slots ((k, v) ∷ m) h held = (omega arith, held.1, held.2, held.3, held.4)

  -- Forgetting the channel of a number below `lo` changes nothing.
  pub Held-erase :
      (lo j : ℕ) (slots : Map ℕ ℕ) (m : Map ℕ Bytes)
      → j < lo
      → Held lo slots m
      → Held lo (erase j slots) m
  Held-erase lo j slots [] h held = tt
  Held-erase lo j slots ((k, v) ∷ m) h held = (
    held.0,
    held.1,
    held.2,
    ground (arith, find-erase j k slots),
    Held-erase (suc k) j slots m (omega arith) held.4,
  )

  -- Setting the channel of a number to the sender's keeps the others.
  pub Held-slot :
      (lo j : ℕ) (slots : Map ℕ ℕ) (m : Map ℕ Bytes)
      → Held lo slots m
      → Held lo (insert j (st.channel j) slots) m
  Held-slot lo j slots [] held = tt
  Held-slot lo j slots ((k, v) ∷ m) held = (
    held.0,
    held.1,
    held.2,
    ground (arith, find-insert j k (st.channel j) slots),
    Held-slot (suc k) j slots m held.4,
  )

  -- Buffering one more frame, in its place.
  pub Held-insert :
      (lo j : ℕ) (slots : Map ℕ ℕ) (m : Map ℕ Bytes)
      → lo ≤ j
      → j < 2 ^ 16 - 1
      → find j slots ≡ some (st.channel j)
      → Held lo slots m
      → Held lo slots (insert j (st.payload j) m)
  unfolding insert
  Held-insert lo j slots [] h fits e held = (h, fits, refl, e, tt)
  Held-insert lo j slots ((k, v) ∷ m) h fits e held =
      ground (arith, Held-insert (suc k) j slots m, Held-weaken (suc k) (suc j) slots m)
