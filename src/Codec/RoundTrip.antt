-- ===== src/Codec/RoundTrip.antt =====
-- client/sdk/proto/Codec.h: what is written is read back.
use p2p_server.Prelude.{
  ℕ, ◌+◌, ◌^◌, ◌≤◌, ◌<◌, ◌≡◌, ◌++◌, some, Bytes, length, length-append, take-append, arith,
}
use p2p_server.Prelude.Wire.{be16_round, be32_round}
use p2p_server.ProtoDef.{nat_magic, proto_ver}
use p2p_server.Codec.{
  codec_write_head, codec_read_head, WireTunnel, tunnel_bytes, codec_write_tunnel,
  codec_read_tunnel,
}

-- A head that `codec_write_head` wrote is read back with the same message id and length, whatever
-- bytes follow it.
pub read_head-write_head :
    (msg_id len : ℕ) (rest : Bytes)
    → len < 2 ^ 32
    → codec_read_head (codec_write_head msg_id len ++ rest)
      ≡ some (record { magic = nat_magic; version = proto_ver; msg_id = msg_id; length = len })
unfolding codec_read_head codec_write_head
read_head-write_head msg_id len rest h = ground (arith, be32_round len h)

-- The fields of a frame fit their places.
pub record IsWireTunnel (t : WireTunnel) : Type 0 where
  pub session_fits : t.session_id < 2 ^ 16
  pub seq_fits : t.seq < 2 ^ 16
  pub ack_fits : t.ack < 2 ^ 16
  pub len_fits : length t.payload < 2 ^ 16

pub read_tunnel-tunnel_bytes :
    (t : WireTunnel) (rest : Bytes)
    → IsWireTunnel t
    → codec_read_tunnel (tunnel_bytes t ++ rest) ≡ some t
unfolding codec_read_tunnel tunnel_bytes
read_tunnel-tunnel_bytes t rest w = ground (
  arith,
  be16_round t.session_id w.session_fits,
  be16_round t.seq w.seq_fits,
  be16_round t.ack w.ack_fits,
  be16_round (length t.payload) w.len_fits,
  length-append t.payload rest,
  take-append t.payload rest (length t.payload),
)

pub length-tunnel_bytes : (t : WireTunnel) → length (tunnel_bytes t) ≡ 14 + length t.payload
unfolding tunnel_bytes
length-tunnel_bytes t = omega arith

-- Whenever `codec_write_tunnel` succeeds, `codec_read_tunnel` returns the same frame from what was
-- written, also with bytes behind it.
pub read_tunnel-write_tunnel :
    (room : ℕ) (t : WireTunnel) (written rest : Bytes)
    → IsWireTunnel t
    → codec_write_tunnel room t ≡ some written
    → codec_read_tunnel (written ++ rest) ≡ some t
unfolding codec_write_tunnel
read_tunnel-write_tunnel room t written rest w e = ground (arith, read_tunnel-tunnel_bytes t rest w)

-- `codec_write_tunnel` answers -1 exactly when fewer than 8 + len bytes fit; so for 8 + len up to
-- 13 + len bytes of room it succeeds and writes past the end of the buffer.
pub write_tunnel_overrun :
    (room : ℕ) (t : WireTunnel)
    → 8 + length t.payload ≤ room
    → room < 14 + length t.payload
    → (written : Bytes) × (codec_write_tunnel room t ≡ some written) × (room < length written)
unfolding codec_write_tunnel
write_tunnel_overrun room t lo hi =
    (tunnel_bytes t, ground arith, omega (arith, length-tunnel_bytes t))
