-- ===== src/Codec.antt =====
-- client/sdk/proto/Codec.h: the 8-byte message head and the 14-byte tunnel head.
pub mod RoundTrip
use p2p_server.Prelude.{
  ℕ, ◌+◌, ◌*◌, ◌/◌, ◌%◌, ◌==◌, ltb, if◌then◌else◌, Bool, not, ◌&&◌, ◌||◌, List, [], ◌∷◌, ◌++◌,
  Option, none, some, Bytes, length, get_or,
}
use p2p_server.Prelude.Wire.{be16, be32, read_be16, read_be32, slice}
use p2p_server.ProtoDef.{nat_magic, proto_ver, tunnel_magic, tunnel_ver}

pub record WireHead : Type 0 where
  pub magic : ℕ
  pub version : ℕ
  pub msg_id : ℕ
  pub length : ℕ

unfoldable pub codec_write_head : ℕ → ℕ → Bytes
codec_write_head msg_id payload_len =
    nat_magic / 256 ∷ nat_magic % 256 ∷ proto_ver ∷ msg_id ∷ be32 payload_len

-- `none` is the result false.
unfoldable pub codec_read_head : Bytes → Option WireHead
codec_read_head buf =
    let h : WireHead = record {
      magic = read_be16 buf 0;
      version = get_or buf 2 0;
      msg_id = get_or buf 3 0;
      length = read_be32 buf 4;
    } in
    if ltb (length buf) 8 || not (h.magic == nat_magic) || not (h.version == proto_ver)
    then none
    else some h

-- `payload` is the `len` bytes at the pointer of the source, none if that is null.
pub record WireTunnel : Type 0 where
  pub type : ℕ
  pub session_id : ℕ
  pub channel_id : ℕ
  pub flags : ℕ
  pub seq : ℕ
  pub ack : ℕ
  pub payload : Bytes

unfoldable pub tunnel_bytes : WireTunnel → Bytes
tunnel_bytes t =
    tunnel_magic / 256 ∷ tunnel_magic % 256 ∷ tunnel_ver ∷ t.type ∷ be16 t.session_id
    ++ t.channel_id ∷ t.flags ∷ be16 t.seq
    ++ be16 t.ack
    ++ be16 (length t.payload)
    ++ t.payload

-- The bytes written from `buf` on, 14 + len of them, or `none` for -1. The test is the source's,
-- which counts 8 bytes of head.
unfoldable pub codec_write_tunnel : ℕ → WireTunnel → Option Bytes
codec_write_tunnel room t = if ltb room (8 + length t.payload) then none else some (tunnel_bytes t)

unfoldable pub codec_read_tunnel : Bytes → Option WireTunnel
codec_read_tunnel buf =
    let len = read_be16 buf 12 in
    if ltb (length buf) 14
      || not (get_or buf 0 0 == tunnel_magic / 256)
      || not (get_or buf 1 0 == tunnel_magic % 256)
      || not (get_or buf 2 0 == tunnel_ver)
      || ltb (length buf) (14 + len)
    then none
    else some (record {
      type = get_or buf 3 0;
      session_id = read_be16 buf 4;
      channel_id = get_or buf 6 0;
      flags = get_or buf 7 0;
      seq = read_be16 buf 8;
      ack = read_be16 buf 10;
      payload = slice buf 14 len;
    })
