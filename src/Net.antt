-- ===== src/Net.antt =====
-- Datagrams: `NatServer::send_msg` and `P2PProxy::send`, and the checks at the head of both packet
-- handlers. The socket is taken to be open and `sendto` to accept the datagram.
pub mod Laws
use p2p_server.Prelude.{
  ℕ, ◌+◌, ◌-◌, ◌==◌, ltb, if◌then◌else◌, not, ◌||◌, List, [], ◌∷◌, ◌++◌, Option, none, some, Bytes,
  length, get_or, drop, take,
}
use p2p_server.Prelude.Wire.{read_be16, read_be32}
use p2p_server.ProtoDef.{max_pkt, nat_magic, proto_ver}
use p2p_server.Util.{Sockaddr}
use p2p_server.Codec.{codec_write_head}

pub record Datagram : Type 0 where
  pub to : Sockaddr
  pub msg_id : ℕ
  pub payload : Bytes

abbrev pub size_of_msg_head : ℕ
size_of_msg_head = 8

-- What is sent: nothing if the payload does not fit the buffer.
unfoldable pub send_msg : Sockaddr → ℕ → Bytes → List Datagram
send_msg to msg_id payload =
    if ltb (max_pkt - size_of_msg_head) (length payload)
    then []
    else record { to = to; msg_id = msg_id; payload = payload } ∷ []

unfoldable pub datagram_bytes : Datagram → Bytes
datagram_bytes d = codec_write_head d.msg_id (length d.payload) ++ d.payload

-- The message id and the payload, if the head is sound.
unfoldable pub open_packet : Bytes → Option (ℕ × Bytes)
open_packet input =
    let len = read_be32 input 4 in
    if ltb (length input) size_of_msg_head
      || not (read_be16 input 0 == nat_magic)
      || not (get_or input 2 0 == proto_ver)
      || ltb (length input - size_of_msg_head) len
    then none
    else some (get_or input 3 0, take len (drop size_of_msg_head input))
