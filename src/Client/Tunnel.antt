-- ===== src/Client/Tunnel.antt =====
-- client/sdk/api/P2PClient.cpp: the key that two peers share and the encryption of tunnel frames.
pub mod Key
pub mod Parts
pub mod Sealed
use p2p_server.Prelude.{
  ℕ, ◌+◌, ◌-◌, ◌/◌, ◌%◌, ◌^◌, bit_and, bit_or, ◌==◌, ltb, if◌then◌else◌, Bool, not, ◌||◌, [], ◌∷◌,
  ◌++◌, Option, none, some, Bytes, bytes_eq, bytes_lt, length, is_empty, get_or, take, codes,
}
use p2p_server.Prelude.Maps.{find, put, bytes_key}
use p2p_server.Prelude.Wire.{be16, read_be16, slice}
use p2p_server.ProtoDef.{max_pkt, tf_enc, tunnel_key_prefix}
use p2p_server.Crypto.Hmac.{hmac_sha256}
use p2p_server.Crypto.Aead.{p2p_aead_encrypt, p2p_aead_decrypt}
use p2p_server.Client.{P2pClient, Env}

-- The key of the pair, from the uuids in lexicographic order.
unfoldable pub derived_key : Bytes → Bytes → Bytes → Bytes
derived_key secret own peer =
    let first = bytes_lt own peer in
    hmac_sha256 secret (
      tunnel_key_prefix
      ++ (if first then own else peer)
      ++ codes ":"
      ++ (if first then peer else own))

-- The key of a peer, kept from its first use on; none for an empty secret or peer and for itself.
unfoldable pub get_tunnel_key : P2pClient → Bytes → P2pClient × Option Bytes
get_tunnel_key s peer =
    if is_empty s.secret || is_empty peer || bytes_eq peer s.cfg.uuid
    then (s, none)
    else elim (find peer s.tunnel_keys) [
      | some key ↦ (s, some key)
      | none ↦
          let key = derived_key s.secret s.cfg.uuid peer in
          (record s { tunnel_keys = put peer key s.tunnel_keys }, some key)
    ]

-- The head of a frame with other flags and another length of the payload.
abbrev pub head_with : Bytes → ℕ → ℕ → Bytes
head_with frame flags len = take 7 frame ++ flags ∷ slice frame 8 4 ++ be16 len

-- The encrypted frame: head, nonce, ciphertext, tag.
unfoldable pub seal : Bytes → Bytes → Bytes → Option Bytes
seal key nonce frame =
    let plen = read_be16 frame 12 in
    elim (p2p_aead_encrypt key nonce (slice frame 14 plen) plen) [
      | none ↦ none
      | some (cipher, tag) ↦ some (
          head_with frame (bit_or (get_or frame 7 0) tf_enc) ((12 + length cipher + 16) % 2 ^ 16)
          ++ (nonce ++ (cipher ++ tag)))
    ]

unfoldable pub encrypt_tunnel_frame : P2pClient → Env → Bytes → Bytes → P2pClient × Option Bytes
encrypt_tunnel_frame s env peer frame =
    let plen = read_be16 frame 12 in
    let (s', key) = get_tunnel_key s peer in
    if ltb (length frame) 14 || plen == 0 || ltb max_pkt (14 + 12 + plen + 16)
    then (s, none)
    else elim key [
      | none ↦ (s', none)
      | some key ↦ elim (seal key (env.nonce s.tunnel_enc_tx) frame) [
        | none ↦ (s', none)
        | some sealed ↦ (record s' { tunnel_enc_tx = (s.tunnel_enc_tx + 1) % 2 ^ 64 }, some sealed)
      ]
    ]

-- The frame in the clear. `memory` is the frame and what lies behind it: the length in the head is
-- not compared with the length received.
unfoldable pub unseal : Bytes → Bytes → Option Bytes
unseal key memory =
    let cipher_len = read_be16 memory 12 - 28 in
    elim (p2p_aead_decrypt key (slice memory 14 12) (slice memory 26 cipher_len) cipher_len
      (slice memory (26 + cipher_len) 16)) [
        | none ↦ none
        | some plain ↦
            some
              (head_with memory (bit_and (get_or memory 7 0) 253) (length plain % 2 ^ 16) ++ plain)
      ]

unfoldable pub decrypt_tunnel_frame : P2pClient → Env → Bytes → Bytes → P2pClient × Option Bytes
decrypt_tunnel_frame s env peer frame =
    let plen = read_be16 frame 12 in
    let (s', key) = get_tunnel_key s peer in
    if ltb (length frame) 14
      || bit_and (get_or frame 7 0) tf_enc == 0
      || ltb plen 28
      || ltb max_pkt (14 + plen - 12 - 16)
    then (s, none)
    else elim key [
      | none ↦ (s', none)
      | some key ↦ elim (unseal key (frame ++ env.beyond)) [
        | none ↦ (s', none)
        | some plain ↦ (record s' { tunnel_enc_rx = (s.tunnel_enc_rx + 1) % 2 ^ 64 }, some plain)
      ]
    ]
