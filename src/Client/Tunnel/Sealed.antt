-- ===== src/Client/Tunnel/Sealed.antt =====
-- client/sdk/api/P2PClient.cpp: a frame that one client encrypts is what the other decrypts.
use p2p_server.Prelude.{
  ◌≤◌, ◌<◌, ◌≡◌, ◌≢◌, refl, sym, ap, ◌∙◌, false, some, Bytes, length, get_or, bit_and, is_empty,
  arith,
}
use p2p_server.Prelude.Wire.{be16_round, read_be16}
use p2p_server.ProtoDef.{tf_enc}
use p2p_server.Codec.{WireTunnel, tunnel_bytes}
use p2p_server.Codec.RoundTrip.{IsWireTunnel, length-tunnel_bytes}
use p2p_server.Client.{P2pClient, Env}
use p2p_server.Client.Tunnel.{
  derived_key, get_tunnel_key, encrypt_tunnel_frame, decrypt_tunnel_frame,
}
use p2p_server.Client.Tunnel.Key.{KeysDerived, get_tunnel_key-derived, derived_key_comm}
use p2p_server.Client.Tunnel.Parts.{
  flag_round, sealed_frame, length-sealed, seal-tunnel_bytes, unseal-tunnel_bytes,
}

-- What two clients have in common that exchange encrypted frames.
pub record Share (a b : P2pClient) : Type 0 where
  pub same_secret : a.secret ≡ b.secret
  pub has_secret : is_empty a.secret ≡ false
  pub named : is_empty a.cfg.uuid ≡ false
  pub peer_named : is_empty b.cfg.uuid ≡ false
  pub distinct : b.cfg.uuid ≢ a.cfg.uuid

length_at : (t : WireTunnel) → IsWireTunnel t → read_be16 (tunnel_bytes t) 12 ≡ length t.payload
unfolding tunnel_bytes
length_at t w = be16_round (length t.payload) w.len_fits

flags_at : (t : WireTunnel) → get_or (tunnel_bytes t) 7 0 ≡ t.flags
unfolding tunnel_bytes
flags_at t = refl

encrypted :
    (a : P2pClient) (env : Env) (peer key : Bytes) (t : WireTunnel)
    → IsWireTunnel t
    → (get_tunnel_key a peer).1 ≡ some key
    → length (env.nonce a.tunnel_enc_tx) ≡ 12
    → 0 < length t.payload
    → length t.payload ≤ 2006
    → (encrypt_tunnel_frame a env peer (tunnel_bytes t)).1
      ≡ some (tunnel_bytes (sealed_frame key (env.nonce a.tunnel_enc_tx) t))
unfolding encrypt_tunnel_frame
encrypted a env peer key t w k l p h = ground (
  arith,
  length_at t w,
  length-tunnel_bytes t,
  seal-tunnel_bytes key (env.nonce a.tunnel_enc_tx) t w l h,
)

decrypted :
    (b : P2pClient) (env : Env) (peer key nonce : Bytes) (t : WireTunnel)
    → IsWireTunnel t
    → (get_tunnel_key b peer).1 ≡ some key
    → length nonce ≡ 12
    → length t.payload ≤ 2006
    → t.flags < 256
    → bit_and t.flags 2 ≡ 0
    → (decrypt_tunnel_frame b env peer (tunnel_bytes (sealed_frame key nonce t))).1
      ≡ some (tunnel_bytes t)
unfolding decrypt_tunnel_frame
decrypted b env peer key nonce t w k l h f e =
    let u = sealed_frame key nonce t in
    let fits : IsWireTunnel u = record {
      session_fits = w.session_fits;
      seq_fits = w.seq_fits;
      ack_fits = w.ack_fits;
      len_fits = omega (arith, length-sealed key nonce t l);
    } in
    ground (
      arith,
      length_at u fits,
      flags_at u,
      length-sealed key nonce t l,
      length-tunnel_bytes u,
      (flag_round t.flags f e).1,
      unseal-tunnel_bytes key nonce env.beyond t w h l f e,
    )

-- Two clients with one secret and different names, which keep only derived keys: whatever frame
-- with 1 to 2006 bytes of payload, not marked as encrypted, one of them encrypts for the other, under any nonce of 12 bytes
-- and whatever lies behind it in the memory of the receiver, the other decrypts to the very frame.
pub decrypt-encrypt :
    (a b : P2pClient) (env env' : Env) (t : WireTunnel)
    → Share a b
    → KeysDerived a
    → KeysDerived b
    → IsWireTunnel t
    → t.flags < 256
    → bit_and t.flags tf_enc ≡ 0
    → 0 < length t.payload
    → length t.payload ≤ 2006
    → length (env.nonce a.tunnel_enc_tx) ≡ 12
    → (sealed : Bytes) × ((encrypt_tunnel_frame a env b.cfg.uuid (tunnel_bytes t)).1 ≡ some sealed)
      × ((decrypt_tunnel_frame b env' a.cfg.uuid sealed).1 ≡ some (tunnel_bytes t))
decrypt-encrypt a b env env' t sh da db w f e p h l =
    let key = derived_key a.secret a.cfg.uuid b.cfg.uuid in
    let nonce = env.nonce a.tunnel_enc_tx in
    let ka = get_tunnel_key-derived a b.cfg.uuid da sh.has_secret sh.peer_named sh.distinct in
    let kb =
      get_tunnel_key-derived b a.cfg.uuid db (ap is_empty (sym sh.same_secret) ∙ sh.has_secret)
        sh.named (λ q. sh.distinct (sym q)) in
    let same : derived_key b.secret b.cfg.uuid a.cfg.uuid ≡ key =
      derived_key_comm b.secret b.cfg.uuid a.cfg.uuid sh.distinct
      ∙ ap (λ (s : Bytes). derived_key s a.cfg.uuid b.cfg.uuid) (sym sh.same_secret) in
    (
      tunnel_bytes (sealed_frame key nonce t),
      encrypted a env b.cfg.uuid key t w ka l p h,
      decrypted b env' a.cfg.uuid key nonce t w (kb ∙ ap some same) l h f e,
    )
