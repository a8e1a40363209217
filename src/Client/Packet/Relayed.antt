-- ===== src/Client/Packet/Relayed.antt =====
-- client/sdk/api/P2PClient.cpp with server/proxyserver/src/P2PProxy.cpp: two clients and the relay
-- between them.
use p2p_server.Prelude.{
  ℕ, ap, Bool-cases, inl, inr, ◌+◌, ◌^◌, ◌≤◌, ◌<◌, ◌≡◌, refl, ◌∙◌, ltb, true, false, [], ◌∷◌, ◌++◌,
  none, some, List, Bytes, length, length-append, is_empty, drop-append, arith, bytes_eq_refl,
}
use mathlib.Core.List.{append_assoc}
use p2p_server.Prelude.Maps.{find, bytes_key}
use p2p_server.Prelude.Wire.{padded, length-padded}
use p2p_server.ProtoDef.{msg_proxy_register_req, msg_proxy_register_rsp, msg_proxy_relay_data}
use p2p_server.ProtoDef.Requests.{ProxyRegReq, size_of_relay_frame, RelayFrame, read_relay_frame}
use p2p_server.ProtoDef.Replies.{uuid_field, proxy_reg_rsp_bytes}
use p2p_server.ProtoDef.Client.{proxy_reg_req_bytes, relay_frame_bytes}
use p2p_server.ProtoDef.Fields.{
  IsUuid, length-uuid_field, read_proxy_reg_req-bytes, read_relay_frame-bytes,
}
use p2p_server.ProtoDef.Terminated.{set-relay_frame_bytes}
use p2p_server.Util.{Sockaddr}
use p2p_server.Codec.{codec_write_head}
use p2p_server.Net.{Datagram, send_msg, datagram_bytes, open_packet}
use p2p_server.Net.Laws.{open_datagram, send_msg-fits}
use p2p_server.Crypto.Hmac.{hmac_sha256}
use p2p_server.Crypto.Aead.RoundTrip.{length-hmac_sha256}
use p2p_server.Proxy.{
  Proxy, UuidEntry, proxy_auth_key, enter, is_full, is_authentic, do_register, register_rsp,
  granted, relay, terminated, dispatch, handle,
}
use p2p_server.Proxy.Register.{find-enter}
use p2p_server.Client.Connect.Target.{conn_at-set_conn}
use p2p_server.Client.{
  Outcome, P2pClient, ServerAddr, Conn, Env, Output, send_to, ◌▷◌, conn_at, set_conn, sockaddr_from,
}
use p2p_server.Client.Path.{to_proxy, send_proto, relay_register, send_relayed, on_tunnel_frame}
use p2p_server.Client.Packet.{named, relay_heard, on_register_rsp, on_relay_data, handle_proto}

length-proxy_reg_req_bytes : (r : ProxyRegReq) → length (proxy_reg_req_bytes r) ≡ 65
unfolding proxy_reg_req_bytes
length-proxy_reg_req_bytes r = omega (
  arith,
  length-append (uuid_field r.uuid) (padded 32 r.hmac),
  length-uuid_field r.uuid,
  length-padded 32 r.hmac,
)

length-relay_frame_bytes : (r : RelayFrame) → length (relay_frame_bytes r) ≡ 66
unfolding relay_frame_bytes
length-relay_frame_bytes r = omega (
  arith,
  length-append (uuid_field r.src_uuid) (uuid_field r.dst_uuid),
  length-uuid_field r.src_uuid,
  length-uuid_field r.dst_uuid,
)

open_head :
    (msg_id : ℕ) (p : Bytes)
    → length p < 2 ^ 32
    → open_packet (codec_write_head msg_id (length p) ++ p) ≡ some (msg_id, p)
unfolding datagram_bytes
open_head msg_id p h =
    open_datagram (record { to = record { addr = 0; port = 0 }; msg_id = msg_id; payload = p }) h

to_first :
    (a : ServerAddr) (rest : List ServerAddr) (send : Sockaddr → List Output) (to : Sockaddr)
    → sockaddr_from a ≡ some to
    → to_proxy (a ∷ rest) send ≡ send to
unfolding to_proxy
to_first a rest send to at = rw (at, to_proxy) refl

handled :
    (s : Proxy) (input : Bytes) (msg_id : ℕ) (p : Bytes) (from : Sockaddr) (now : ℕ)
    → open_packet input ≡ some (msg_id, p)
    → handle s input from now ≡ dispatch s msg_id p from now
unfolding handle
handled s input msg_id p from now opened = rw (opened, handle) refl

abbrev registration : Bytes → ProxyRegReq
registration uuid = record { uuid = uuid; hmac = hmac_sha256 proxy_auth_key uuid }

admitted :
    (s : Proxy) (uuid : Bytes) (from : Sockaddr) (now : ℕ)
    → IsUuid uuid
    → is_full s uuid ≡ false
    → do_register s uuid from true (some (hmac_sha256 proxy_auth_key uuid)) now ≡ (
      enter s uuid from now,
      send_msg from msg_proxy_register_rsp (proxy_reg_rsp_bytes (granted from)),
    )
unfolding do_register is_authentic register_rsp
admitted s [] from now v room = absurd (omega (arith, v.named))
admitted s (b ∷ u) from now v room =
    rw (bytes_eq_refl (hmac_sha256 proxy_auth_key (b ∷ u)), room) refl

-- The registration that a client sends to its first proxy is admitted there while the table has room
-- or holds the uuid: the uuid is entered and then found there with the sender's address and the time,
-- and on the answer the client counts itself registered.
pub relay_register-admitted :
    (c : P2pClient) (s : Proxy) (env : Env) (a : ServerAddr) (rest : List ServerAddr)
    (to from : Sockaddr) (now : ℕ)
    → c.proxies ≡ a ∷ rest
    → sockaddr_from a ≡ some to
    → IsUuid c.cfg.uuid
    → is_full s c.cfg.uuid ≡ false
    → let payload =
        proxy_reg_req_bytes
          (record { uuid = c.cfg.uuid; hmac = hmac_sha256 proxy_auth_key c.cfg.uuid }) in
      let bytes = codec_write_head msg_proxy_register_req (length payload) ++ payload in
      let answer = proxy_reg_rsp_bytes (granted from) in
      (relay_register c ≡ send_to none to bytes ∷ [])
      × (handle s bytes from now
          ≡ (enter s c.cfg.uuid from now, send_msg from msg_proxy_register_rsp answer))
      × (find c.cfg.uuid (handle s bytes from now).0.uuid2addr
          ≡ some (record { addr = from; last_reg = now }))
      × ((handle_proto c env msg_proxy_register_rsp answer).0.relay_registered ≡ true)
unfolding relay_register to_proxy send_proto handle dispatch handle_proto on_register_rsp
    proxy_reg_rsp_bytes
relay_register-admitted c s env a rest to from now some_proxy at v room =
    let r = registration c.cfg.uuid in
    let payload = proxy_reg_req_bytes r in
    let size = length-proxy_reg_req_bytes r in
    let opened = open_head msg_proxy_register_req payload (omega (arith, size)) in
    let bytes = codec_write_head msg_proxy_register_req (length payload) ++ payload in
    let entered : handle s bytes from now ≡ (
      enter s c.cfg.uuid from now,
      send_msg from msg_proxy_register_rsp (proxy_reg_rsp_bytes (granted from)),
    ) =
      handled s _ msg_proxy_register_req payload from now opened
      ∙ rw (size, read_proxy_reg_req-bytes r v (length-hmac_sha256 proxy_auth_key c.cfg.uuid))
          (admitted s c.cfg.uuid from now v room) in
    (
      rw (some_proxy)
          (to_first a rest (send_proto msg_proxy_register_req payload) to at ∙ rw (size) refl),
      entered,
      ap (λ (x : Proxy × List Datagram). find c.cfg.uuid x.0.uuid2addr) entered
          ∙ (find-enter s c.cfg.uuid from now).0,
      ground arith,
    )

not_empty : (u : Bytes) → 0 < length u → is_empty u ≡ false
not_empty [] h = absurd (omega arith)
not_empty (b ∷ u) h = refl

forwarded :
    (s : Proxy) (p : Bytes) (from : Sockaddr) (e : UuidEntry) (now : ℕ)
    → find (read_relay_frame p).dst_uuid s.uuid2addr ≡ some e
    → (relay s p from now).1 ≡ send_msg e.addr msg_proxy_relay_data (terminated p)
unfolding relay
forwarded s p from e now found = rw (found, relay) refl

heard :
    (c : P2pClient) (env : Env) (r : RelayFrame) (tx : Bytes)
    → IsUuid r.src_uuid
    → IsUuid r.dst_uuid
    → c.cfg.uuid ≡ r.dst_uuid
    → 14 ≤ length tx
    → on_relay_data c env (relay_frame_bytes r ++ tx) ≡ (
        on_tunnel_frame
          (set_conn c r.src_uuid (named (conn_at c r.src_uuid) r.src_uuid))
          env
          tx
          r.src_uuid
        ▷ λ t. relay_heard t r.src_uuid)
unfolding on_relay_data
heard c env r tx v w same low =
    let size : length (relay_frame_bytes r ++ tx) ≡ 66 + length tx =
      omega (arith, length-append (relay_frame_bytes r) tx, length-relay_frame_bytes r) in
    let long : ltb (length (relay_frame_bytes r ++ tx)) (66 + 14) ≡ false = ground (arith, size) in
    rw
      (
        long,
        read_relay_frame-bytes r tx v w,
        same,
        bytes_eq_refl r.dst_uuid,
        not_empty r.src_uuid v.named,
        drop-append (relay_frame_bytes r) tx 66 (length-relay_frame_bytes r),
      )
      refl

relay_heard-ok :
    (t : P2pClient) (peer : Bytes) → (conn_at (relay_heard t peer).0 peer).relay.relay_ok ≡ true
unfolding relay_heard
relay_heard-ok t peer = elim (Bool-cases (conn_at t peer).relay.relay_ok) [
  | inl on ↦ rw (on, relay_heard) on
  | inr off ↦
      rw (off, relay_heard) (ap (λ (k : Conn). k.relay.relay_ok) (conn_at-set_conn t peer _))
]

-- A frame of 14 to 1974 bytes between two clients, the second of them registered at the relay: what
-- the first sends to its first proxy the relay forwards unchanged to the address registered, and the
-- second handles the same frame as one of its peer, the first, and has then heard that peer by the
-- relay.
pub send_relayed-on_relay_data :
    (c c' : P2pClient) (s : Proxy) (conn : Conn) (env : Env) (a : ServerAddr)
    (rest : List ServerAddr) (to from : Sockaddr) (e : UuidEntry) (tx : Bytes) (now : ℕ)
    → c.proxies ≡ a ∷ rest
    → sockaddr_from a ≡ some to
    → IsUuid c.cfg.uuid
    → IsUuid conn.peer_uuid
    → c'.cfg.uuid ≡ conn.peer_uuid
    → find conn.peer_uuid s.uuid2addr ≡ some e
    → 14 ≤ length tx
    → length tx ≤ 1974
    → let frame = relay_frame_bytes (record { src_uuid = c.cfg.uuid; dst_uuid = conn.peer_uuid }) in
      let bytes = codec_write_head msg_proxy_relay_data (66 + length tx) ++ frame ++ tx in
      let known = set_conn c' c.cfg.uuid (named (conn_at c' c.cfg.uuid) c.cfg.uuid) in
      (send_relayed c conn tx ≡ send_to none to bytes ∷ [])
      × ((handle s bytes from now).1
          ≡ record { to = e.addr; msg_id = msg_proxy_relay_data; payload = frame ++ tx } ∷ [])
      × (handle_proto c' env msg_proxy_relay_data (frame ++ tx)
          ≡ (on_tunnel_frame known env tx c.cfg.uuid ▷ λ t. relay_heard t c.cfg.uuid))
      × ((conn_at
            (handle_proto c' env msg_proxy_relay_data (frame ++ tx)).0
            c.cfg.uuid).relay.relay_ok
          ≡ true)
unfolding send_relayed to_proxy handle dispatch relay handle_proto on_relay_data
send_relayed-on_relay_data c c' s conn env a rest to from e tx now some_proxy at v w same found low
      high =
    let r : RelayFrame = record { src_uuid = c.cfg.uuid; dst_uuid = conn.peer_uuid } in
    let frame = relay_frame_bytes r in
    let known = set_conn c' c.cfg.uuid (named (conn_at c' c.cfg.uuid) c.cfg.uuid) in
    let size : length (frame ++ tx) ≡ 66 + length tx =
      omega (arith, length-append frame tx, length-relay_frame_bytes r) in
    let opened = open_head msg_proxy_relay_data (frame ++ tx) (omega (arith, size)) in
    let whole : ltb (length (frame ++ tx)) size_of_relay_frame ≡ false = ground (arith, size) in
    let wire : codec_write_head msg_proxy_relay_data (66 + length tx) ++ frame ++ tx
        ≡ codec_write_head msg_proxy_relay_data (length (frame ++ tx)) ++ (frame ++ tx) =
      rw (size) (append_assoc (codec_write_head msg_proxy_relay_data (66 + length tx)) frame tx) in
    let there : find (read_relay_frame (frame ++ tx)).dst_uuid s.uuid2addr ≡ some e =
      rw (read_relay_frame-bytes r tx v w) found in
    (
      rw (some_proxy) (ground (arith, to_first a rest _ to at)),
      rw (wire, handled s _ msg_proxy_relay_data (frame ++ tx) from now opened, whole)
          (forwarded s (frame ++ tx) from e now there
            ∙ rw (set-relay_frame_bytes r tx v w) (
                send_msg-fits e.addr msg_proxy_relay_data (frame ++ tx)
                  (omega (arith, size, high)))),
      heard c' env r tx v w same low,
      ap (λ (x : Outcome). (conn_at x.0 c.cfg.uuid).relay.relay_ok) (heard c' env r tx v w same low)
          ∙ relay_heard-ok (on_tunnel_frame known env tx c.cfg.uuid).0 c.cfg.uuid,
    )
