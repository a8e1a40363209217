-- ===== src/Client/Heartbeat/Sealed.antt =====
-- client/sdk/api/P2PClient.cpp with server/natserver/src/RecvProcess.cpp: the encrypted heartbeat
-- and its answer.
use p2p_server.Prelude.{
  ℕ, suc, ◌+◌, ◌^◌, ◌<◌, ◌≡◌, refl, ap, ◌∙◌, sym, false, [], ◌∷◌, ◌++◌, some, Bytes, length,
  length-append, is_empty, drop, take-append, drop-append, arith, take_all,
}
use mathlib.Core.List.{append_assoc, append-nil}
use std.Path.{fun_ext}
use p2p_server.Prelude.Wire.{padded, length-padded, slice, be16, be32}
use p2p_server.ProtoDef.Requests.{UuidReq, read_uuid}
use p2p_server.ProtoDef.Replies.{uuid_field, ExtInfoRsp, ext_info_rsp_bytes}
use p2p_server.ProtoDef.Client.{uuid_req_bytes}
use p2p_server.ProtoDef.Fields.{
  padded_full, IsUuid, length-uuid_field, slice_behind, read_uuid_first,
}
use p2p_server.ProtoDef.Terminated.{set-padded, read_uuid_req-bytes}
use p2p_server.Util.{Sockaddr}
use p2p_server.Crypto.Hmac.{stream_loop, stream_key, p2p_stream_xor}
use p2p_server.Crypto.Hmac.RoundTrip.{length-stream_xor, stream_xor-stream_xor}
use p2p_server.NatServer.{NatServer, sealed_reply}
use p2p_server.NatServer.Heartbeat.{handle_heartbeat}
use p2p_server.NatServer.Packet.Peers.{on_heartbeat_enc, open_body}
use p2p_server.Client.{P2pClient, Env}
use p2p_server.Client.Heartbeat.{
  heartbeat_req, sealed_heartbeat, on_heartbeat_rsp, on_heartbeat_rsp_enc,
}

-- A text behind a field of 33 bytes and one of 8 is found where the receiver looks for it.
three_parts :
    (u iv text : Bytes)
    → length u ≡ 33
    → length iv ≡ 8
    → (slice (u ++ iv ++ text) 0 33 ≡ u)
      × (slice (u ++ iv ++ text) 33 8 ≡ iv)
      × (drop 41 (u ++ iv ++ text) ≡ text)
      × (length (u ++ iv ++ text) ≡ 41 + length text)
three_parts u iv text l m = (
  rw (append_assoc u iv text) (take-append u (iv ++ text) 33 l),
  slice_behind u iv text 33 8 l m,
  drop-append (u ++ iv) text 41 (omega (arith, length-append u iv, l, m)),
  omega (arith, length-append (u ++ iv) text, length-append u iv, l, m),
)

length-uuid_req_bytes : (r : UuidReq) → length (uuid_req_bytes r) ≡ 43
unfolding uuid_req_bytes
length-uuid_req_bytes r =
    let field = uuid_field r.uuid in
    let first : Bytes = r.dev_type ∷ r.nattype ∷ be16 r.lan_port in
    omega (
      arith,
      length-uuid_field r.uuid,
      length-append field first,
      length-append (field ++ first) (be32 r.session_pts),
      length-append (field ++ first ++ be32 r.session_pts) (be16 r.extlen),
    )

read_padded : (u rest : Bytes) → IsUuid u → read_uuid (padded 33 u ++ rest) 0 ≡ u
read_padded u rest v =
    ap (λ (t : Bytes). read_uuid (padded 33 t ++ rest) 0) (sym (take_all 32 u v.fits))
    ∙ read_uuid_first u rest v

-- The encrypted heartbeat of a client with the server's secret is handled as what it says in the
-- clear: the request of the client's uuid without further information, to be answered under the
-- client's vector.
pub on_heartbeat_enc-sealed :
    (s : NatServer) (c : P2pClient) (env : Env) (env' : p2p_server.NatServer.Packet.Peers.Env)
    (from : Sockaddr)
    → c.secret ≡ s.cfg.auth_secret
    → is_empty c.secret ≡ false
    → IsUuid c.cfg.uuid
    → c.local_port < 2 ^ 16
    → length env.iv ≡ 8
    → on_heartbeat_enc s env' (sealed_heartbeat c env) from
      ≡ handle_heartbeat s (heartbeat_req c) [] from (some env.iv) env'.now
unfolding on_heartbeat_enc sealed_heartbeat open_body
on_heartbeat_enc-sealed s c env env' from same some_secret v port n =
    let u = padded 33 c.cfg.uuid in
    let plain = uuid_req_bytes (heartbeat_req c) in
    let text = p2p_stream_xor c.secret u env.iv plain in
    let (one, two, three, size) = three_parts u env.iv text (length-padded 33 c.cfg.uuid) n in
    let clear : open_body s (u ++ env.iv ++ text) ≡ plain =
      rw (sym same, some_secret, one, two, three, set-padded c.cfg.uuid v)
        (stream_xor-stream_xor c.secret u env.iv plain) in
    let who : read_uuid (u ++ env.iv ++ text) 0 ≡ c.cfg.uuid =
      rw (append_assoc u env.iv text) (read_padded c.cfg.uuid (env.iv ++ text) v) in
    let long = length-uuid_req_bytes (heartbeat_req c) in
    let no_more : drop 43 plain ≡ [] =
      ap (drop 43) (sym (append-nil plain)) ∙ drop-append plain [] 43 long in
    rw
      (
        clear,
        size,
        length-stream_xor c.secret u env.iv plain,
        long,
        who,
        two,
        no_more,
        read_uuid_req-bytes (heartbeat_req c) v port (omega arith) (omega arith),
      )
      refl

pub length-ext_info_rsp_bytes : (r : ExtInfoRsp) → length (ext_info_rsp_bytes r) ≡ 39
unfolding ext_info_rsp_bytes
length-ext_info_rsp_bytes r = ap suc (
    omega (
      arith,
      length-append (padded 16 r.pub_ip ++ be16 r.pub_port ++ padded 16 r.lan_ip ++ be16 r.lan_port)
          (be16 r.nat_sock2_port),
      length-append (padded 16 r.pub_ip ++ be16 r.pub_port ++ padded 16 r.lan_ip) (be16 r.lan_port),
      length-append (padded 16 r.pub_ip ++ be16 r.pub_port) (padded 16 r.lan_ip),
      length-append (padded 16 r.pub_ip) (be16 r.pub_port),
      length-padded 16 r.pub_ip,
      length-padded 16 r.lan_ip,
    ))

stream_xor-padded :
    (secret u iv text : Bytes)
    → p2p_stream_xor secret (padded 33 u) iv text ≡ p2p_stream_xor secret u iv text
unfolding p2p_stream_xor stream_key
stream_xor-padded secret u iv text =
    ap (λ (key : ℕ → Bytes). stream_loop key (length text) 0 text)
      (fun_ext λ off. rw (padded_full (padded 33 u) 33 (length-padded 33 u)) refl)

-- What the server seals for a client with its secret, the client reads as the plain answer.
pub on_heartbeat_rsp_enc-sealed :
    (s : NatServer) (c : P2pClient) (iv : Bytes) (rsp : ExtInfoRsp) (now : ℕ)
    → c.secret ≡ s.cfg.auth_secret
    → is_empty c.secret ≡ false
    → length iv ≡ 8
    → on_heartbeat_rsp_enc c (sealed_reply s.cfg c.cfg.uuid iv (ext_info_rsp_bytes rsp)) now
      ≡ on_heartbeat_rsp c (ext_info_rsp_bytes rsp) now
unfolding on_heartbeat_rsp_enc sealed_reply
on_heartbeat_rsp_enc-sealed s c iv rsp now same some_secret n =
    let u = padded 33 c.cfg.uuid in
    let plain = ext_info_rsp_bytes rsp in
    let text = p2p_stream_xor c.secret c.cfg.uuid iv plain in
    let (one, two, three, size) = three_parts u iv text (length-padded 33 c.cfg.uuid) n in
    rw
      (
        sym same,
        some_secret,
        padded_full iv 8 n,
        one,
        two,
        three,
        size,
        length-stream_xor c.secret c.cfg.uuid iv plain,
        length-ext_info_rsp_bytes rsp,
        stream_xor-padded c.secret c.cfg.uuid iv text,
        stream_xor-stream_xor c.secret c.cfg.uuid iv plain,
      )
      refl
