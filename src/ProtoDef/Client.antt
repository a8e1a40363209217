-- ===== src/ProtoDef/Client.antt =====
-- common/ProtoDef.h: the requests as a client writes them and the replies as it reads them. A port
-- is the number that ntohs gives.
use p2p_server.Prelude.{ℕ, zero, suc, ◌+◌, Bytes, List, [], ◌∷◌, ◌++◌, get_or, length}
use p2p_server.Prelude.Wire.{be16, be32, padded, read_be16}
use p2p_server.ProtoDef.{max_ip_len}
use p2p_server.ProtoDef.Requests.{
  UuidReq, ConnectReq, ProxyRegReq, AuthLoginReq, RelayFrame, read_uuid, read_text,
}
use p2p_server.ProtoDef.Replies.{uuid_field, ProxyCandidate, ConnectAck, ConnectInvite}

unfoldable pub uuid_req_bytes : UuidReq → Bytes
uuid_req_bytes r =
    uuid_field r.uuid
    ++ r.dev_type ∷ r.nattype ∷ be16 r.lan_port
    ++ be32 r.session_pts
    ++ be16 r.extlen

unfoldable pub connect_req_bytes : ConnectReq → Bytes
connect_req_bytes r = uuid_field r.src_uuid ++ uuid_field r.dst_uuid

unfoldable pub proxy_reg_req_bytes : ProxyRegReq → Bytes
proxy_reg_req_bytes r = uuid_field r.uuid ++ padded 32 r.hmac

unfoldable pub auth_login_req_bytes : AuthLoginReq → Bytes
auth_login_req_bytes r = uuid_field r.uuid ++ r.nonce ++ r.mac

unfoldable pub relay_frame_bytes : RelayFrame → Bytes
relay_frame_bytes r = uuid_field r.src_uuid ++ uuid_field r.dst_uuid

-- `IceSdpMsg` with a text of at most 65535 bytes.
unfoldable pub ice_sdp_bytes : Bytes → Bytes → Bytes
ice_sdp_bytes uuid sdp = uuid_field uuid ++ be16 (length sdp) ++ sdp

-- `sizeof(IceSdpMsg) - 1`
abbrev pub size_of_ice_sdp : ℕ
size_of_ice_sdp = 35

abbrev pub size_of_ext_info_rsp : ℕ
size_of_ext_info_rsp = 39

abbrev pub size_of_connect_ack : ℕ
size_of_connect_ack = 126

abbrev pub size_of_connect_invite : ℕ
size_of_connect_invite = 125

-- `n` candidates from an offset on.
unfoldable pub read_candidates : ℕ → Bytes → ℕ → List ProxyCandidate
read_candidates zero p off = []
read_candidates (suc n) p off =
    record { ip = read_text p off max_ip_len; port = read_be16 p (off + 16) }
    ∷ read_candidates n p (off + 18)

unfoldable pub read_connect_ack : Bytes → ConnectAck
read_connect_ack p = record {
  result = get_or p 0 0;
  dst_uuid = read_uuid p 1;
  dst_pub_ip = read_text p 34 max_ip_len;
  dst_pub_port = read_be16 p 50;
  dst_lan_ip = read_text p 52 max_ip_len;
  dst_lan_port = read_be16 p 68;
  dst_nattype = get_or p 70 0;
  proxy_count = get_or p 71 0;
  proxies = read_candidates 3 p 72;
}

unfoldable pub read_connect_invite : Bytes → ConnectInvite
read_connect_invite p = record {
  src_uuid = read_uuid p 0;
  src_pub_ip = read_text p 33 max_ip_len;
  src_pub_port = read_be16 p 49;
  src_lan_ip = read_text p 51 max_ip_len;
  src_lan_port = read_be16 p 67;
  src_nattype = get_or p 69 0;
  proxy_count = get_or p 70 0;
  proxies = read_candidates 3 p 71;
}
