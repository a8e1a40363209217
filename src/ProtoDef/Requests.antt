-- ===== src/ProtoDef/Requests.antt =====
-- common/ProtoDef.h: the packed request structs, read from the bytes of a payload. A uuid is the
-- text up to its NUL, after the source has set the last byte of the field to 0.
use p2p_server.Prelude.{ℕ, Bytes, c_str, get_or}
use p2p_server.Prelude.Wire.{read_be16, read_be32, slice}
use p2p_server.ProtoDef.{max_uuid_len, max_ip_len}

-- `memcpy` of the field, `uuid[MAX_UUID_LEN] = 0`.
unfoldable pub read_uuid : Bytes → ℕ → Bytes
read_uuid p off = c_str (slice p off max_uuid_len)

-- A field `char ip[MAX_IP_LEN]` as a C string.
unfoldable pub read_text : Bytes → ℕ → ℕ → Bytes
read_text p off n = c_str (slice p off n)

pub record UuidReq : Type 0 where
  pub uuid : Bytes
  pub dev_type : ℕ
  pub nattype : ℕ
  pub lan_port : ℕ
  pub session_pts : ℕ
  pub extlen : ℕ

abbrev pub size_of_uuid_req : ℕ
size_of_uuid_req = 43

unfoldable pub read_uuid_req : Bytes → UuidReq
read_uuid_req p = record {
  uuid = read_uuid p 0;
  dev_type = get_or p 33 0;
  nattype = get_or p 34 0;
  lan_port = read_be16 p 35;
  session_pts = read_be32 p 37;
  extlen = read_be16 p 41;
}

-- `ExtInfoReq`, `AuthChallengeReq` and `SyncPeerDel` are one uuid.
abbrev pub size_of_ext_info_req : ℕ
size_of_ext_info_req = 33

pub record ConnectReq : Type 0 where
  pub src_uuid : Bytes
  pub dst_uuid : Bytes

abbrev pub size_of_connect_req : ℕ
size_of_connect_req = 66

unfoldable pub read_connect_req : Bytes → ConnectReq
read_connect_req p = record { src_uuid = read_uuid p 0; dst_uuid = read_uuid p 33 }

pub record DevListReq : Type 0 where
  pub start_index : ℕ
  pub want_num : ℕ

abbrev pub size_of_dev_list_req : ℕ
size_of_dev_list_req = 4

unfoldable pub read_dev_list_req : Bytes → DevListReq
read_dev_list_req p = record { start_index = read_be16 p 0; want_num = read_be16 p 2 }

pub record ProxyAvailRsp : Type 0 where
  pub available : ℕ
  pub used : ℕ
  pub max_proxy : ℕ

abbrev pub size_of_proxy_avail_rsp : ℕ
size_of_proxy_avail_rsp = 5

unfoldable pub read_proxy_avail_rsp : Bytes → ProxyAvailRsp
read_proxy_avail_rsp p = record {
  available = get_or p 0 0;
  used = read_be16 p 1;
  max_proxy = read_be16 p 3;
}

pub record ProxyRegReq : Type 0 where
  pub uuid : Bytes
  pub hmac : Bytes

abbrev pub size_of_proxy_reg_req : ℕ
size_of_proxy_reg_req = 65

unfoldable pub read_proxy_reg_req : Bytes → ProxyRegReq
read_proxy_reg_req p = record { uuid = read_uuid p 0; hmac = slice p 33 32 }

pub record AuthLoginReq : Type 0 where
  pub uuid : Bytes
  pub nonce : Bytes
  pub mac : Bytes

abbrev pub size_of_auth_login_req : ℕ
size_of_auth_login_req = 81

unfoldable pub read_auth_login_req : Bytes → AuthLoginReq
read_auth_login_req p = record { uuid = read_uuid p 0; nonce = slice p 33 16; mac = slice p 49 32 }

pub record AdminBlacklistReq : Type 0 where
  pub op : ℕ
  pub key : Bytes
  pub mac : Bytes

abbrev pub size_of_admin_blacklist_req : ℕ
size_of_admin_blacklist_req = 97

-- `key` is the whole field of 64 bytes.
unfoldable pub read_admin_blacklist_req : Bytes → AdminBlacklistReq
read_admin_blacklist_req p = record { op = get_or p 0 0; key = slice p 1 64; mac = slice p 65 32 }

pub record SyncPeerEntry : Type 0 where
  pub uuid : Bytes
  pub pub_ip : Bytes
  pub pub_port : ℕ
  pub lan_ip : Bytes
  pub lan_port : ℕ
  pub dev_type : ℕ
  pub nattype : ℕ
  pub hop : ℕ
  pub reserved : ℕ
  pub hb_time : ℕ
  pub extlen : ℕ

abbrev pub size_of_sync_peer_entry : ℕ
size_of_sync_peer_entry = 79

unfoldable pub read_sync_peer_entry : Bytes → SyncPeerEntry
read_sync_peer_entry p = record {
  uuid = read_uuid p 0;
  pub_ip = read_text p 33 max_ip_len;
  pub_port = read_be16 p 49;
  lan_ip = read_text p 51 max_ip_len;
  lan_port = read_be16 p 67;
  dev_type = get_or p 69 0;
  nattype = get_or p 70 0;
  hop = get_or p 71 0;
  reserved = get_or p 72 0;
  hb_time = read_be32 p 73;
  extlen = read_be16 p 77;
}

abbrev pub size_of_sync_snapshot_req : ℕ
size_of_sync_snapshot_req = 4

pub record RelayFrame : Type 0 where
  pub src_uuid : Bytes
  pub dst_uuid : Bytes

abbrev pub size_of_relay_frame : ℕ
size_of_relay_frame = 66

unfoldable pub read_relay_frame : Bytes → RelayFrame
read_relay_frame p = record { src_uuid = read_uuid p 0; dst_uuid = read_uuid p 33 }
