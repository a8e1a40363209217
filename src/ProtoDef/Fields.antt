-- ===== src/ProtoDef/Fields.antt =====
-- common/ProtoDef.h: what one side writes into a struct is what the other side reads.
use p2p_server.Prelude.{
  ℕ, zero, suc, ◌≤◌, ◌<◌, ◌≡◌, ◌≢◌, refl, [], ◌∷◌, ◌++◌, Bytes, length, length-append, take,
  take-append, drop-append, take_all, replicate, c_str, All, arith,
}
use mathlib.Core.List.{append_assoc}
use p2p_server.Prelude.Wire.{padded, length-padded, slice}
use p2p_server.ProtoDef.Requests.{
  read_uuid, ProxyRegReq, read_proxy_reg_req, AuthLoginReq, read_auth_login_req, RelayFrame,
  read_relay_frame,
}
use p2p_server.ProtoDef.Replies.{uuid_field}
use p2p_server.ProtoDef.Client.{proxy_reg_req_bytes, auth_login_req_bytes, relay_frame_bytes}

abbrev pub IsCharacter : ℕ → Type 0
IsCharacter b = b ≢ 0

-- A uuid as the structs can carry it: 1 to 32 bytes, none of them 0.
pub record IsUuid (u : Bytes) : Type 0 where
  pub named : 0 < length u
  pub fits : length u ≤ 32
  pub plain : All IsCharacter u

pub c_str-field :
    (u : Bytes) (n m k : ℕ) (rest : Bytes)
    → All IsCharacter u
    → length u ≤ n
    → n ≤ m
    → n ≤ k
    → c_str (take n (take m (u ++ replicate k 0) ++ rest)) ≡ u
unfolding c_str
c_str-field [] zero m k rest p h i j = refl
c_str-field [] (suc n) zero k rest p h i j = absurd (omega arith)
c_str-field [] (suc n) (suc m) zero rest p h i j = absurd (omega arith)
c_str-field [] (suc n) (suc m) (suc k) rest p h i j = refl
c_str-field (x ∷ u) zero m k rest p h i j = absurd (omega arith)
c_str-field (x ∷ u) (suc n) zero k rest p h i j = absurd (omega arith)
c_str-field (x ∷ u) (suc n) (suc m) k rest p h i j = ground (arith, c_str-field u n m k rest p.1)

pub padded_full : (xs : Bytes) (n : ℕ) → length xs ≡ n → padded n xs ≡ xs
unfolding padded
padded_full xs n e = take-append xs (replicate n 0) n e

pub length-uuid_field : (u : Bytes) → length (uuid_field u) ≡ 33
length-uuid_field u = length-padded 33 (take 32 u)

pub read_uuid_first : (u rest : Bytes) → IsUuid u → read_uuid (uuid_field u ++ rest) 0 ≡ u
unfolding read_uuid padded
read_uuid_first u rest v =
    rw (take_all 32 u v.fits)
      (c_str-field u 32 33 33 rest v.plain v.fits (omega arith) (omega arith))

-- A field behind one of a known length.
pub slice_behind :
    (xs ys rest : Bytes) (a n : ℕ)
    → length xs ≡ a
    → length ys ≡ n
    → slice ((xs ++ ys) ++ rest) a n ≡ ys
slice_behind xs ys rest a n e f =
    rw (append_assoc xs ys rest, drop-append xs (ys ++ rest) a e) (take-append ys rest n f)

pub slice_last :
    (xs ys : Bytes) (a n : ℕ) → length xs ≡ a → length ys ≡ n → slice (xs ++ ys) a n ≡ ys
slice_last xs ys a n e f = rw (drop-append xs ys a e) (take_all n ys (omega arith))

pub read_uuid_second :
    (xs u rest : Bytes)
    → length xs ≡ 33
    → IsUuid u
    → read_uuid ((xs ++ uuid_field u) ++ rest) 33 ≡ u
unfolding read_uuid
read_uuid_second xs u rest e v =
    rw (append_assoc xs (uuid_field u) rest, drop-append xs (uuid_field u ++ rest) 33 e)
      (unfold read_uuid in read_uuid_first u rest v)

pub read_auth_login_req-bytes :
    (r : AuthLoginReq)
    → IsUuid r.uuid
    → length r.nonce ≡ 16
    → length r.mac ≡ 32
    → read_auth_login_req (auth_login_req_bytes r) ≡ r
unfolding read_auth_login_req auth_login_req_bytes
read_auth_login_req-bytes r v n m =
    let f = length-uuid_field r.uuid in
    rw
      (
        slice_behind (uuid_field r.uuid) r.nonce r.mac 33 16 f n,
        slice_last (uuid_field r.uuid ++ r.nonce) r.mac 49 32
            (omega (arith, length-append (uuid_field r.uuid) r.nonce)) m,
        append_assoc (uuid_field r.uuid) r.nonce r.mac,
        read_uuid_first r.uuid (r.nonce ++ r.mac) v,
      )
      refl

pub read_proxy_reg_req-bytes :
    (r : ProxyRegReq)
    → IsUuid r.uuid
    → length r.hmac ≡ 32
    → read_proxy_reg_req (proxy_reg_req_bytes r) ≡ r
unfolding read_proxy_reg_req proxy_reg_req_bytes
read_proxy_reg_req-bytes r v m =
    rw
      (
        slice_last (uuid_field r.uuid) (padded 32 r.hmac) 33 32 (length-uuid_field r.uuid)
            (length-padded 32 r.hmac),
        read_uuid_first r.uuid (padded 32 r.hmac) v,
        padded_full r.hmac 32 m,
      )
      refl

pub read_relay_frame-bytes :
    (r : RelayFrame) (rest : Bytes)
    → IsUuid r.src_uuid
    → IsUuid r.dst_uuid
    → read_relay_frame (relay_frame_bytes r ++ rest) ≡ r
unfolding read_relay_frame relay_frame_bytes
read_relay_frame-bytes r rest v w =
    rw
      (
        read_uuid_second (uuid_field r.src_uuid) r.dst_uuid rest (length-uuid_field r.src_uuid) w,
        append_assoc (uuid_field r.src_uuid) (uuid_field r.dst_uuid) rest,
        read_uuid_first r.src_uuid (uuid_field r.dst_uuid ++ rest) v,
      )
      refl
