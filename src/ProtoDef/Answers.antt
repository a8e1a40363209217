-- ===== src/ProtoDef/Answers.antt =====
-- common/ProtoDef.h: the answer to a request for a connection, as a client reads it.
use p2p_server.Prelude.{
  ℕ, zero, suc, ◌+◌, ◌*◌, ◌/◌, ◌%◌, ◌^◌, ◌<◌, ◌≤◌, ◌≡◌, ◌≢◌, refl, ap, sym, ◌∙◌, ltb, ◌==◌, not,
  ◌&&◌, if◌then◌else◌, Bool, true, false, Option-cases, inl, inr, Bytes, List, Option, none, some,
  [], ◌∷◌, ◌++◌, length, length-append, All, get_or, take, drop, drop-append, is_empty, bytes_eq,
  bytes_eq_refl, arith,
}
use mathlib.Core.List.{append_assoc}
use p2p_server.Prelude.Maps.{nat_key, bytes_key}
use p2p_server.Prelude.Wire.{padded, length-padded, be16, be16_round, read_be16}
use p2p_server.ProtoDef.Requests.{read_uuid, read_text}
use p2p_server.ProtoDef.Replies.{
  uuid_field, ip_field, ProxyCandidate, ConnectAck, ConnectInvite, candidates_bytes,
  connect_ack_bytes, connect_invite_bytes,
}
use p2p_server.ProtoDef.Client.{read_connect_ack, read_connect_invite}
use p2p_server.ProtoDef.Fields.{IsUuid, c_str-field, length-uuid_field, read_uuid_first}
use p2p_server.ProtoDef.Terminated.{get-behind}

-- A text of fewer than 16 characters is read back from its field.
read_ip :
    (xs ip rest : Bytes) (off : ℕ)
    → length xs ≡ off
    → length ip ≤ 16
    → All (λ b. b ≢ 0) ip
    → read_text (xs ++ (ip_field ip ++ rest)) off 16 ≡ ip
unfolding read_text padded
read_ip xs ip rest off e l p =
    rw (drop-append xs (take 16 (ip ++ p2p_server.Prelude.replicate 16 0) ++ rest) off e)
      (c_str-field ip 16 16 16 rest p l (omega arith) (omega arith))

read_port :
    (xs rest : Bytes) (port off : ℕ)
    → length xs ≡ off
    → port < 2 ^ 16
    → read_be16 (xs ++ (be16 port ++ rest)) off ≡ port
read_port xs rest port off e h =
    let first : get_or (xs ++ (be16 port ++ rest)) off 0 ≡ port / 256 % 256 =
      get-behind xs (be16 port ++ rest) off 0 off e (omega arith) in
    let second : get_or (xs ++ (be16 port ++ rest)) (off + 1) 0 ≡ port % 256 =
      get-behind xs (be16 port ++ rest) off 1 (off + 1) e refl in
    rw (first, second) (be16_round port h)

-- The fields of the answer that the client needs, as they are read.
pub record Reads (p u text : Bytes) (n : ℕ) : Type 0 where
  pub whole : 126 ≤ length p
  pub result : (read_connect_ack p).result ≡ 0
  pub uuid : (read_connect_ack p).dst_uuid ≡ u
  pub ip : (read_connect_ack p).dst_pub_ip ≡ text
  pub port : (read_connect_ack p).dst_pub_port ≡ n

six : (h i p l q t : Bytes) → h ++ i ++ p ++ l ++ q ++ t ≡ h ++ i ++ (p ++ (l ++ (q ++ t)))
six h i p l q t =
    append_assoc (h ++ i ++ p ++ l) q t
    ∙ append_assoc (h ++ i ++ p) l (q ++ t)
    ∙ append_assoc (h ++ i) p (l ++ (q ++ t))

length-six :
    (h i p l q t : Bytes)
    → length (h ++ i ++ p ++ l ++ q ++ t)
      ≡ length h + length i + length p + length l + length q + length t
length-six h i p l q t = omega (
  arith,
  length-append (h ++ i ++ p ++ l ++ q) t,
  length-append (h ++ i ++ p ++ l) q,
  length-append (h ++ i ++ p) l,
  length-append (h ++ i) p,
  length-append h i,
)

read_second : (x : ℕ) (xs : Bytes) → read_uuid (x ∷ xs) 1 ≡ read_uuid xs 0
unfolding read_uuid
read_second x xs = refl

length-candidates_bytes : (cs : List ProxyCandidate) → length (candidates_bytes cs) ≡ 54
unfolding candidates_bytes
length-candidates_bytes cs = length-padded 54 _

pub connect_ack-Reads :
    (r : ConnectAck)
    → r.result ≡ 0
    → IsUuid r.dst_uuid
    → length r.dst_pub_ip ≤ 16
    → All (λ b. b ≢ 0) r.dst_pub_ip
    → r.dst_pub_port < 2 ^ 16
    → Reads (connect_ack_bytes r) r.dst_uuid r.dst_pub_ip r.dst_pub_port
unfolding connect_ack_bytes read_connect_ack
connect_ack-Reads r ok v l plain port =
    let h : Bytes = r.result ∷ uuid_field r.dst_uuid in
    let i = ip_field r.dst_pub_ip in
    let n = be16 r.dst_pub_port in
    let k = ip_field r.dst_lan_ip in
    let m = be16 r.dst_lan_port in
    let t : Bytes = r.dst_nattype ∷ r.proxy_count ∷ candidates_bytes r.proxies in
    let cands : length t ≡ 56 = omega (arith, length-candidates_bytes r.proxies) in
    let rest = k ++ (m ++ t) in
    let p = connect_ack_bytes r in
    let by_port : p ≡ h ++ i ++ (n ++ rest) = six h i n k m t in
    let by_ip : p ≡ h ++ (i ++ (n ++ rest)) = by_port ∙ append_assoc h i (n ++ rest) in
    let long : length h ≡ 34 = omega (arith, length-uuid_field r.dst_uuid) in
    let longer : length (h ++ i) ≡ 50 =
      omega (arith, length-append h i, long, length-padded 16 r.dst_pub_ip) in
    record {
      whole = omega (
        arith,
        length-six h i n k m t,
        long,
        length-padded 16 r.dst_pub_ip,
        length-padded 16 r.dst_lan_ip,
        cands,
      );
      result = ok;
      uuid =
          ap (λ (x : Bytes). read_uuid x 1) by_ip
          ∙ read_second r.result (uuid_field r.dst_uuid ++ (i ++ (n ++ rest)))
          ∙ read_uuid_first r.dst_uuid (i ++ (n ++ rest)) v;
      ip =
          ap (λ (x : Bytes). read_text x 34 16) by_ip
          ∙ read_ip h r.dst_pub_ip (n ++ rest) 34 long l plain;
      port =
          ap (λ (x : Bytes). read_be16 x 50) by_port
          ∙ read_port (h ++ i) rest r.dst_pub_port 50 longer port;
    }

-- The same of the invitation that the peer gets.
pub record Invites (p u text : Bytes) (n : ℕ) : Type 0 where
  pub uuid : (read_connect_invite p).src_uuid ≡ u
  pub ip : (read_connect_invite p).src_pub_ip ≡ text
  pub port : (read_connect_invite p).src_pub_port ≡ n

pub connect_invite-Invites :
    (r : ConnectInvite)
    → IsUuid r.src_uuid
    → length r.src_pub_ip ≤ 16
    → All (λ b. b ≢ 0) r.src_pub_ip
    → r.src_pub_port < 2 ^ 16
    → Invites (connect_invite_bytes r) r.src_uuid r.src_pub_ip r.src_pub_port
unfolding connect_invite_bytes read_connect_invite
connect_invite-Invites r v l plain port =
    let h = uuid_field r.src_uuid in
    let i = ip_field r.src_pub_ip in
    let n = be16 r.src_pub_port in
    let k = ip_field r.src_lan_ip in
    let m = be16 r.src_lan_port in
    let t : Bytes = r.src_nattype ∷ r.proxy_count ∷ candidates_bytes r.proxies in
    let rest = k ++ (m ++ t) in
    let by_port : connect_invite_bytes r ≡ h ++ i ++ (n ++ rest) = six h i n k m t in
    let by_ip : connect_invite_bytes r ≡ h ++ (i ++ (n ++ rest)) =
      by_port ∙ append_assoc h i (n ++ rest) in
    let long = length-uuid_field r.src_uuid in
    let longer : length (h ++ i) ≡ 49 =
      omega (arith, length-append h i, long, length-padded 16 r.src_pub_ip) in
    record {
      uuid =
          ap (λ (x : Bytes). read_uuid x 0) by_ip ∙ read_uuid_first r.src_uuid (i ++ (n ++ rest)) v;
      ip =
          ap (λ (x : Bytes). read_text x 33 16) by_ip
          ∙ read_ip h r.src_pub_ip (n ++ rest) 33 long l plain;
      port =
          ap (λ (x : Bytes). read_be16 x 49) by_port
          ∙ read_port (h ++ i) rest r.src_pub_port 49 longer port;
    }

pub length-connect_ack_bytes : (r : ConnectAck) → length (connect_ack_bytes r) ≡ 126
unfolding connect_ack_bytes
length-connect_ack_bytes r =
    let h : Bytes = r.result ∷ uuid_field r.dst_uuid in
    let i = ip_field r.dst_pub_ip in
    let n = be16 r.dst_pub_port in
    let k = ip_field r.dst_lan_ip in
    let m = be16 r.dst_lan_port in
    let t : Bytes = r.dst_nattype ∷ r.proxy_count ∷ candidates_bytes r.proxies in
    omega (
      arith,
      length-six h i n k m t,
      length-uuid_field r.dst_uuid,
      length-padded 16 r.dst_pub_ip,
      length-padded 16 r.dst_lan_ip,
      length-candidates_bytes r.proxies,
    )

pub length-connect_invite_bytes : (r : ConnectInvite) → length (connect_invite_bytes r) ≡ 125
unfolding connect_invite_bytes
length-connect_invite_bytes r =
    let h = uuid_field r.src_uuid in
    let i = ip_field r.src_pub_ip in
    let n = be16 r.src_pub_port in
    let k = ip_field r.src_lan_ip in
    let m = be16 r.src_lan_port in
    let t : Bytes = r.src_nattype ∷ r.proxy_count ∷ candidates_bytes r.proxies in
    omega (
      arith,
      length-six h i n k m t,
      length-uuid_field r.src_uuid,
      length-padded 16 r.src_pub_ip,
      length-padded 16 r.src_lan_ip,
      length-candidates_bytes r.proxies,
    )
