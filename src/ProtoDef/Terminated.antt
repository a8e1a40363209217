-- ===== src/ProtoDef/Terminated.antt =====
-- common/ProtoDef.h: the last byte of a uuid field, which a receiver sets to 0, is 0 in every struct
-- that a client writes; and the fields behind the uuid of a heartbeat.
use p2p_server.Prelude.{
  ℕ, zero, suc, ◌+◌, ◌^◌, ◌≤◌, ◌<◌, ◌≡◌, refl, ap, ◌∙◌, [], ◌∷◌, ◌++◌, Bytes, length, get_or, set,
  take, replicate, take_all, arith,
}
use mathlib.Core.List.{append_assoc}
use p2p_server.Prelude.Wire.{padded, be16, be32, be16_round, be32_round}
use p2p_server.ProtoDef.Requests.{UuidReq, read_uuid_req, RelayFrame}
use p2p_server.ProtoDef.Replies.{uuid_field}
use p2p_server.ProtoDef.Client.{uuid_req_bytes, relay_frame_bytes}
use p2p_server.ProtoDef.Fields.{IsUuid, length-uuid_field, read_uuid_first}

zeros : (m k i : ℕ) → get_or {A = ℕ} (take m (replicate k 0)) i 0 ≡ 0
zeros zero zero i = refl
zeros zero (suc k) i = refl
zeros (suc m) zero i = refl
zeros (suc m) (suc k) zero = refl
zeros (suc m) (suc k) (suc i) = zeros m k i

-- Behind the text a padded field is 0.
get-field :
    (u : Bytes) (m k i : ℕ) → length u ≤ i → get_or {A = ℕ} (take m (u ++ replicate k 0)) i 0 ≡ 0
get-field [] m k i h = zeros m k i
get-field (x ∷ u) zero k i h = refl
get-field (x ∷ u) (suc m) k zero h = absurd (omega arith)
get-field (x ∷ u) (suc m) k (suc i) h = get-field u m k i (omega arith)

pub get-first :
    (xs ys : Bytes) (i : ℕ) → i < length xs → get_or {A = ℕ} (xs ++ ys) i 0 ≡ get_or xs i 0
get-first [] ys i h = absurd (omega arith)
get-first (x ∷ xs) ys zero h = refl
get-first (x ∷ xs) ys (suc i) h = get-first xs ys i (omega arith)

pub get-behind :
    (xs ys : Bytes) (a i j : ℕ)
    → length xs ≡ a
    → j ≡ a + i
    → get_or {A = ℕ} (xs ++ ys) j 0 ≡ get_or ys i 0
get-behind [] ys a i j e f = let same : j ≡ i = omega (arith, e, f) in rw (same) refl
get-behind (x ∷ xs) ys a i zero e f = absurd (omega arith)
get-behind (x ∷ xs) ys zero i (suc j) e f = absurd (omega arith)
get-behind (x ∷ xs) ys (suc a) i (suc j) e f = get-behind xs ys a i j (omega arith) (omega arith)

set_same : (xs : Bytes) (i : ℕ) → get_or {A = ℕ} xs i 0 ≡ 0 → set xs i 0 ≡ xs
set_same [] i e = refl
set_same (x ∷ xs) zero e = rw (e) refl
set_same (x ∷ xs) (suc i) e = ap (◌∷◌ x) (set_same xs i e)

last_zero : (u : Bytes) → IsUuid u → get_or {A = ℕ} (uuid_field u) 32 0 ≡ 0
unfolding padded
last_zero u v = rw (take_all 32 u v.fits) (get-field u 33 33 32 v.fits)

pub set-padded : (u : Bytes) → IsUuid u → set (padded 33 u) 32 0 ≡ padded 33 u
unfolding padded
set-padded u v = set_same (take 33 (u ++ replicate 33 0)) 32 (get-field u 33 33 32 v.fits)

-- What the relay sets to 0 in a frame is 0 already.
pub set-relay_frame_bytes :
    (r : RelayFrame) (rest : Bytes)
    → IsUuid r.src_uuid
    → IsUuid r.dst_uuid
    → set (set (relay_frame_bytes r ++ rest) 32 0) 65 0 ≡ relay_frame_bytes r ++ rest
unfolding relay_frame_bytes
set-relay_frame_bytes r rest v w =
    let one = uuid_field r.src_uuid in
    let two = uuid_field r.dst_uuid in
    let l = length-uuid_field r.src_uuid in
    let l' = length-uuid_field r.dst_uuid in
    let first : get_or {A = ℕ} (one ++ two ++ rest) 32 0 ≡ 0 =
      rw (append_assoc one two rest)
        (get-first one (two ++ rest) 32 (omega (arith, l)) ∙ last_zero r.src_uuid v) in
    let second : get_or {A = ℕ} (one ++ two ++ rest) 65 0 ≡ 0 = rw (append_assoc one two rest) (
      get-behind one (two ++ rest) 33 32 65 l refl
      ∙ get-first two rest 32 (omega (arith, l'))
      ∙ last_zero r.dst_uuid w) in
    rw (set_same (one ++ two ++ rest) 32 first) (set_same (one ++ two ++ rest) 65 second)

-- The fixed part of a heartbeat is read as it was written.
pub read_uuid_req-bytes :
    (r : UuidReq)
    → IsUuid r.uuid
    → r.lan_port < 2 ^ 16
    → r.session_pts < 2 ^ 32
    → r.extlen < 2 ^ 16
    → read_uuid_req (uuid_req_bytes r) ≡ r
unfolding read_uuid_req uuid_req_bytes
read_uuid_req-bytes r v port pts ext =
    let field = uuid_field r.uuid in
    let first : Bytes = r.dev_type ∷ r.nattype ∷ be16 r.lan_port in
    let rest : Bytes = first ++ be32 r.session_pts ++ be16 r.extlen in
    let at =
      λ (i j : ℕ) (e : j ≡ 33 + i). get-behind field rest 33 i j (length-uuid_field r.uuid) e in
    rw
      (
        append_assoc (field ++ first) (be32 r.session_pts) (be16 r.extlen),
        append_assoc field first (be32 r.session_pts ++ be16 r.extlen),
        read_uuid_first r.uuid rest v,
        at 0 33 refl,
        at 1 34 refl,
        at 2 35 refl,
        at 3 36 refl,
        at 4 37 refl,
        at 5 38 refl,
        at 6 39 refl,
        at 7 40 refl,
        at 8 41 refl,
        at 9 42 refl,
        be16_round r.lan_port port,
        be32_round r.session_pts pts,
        be16_round r.extlen ext,
      )
      refl
