-- ===== src/Client/Tunnel/Key.antt =====
-- client/sdk/api/P2PClient.cpp, `get_tunnel_key`: both ends of a connection derive one key.
use p2p_server.Prelude.{
  ◌≡◌, ◌≢◌, true, false, some, Bytes, bytes_eq_iff, bytes_lt, bytes_lt_irrefl, bytes_lt_trans,
  bytes_lt_total, is_empty, arith, inl, inr, Option-cases,
}
use p2p_server.Prelude.Maps.{find, bytes_key, find-put}
use p2p_server.Client.{P2pClient}
use p2p_server.Client.Tunnel.{derived_key, get_tunnel_key}

-- Every key that is kept is the one derived.
abbrev pub KeysDerived : P2pClient → Type 0
KeysDerived s =
    (peer key : Bytes)
    → find peer s.tunnel_keys ≡ some key
    → key ≡ derived_key s.secret s.cfg.uuid peer

bytes_lt_asym : (u v : Bytes) → bytes_lt u v ≡ true → bytes_lt v u ≡ false
bytes_lt_asym u v h = ground (arith, bytes_lt_trans u v u h, bytes_lt_irrefl u)

pub derived_key_comm :
    (secret u v : Bytes) → u ≢ v → derived_key secret u v ≡ derived_key secret v u
unfolding derived_key
derived_key_comm secret u v n =
    ground (arith, bytes_lt_asym u v, bytes_lt_total u v, bytes_eq_iff u v)

pub get_tunnel_key-derived :
    (s : P2pClient) (peer : Bytes)
    → KeysDerived s
    → is_empty s.secret ≡ false
    → is_empty peer ≡ false
    → peer ≢ s.cfg.uuid
    → (get_tunnel_key s peer).1 ≡ some (derived_key s.secret s.cfg.uuid peer)
unfolding get_tunnel_key
get_tunnel_key-derived s peer d h k n = elim (Option-cases (find peer s.tunnel_keys)) [
  | inl e ↦ ground (arith, bytes_eq_iff peer s.cfg.uuid)
  | inr (key, e) ↦ let same = d peer key e in ground (arith, bytes_eq_iff peer s.cfg.uuid)
]

-- The key that is looked up is kept, and still the derived one.
pub get_tunnel_key-KeysDerived :
    (s : P2pClient) (peer : Bytes) → KeysDerived s → KeysDerived (get_tunnel_key s peer).0
unfolding get_tunnel_key
get_tunnel_key-KeysDerived s peer d other key e = ground (
  arith,
  d other key,
  bytes_eq_iff peer other,
  find-put peer other (derived_key s.secret s.cfg.uuid peer) s.tunnel_keys,
)
