-- ===== src/Examples/Relay.antt =====
-- server/proxyserver: runs of the relay.
use p2p_server.Prelude.{
  ◌/◌, ◌%◌, ◌≡◌, refl, [], ◌∷◌, ◌++◌, none, some, Bytes, arith, codes, replicate, ◌≢◌, head_differs,
}
use p2p_server.Prelude.Maps.{find, nat_key, bytes_key}
use p2p_server.Prelude.Wire.{be32}
use p2p_server.ProtoDef.{msg_proxy_relay_data, nat_magic, proto_ver}
use p2p_server.Util.{Sockaddr, addr_to_u64}
use p2p_server.Proxy.{Proxy, enter, handle, timer_round}
use p2p_server.Proxy.Tables.{WithinLimit, handle-WithinLimit}
use p2p_server.Proxy.Register.{moved_uuid_evicted}
use p2p_server.Proxy.Timer.{idle_paths_expire, CountsWithin}

abbrev home : Sockaddr
home = record { addr = 16777343; port = 4000 }

abbrev away : Sockaddr
away = record { addr = 16777343; port = 5000 }

-- One uuid is registered, at most two may be.
abbrev pub one_peer : Proxy
one_peer = record {
  max_proxy = 2;
  uuid2addr = (codes "a", record { addr = home; last_reg = 10 }) ∷ [];
  addr2uuid = (addr_to_u64 home, codes "a") ∷ [];
  srcpaths = [];
  relay_pkts = 0;
  relay_bytes = 0;
}

-- A frame from the uuid "b" to the uuid "a", without a payload.
abbrev frame : Bytes
frame = codes "b" ++ replicate 32 0 ++ codes "a" ++ replicate 32 0

abbrev packet : Bytes
packet = nat_magic / 256 ∷ nat_magic % 256 ∷ proto_ver ∷ msg_proxy_relay_data ∷ be32 66 ++ frame

handle-WithinLimit_example :
    WithinLimit (handle one_peer packet away 20).0 × WithinLimit (timer_round one_peer 20)
handle-WithinLimit_example = handle-WithinLimit one_peer packet away 20 (omega arith)

far : addr_to_u64 away ≢ addr_to_u64 home
unfolding addr_to_u64
far e = absurd (omega arith)

moved_uuid_evicted_example :
    let moved = enter (enter one_peer (codes "u") home 1) (codes "u") away 2 in
    (find (codes "u") moved.uuid2addr ≡ some (record { addr = away; last_reg = 2 }))
    × (find (codes "u") (enter moved (codes "v") home 3).uuid2addr ≡ none)
moved_uuid_evicted_example =
    moved_uuid_evicted one_peer (codes "u") (codes "v") home away 1 2 3
      (head_differs 118 117 [] [] refl) far

idle_paths_expire_example :
    let s' = (handle one_peer packet away 20).0 in
    CountsWithin 3 s'.srcpaths
    × ((timer_round (timer_round (timer_round s' 30) 40) 50).srcpaths ≡ [])
idle_paths_expire_example = idle_paths_expire one_peer packet away 20 30 40 50 tt
