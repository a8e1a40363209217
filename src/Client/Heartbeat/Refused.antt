-- ===== src/Client/Heartbeat/Refused.antt =====
-- server/natserver/src/NatServer.cpp with client/sdk/api/P2PClient.cpp: what a client makes of the
-- refusal of its heartbeat.
use p2p_server.Prelude.{if◌then◌else◌, ◌≡◌, [], ◌∷◌, Option, none, some, Bytes, length, codes}
use p2p_server.NatServer.{NatServer}
use p2p_server.Client.{P2pClient, on_error, Outcome}
use p2p_server.Client.Auth.{may_ask, do_auth_challenge}

-- The vector of a sealed heartbeat has 8 bytes.
abbrev pub HasVector : Option Bytes → Type 0
HasVector none = Unit
HasVector (some iv) = length iv ≡ 8

abbrev challenge_or_wait : P2pClient → Outcome
challenge_or_wait c = if may_ask c then do_auth_challenge c else (c, [])

abbrev rejected : P2pClient → Outcome
rejected c = (c, on_error (codes "server rejected this uuid") ∷ [])
