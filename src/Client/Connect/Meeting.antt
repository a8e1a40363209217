-- ===== src/Client/Connect/Meeting.antt =====
-- server/natserver/src with client/sdk/api/P2PClient.cpp: from the heartbeat of one peer to what the
-- other sends to it.
use p2p_server.Prelude.Maps.{nat_key}
use p2p_server.NatServer.{NatServer}
use p2p_server.NatServer.Packet.Peers
