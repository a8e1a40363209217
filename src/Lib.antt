-- ===== src/Lib.antt =====
-- Verification library of the P2P server: a directory server (NatServer) that keeps which peers are
-- online and introduces them to each other, a relay (P2PProxy) for those that cannot reach each
-- other directly, and the client SDK (P2PClient) with its session, NAT detection and wire formats.
--
-- The parts and how they interact. A datagram that reaches the directory server passes the flood
-- control and the blacklists, is answered at once if it is a NAT probe, and otherwise enters the
-- queue of the workers; a worker hands it to the handler of its message. Handlers read the
-- configuration and the white list, change the table of peers, send replies, and pass
-- registrations and deletions on to the other directory servers. The relay keeps two tables of
-- registrations and the paths of relayed frames. The session runs over either way and makes a
-- datagram path reliable. A client logs in, keeps itself registered by heartbeats, asks the
-- directory server for its peer, sends to the address that the server names, and falls back to the
-- relay; both clients may encrypt what the session sends.
--
-- Files and sources:
--   Prelude    the lists, maps, byte strings and lemmas that the other modules share
--   Crypto     common/Crypto.cpp: Gf and Aes (AES-256), Sha256, Hmac (HMAC, PBKDF2, the stream
--              cipher p2p_stream_xor), Modes (CBC, CTR), Aead (p2p_aead_encrypt, the encryptors)
--   Util       common/Util.h: addr_to_u64, u64_to_sockaddr, sockaddr_eq
--   ProtoDef   common/ProtoDef.h: constants, Requests as they are read and Replies as they are
--              written by a server, Client the other way round; Fields, Terminated and Answers on
--              reading back
--   Codec      client/sdk/proto/Codec.h: the message head and the tunnel head
--   Session    client/sdk/session/Session.h: send, on_frame, tick and what they call
--   NatDetect  client/sdk/transport/NatDetect.h: start, feed, tick
--   Net        the datagrams of NatServer::send_msg and P2PProxy::send
--   Proxy      server/proxyserver/src/P2PProxy.cpp: handle, its cases, a round of the timer
--   PeerManage, AntiAbuse, LicenseMgr, CfgFile
--              server/natserver/src/*.cpp of the same names, a function for each operation
--   NatServer  server/natserver/src/NatServer.cpp: the state; Auth (issue_auth_nonce,
--              verify_auth_login), Heartbeat, ProxyPool (pick_proxy), Sync (registrations and
--              deletions between servers), Queue (recv_thread, and NatTypeCheck.cpp), and Packet
--              (RecvProcess.cpp): Peers, Connect, Admin and Registry hold the cases of handle_packet
--   Client     client/sdk/api/P2PClient.{h,cpp}: the state; Backoff, Tunnel (the keys and the
--              encryption of frames), Path (sending, sessions, close_conn), Auth, Heartbeat, Ice,
--              Connect, Packet (handle_packet, handle_proto), Tick (the timers), Life (start, stop),
--              Loop (a turn of worker_loop)
--   Examples   each result at a concrete input
--
-- How the state corresponds. A class is a record of its fields, an operation a function from the
-- state to the next state, its result and the datagrams it sends. `time(nullptr)` and
-- `plat_now_ms` are arguments. A call that holds a lock is one step, and so is a handler: the
-- steps of other workers between its locks are not modelled. A map is an association list, ordered
-- by key for std::map and in the order of insertion for std::unordered_map. Random bytes, the
-- draws of rand_u32, and the memory that is read behind a struct or an answer are arguments. An
-- address is `s_addr` as a little-endian machine reads it; a uuid or another text field is its
-- bytes up to the first NUL, so that what stands behind that NUL is not kept in a reply. Counters
-- wrap at their width. getsockname of a socket bound to any address gives 0.0.0.0. The socket
-- takes what is sent. A call of LicenseMgr::load that waits for the mutex it holds itself is
-- `blocked`, with the list that it has stored.
--
-- The client. What a step sends, the callbacks it runs and its calls of libjuice are a list of
-- outputs beside the state, in order. The five callbacks of the user are set and do not call the
-- client back. An ICE agent is there or not; whether one can be made and what it describes are
-- arguments, and so are the nonces of encrypted frames (by their count) and the memory behind a
-- frame received, which decrypt_tunnel_frame may read. The pool of punch sockets is their number.
-- Where the code goes on with a connection that it has erased, a step gives `none`: its behaviour
-- is undefined from there. What a turn of the loop receives is an argument, and its time is read
-- once.
--
-- Bounds and fuel. The loops over a buffer (update_loop, stream_loop, ctr_loop) have its length as
-- fuel, and each round takes at least one byte. pad_zeros has 64, since a block has 64 bytes;
-- pbkdf2_blocks has one round for each block of the output; decimal has ten digits, as many as a
-- 32-bit number has; doubled, the loop of a back-off, has one round less than there were attempts,
-- as the source counts them. Every other loop is recursion on a list.
--
-- Not modelled: the status server, logging, sockets, select, epoll, threads and command lines, the
-- file of the blacklists, the weights of pick_proxy (computed on doubles), p2p_random_bytes, the
-- older copy of the protocol in server/common, the demonstration programs, and
-- third_party/libjuice.
pub mod Prelude
pub mod Crypto
pub mod Util
pub mod ProtoDef
pub mod Codec
pub mod Session
pub mod Net
pub mod Proxy
pub mod PeerManage
pub mod AntiAbuse
pub mod LicenseMgr
pub mod CfgFile
pub mod NatServer
pub mod NatDetect
pub mod Client
pub mod Examples
