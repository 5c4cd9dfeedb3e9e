-- ===== src/Lib.antt =====
-- ldn_mitm: local wireless play (LDN) of the console, carried over a LAN or over an internet relay.
--
-- Parts, and the files that model them (paths from the repository's root):
--   Protocol   ldn_mitm/source/lan_protocol.cpp: the packet header, the zero-run compression
--              (Compress), and the socket that cuts a byte stream into packets (Socket).
--   Registry   ldn_mitm/source/session_registry.cpp: the published peer set.
--   GameRx     the same file's queue of 32 game frames.
--   Transport  ldn_mitm/source/relay_client.cpp: RelayTransport's peer map, its sending side (Wrap)
--              and its receiving side (Receive).
--   RelayConfig  the same file's settings and relay.cfg: the C library's scanning (Text), LoadConfig
--              (Parse), PersistConfig and EnsureClientId (Persist); and the commands of
--              ldn_mitm/source/ldnmitm_config.cpp that change the settings (Service).
--   RelayLink  the same file's RelayTransport::Open and Close, and ResolveHostname (Dns).
--   Ldn        ldn_mitm/source/ldn_types.hpp and .cpp, and the filter of LANDiscovery::scan.
--   Discovery  ldn_mitm/source/lan_discovery.cpp and .hpp: LANDiscovery, its sockets and stations.
--              Nodes: updateNodes and what it publishes; Host, Client, Relay: the handlers of
--              received packets; Session: opening, closing, creating, leaving; Worker: the worker's
--              rounds; Join: scan and connect; Lifecycle: initialize and finalize, with
--              ldn_mitm/source/nifm_manager.cpp; Poll: loopPoll and Pollable::Poll; Run: the worker's
--              events as a step relation.
--   Ipc        ldn_mitm/source/ldn_icommunication.cpp: the commands of the service.
--   TcpRelay   ldn_mitm/source/tcp_relay.cpp: the table of eight TCP streams that are tunnelled between
--              two consoles, the frames from a peer, and the bytes that wait for a local socket;
--              Redirect: RedirectConnect; Pump: the pump thread; Reach: all of it as a step relation.
--   Bsd        ldn_mitm/source/bsd_mitm_service.cpp: the sliced waits of Poll and Select, their wake-up
--              (Wake), each as a whole (Poll, Select), the receiving calls (Receive) and SendTo (Send).
--   Tests      concrete runs.
--
-- How they interact: a handler of Discovery reads a message that Protocol delivers, changes the node
-- list, publishes the peers to Registry and sends messages, which stand in `Discovery.sent`, the
-- newest first. Transport reads the published peers to decide which game frames enter GameRx
-- and which tunnel frames reach TcpRelay. Bsd hands the game's sends to Transport and serves its
-- receives from GameRx; TcpRelay sends its frames through Transport. RelayConfig decides whether the
-- relay is on and which server and client id Transport uses.
--
-- State is passed explicitly. An operation that holds a mutex is one step. What the system answers
-- (clock, addresses, results of calls) is an argument: `Env`, `Answers`, `TcpAttempt`. The sleeps of
-- scan and connect let the worker run, and so do the gaps between the locks of the operations that open
-- and end a session: what it does in them is an arbitrary function of the state (`turns`). The nifm
-- session of the relay transport is counted in `Nifm`, beside that of the LAN session.
-- Numbers are natural numbers with the wrap-around of 16- and 32-bit fields written out; an address
-- and a MAC address are numbers; structures are modelled without their padding.
--
-- Bounds: the loops of scan (10 rounds), connect (300) and connectPrivate (3) recurse on the
-- rounds left, as in the source. The carry loop of IpChecksum has three rounds of fuel: the first
-- leaves at most 0x1FFFE of a 32-bit sum, the second at most 0xFFFF. `beacon` runs once in each round
-- of the worker whose interval has passed. The waiting loop of Poll has its timeout in milliseconds
-- as fuel: each round waits at least one. Five digits are enough for the decimal digits of a 16-bit
-- client id. A blocking receive is modelled for a number of looks at the queue. The walk over
-- a name in a DNS answer has the answer's length as fuel: each round goes on by a byte.
--
-- Not modelled: system calls and socket options, the start-up of the sysmodule, the logging, and what
-- the components of the manifest list as such.
pub mod Base
pub mod Protocol
pub mod Registry
pub mod GameRx
pub mod Transport
pub mod Ldn
pub mod Discovery
pub mod Bsd
pub mod Ipc
pub mod RelayConfig
pub mod RelayLink
pub mod TcpRelay
pub mod Tests
