-- ===== src/Discovery.antt =====
-- LANDiscovery of ldn_mitm/source/lan_discovery.cpp and .hpp: its state, and the messages that it
-- sends. Every handler is a function of the state and of an `Env`: the system's answers to the
-- queries that the handler makes. Handlers run under dataMutex or pollMutex, so each is one step.
pub mod Nodes
pub mod Host
pub mod Client
pub mod Relay
pub mod Session
pub mod Worker
pub mod Join
pub mod Lifecycle
pub mod Run
pub mod Poll
use ldn_mitm.Base.{
  ℕ, zero, suc, ◌+◌, ◌*◌, ◌^◌, List, [], ◌∷◌, Bool, true, false, Option, none, some, if◌then◌else◌,
  replicate, map,
}
use ldn_mitm.Ldn.{
  CommState, DisconnectReason, NodeStatus, NodeInfo, NetworkInfo, blank_network, node_count_max,
}
use ldn_mitm.Registry.{Snapshot}
use ldn_mitm.GameRx.{GameRx}

-- RelayHeartbeatPayload
pub record Heartbeat : Type 0 where
  pub bssid : ℕ
  pub ipv4 : ℕ

-- A LAN packet as its receiver reads it: type and payload. A payload whose size is not that
-- of its type's structure is `bad_connect` in a Connect and `malformed` in the other types.
pub data Message : Type 0 where
  scan : Message
  scan_resp sync_network : NetworkInfo → Message
  connect : NodeInfo → Message
  relay_heartbeat relay_bye : Heartbeat → Message
  bad_connect malformed unknown : Message

-- What a handler does to the world outside, the newest first in `Discovery.sent`.
pub data Effect : Type 0 where
  relay_broadcast : Message → Effect
  relay_scope : ℕ → Effect
  relay_keepalive relay_ping relay_reopen : Effect
  station_send : ℕ → Message → Effect
  udp_reply udp_broadcast tcp_send : Message → Effect
  lan_event : Effect
  close_fd : ℕ → Effect

-- LanStation. `socket` is the descriptor of its TCP socket. `node_info` always points to
-- nodes[node_id], so it is read there.
pub record Station : Type 0 where
  pub status : NodeStatus
  pub socket : Option ℕ
  pub node_id : ℕ
  pub last_seen : ℕ

-- LDTcpSocket: `open` is false once it is closed.
pub record TcpSocket : Type 0 where
  pub is_open : Bool
  pub host_closed : Bool

-- LDUdpSocket. `scan_results` has one entry for each bssid.
pub record UdpSocket : Type 0 where
  pub is_open : Bool
  pub scan_results : List NetworkInfo
  pub self_ip : ℕ

pub record Discovery : Type 0 where
  pub state : CommState
  pub disconnect_reason : DisconnectReason
  pub udp : Option UdpSocket
  pub tcp : Option TcpSocket
  -- the relay socket is there
  pub relay : Bool
  pub stations : List Station
  pub node_changes : List ℕ
  pub node_last_states : List ℕ
  pub initialized : Bool
  pub network_info : NetworkInfo
  pub join_bssid : ℕ
  pub join_active : Bool
  pub relay_sync_seq : ℕ
  pub relay_sync_seq_valid : Bool
  pub host_last_seen : ℕ
  pub relay_joined : Bool
  pub relay_joined_ip : ℕ
  pub join_await_self_ip : ℕ
  pub last_relay_advertise : ℕ
  pub last_relay_reconnect : ℕ
  pub init_relay : Bool
  pub needs_reinit : Bool
  -- the globals of session_registry.cpp
  pub registry : Snapshot
  pub game_rx : GameRx
  pub sent : List Effect

-- The system's answers: the clock in milliseconds, nifmGetCurrentIpAddress, and address and
-- netmask of nifmGetCurrentIpConfigInfo (host order; `none` is a failure).
pub record Env : Type 0 where
  pub now : ℕ
  pub ip_address : Option ℕ
  pub ip_config : Option (ℕ × ℕ)

unfoldable pub emit : Discovery → Effect → Discovery
emit d e = record d { sent = e ∷ d.sent }

-- setState
unfoldable pub set_state : Discovery → CommState → Discovery
unfolding emit
set_state d v = emit (record d { state = v }) lan_event

-- LanStation::reset and LanStation::link
unfoldable pub reset : Station → Station
reset st = record st { socket = none; status = NodeStatus.disconnected }

unfoldable pub link : Station → ℕ → Station
link st fd = record st { socket = some fd; status = NodeStatus.connect }

-- resetStations
unfoldable pub reset_stations : Discovery → Discovery
unfolding reset
reset_stations d = record d { stations = map reset d.stations }

-- getFd() >= 0
abbrev pub has_socket : Station → Bool
has_socket st = elim st.socket [ none ↦ false | some fd ↦ true ]

abbrev pub is_connected_status : NodeStatus → Bool
is_connected_status NodeStatus.connected = true
is_connected_status _ = false

abbrev pub is_disconnected_status : NodeStatus → Bool
is_disconnected_status NodeStatus.disconnected = true
is_disconnected_status _ = false

-- the stations of the constructor, numbered from 1
abbrev pub new_station : ℕ → Station
new_station n = record {
  status = NodeStatus.disconnected;
  socket = none;
  node_id = n;
  last_seen = 0;
}
