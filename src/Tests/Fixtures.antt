-- ===== src/Tests/Fixtures.antt =====
-- The data of the tests: a host, a station that joins it, and two relay transports.
use ldn_mitm.Base.{ℕ, List, [], ◌∷◌, true, false, none, some, replicate, map}
use ldn_mitm.Ldn.{
  CommState, DisconnectReason, NodeStatus, NodeInfo, NetworkInfo, blank_node, blank_network,
}
use ldn_mitm.Registry.{Snapshot, cleared}
use ldn_mitm.GameRx.{initial}
use ldn_mitm.Transport.{Transport, blank_peer, blank_slot, frag_slots}
use ldn_mitm.Discovery.{Discovery, Env, Station, Heartbeat, new_station}

abbrev pub host_ip : ℕ
host_ip = 0xC0A80002

abbrev pub guest_ip : ℕ
guest_ip = 0xC0A80103

abbrev pub lan_env : ℕ → Env
lan_env now = record {
  now = now;
  ip_address = some host_ip;
  ip_config = some (host_ip, 0xFFFFFF00);
}

abbrev pub seven_stations : List Station
seven_stations = map new_station (1 ∷ 2 ∷ 3 ∷ 4 ∷ 5 ∷ 6 ∷ 7 ∷ [])

abbrev pub host_info : NodeInfo
host_info = record blank_node { ipv4_address = host_ip; is_connected = 1; user_name = 0x41 ∷ [] }

abbrev pub guest_info : NodeInfo
guest_info = record blank_node { ipv4_address = guest_ip; user_name = 0x42 ∷ [] }

abbrev pub hosted : NetworkInfo
hosted = record blank_network {
  common = record blank_network.common { bssid = 7 };
  ldn = record blank_network.ldn { node_count = 1; nodes = host_info ∷ replicate 7 blank_node };
}

-- the same network after the guest joined
abbrev pub joined : NetworkInfo
joined = record hosted {
  ldn = record hosted.ldn {
    node_count = 2;
    nodes =
        host_info ∷ record guest_info { node_id = 1; is_connected = 1 } ∷ replicate 6 blank_node;
  };
}

abbrev pub idle : Discovery
idle = record {
  state = CommState.initialized;
  disconnect_reason = DisconnectReason.none;
  udp = some (record { is_open = true; scan_results = []; self_ip = 0 });
  tcp = none;
  relay = true;
  stations = seven_stations;
  node_changes = replicate 8 0;
  node_last_states = replicate 8 0;
  initialized = true;
  network_info = blank_network;
  join_bssid = 0;
  join_active = false;
  relay_sync_seq = 0;
  relay_sync_seq_valid = false;
  host_last_seen = 0;
  relay_joined = false;
  relay_joined_ip = 0;
  join_await_self_ip = 0;
  last_relay_advertise = 0;
  last_relay_reconnect = 0;
  init_relay = true;
  needs_reinit = false;
  registry = cleared;
  game_rx = initial;
  sent = [];
}

abbrev pub hosting : Discovery
hosting = record idle { state = CommState.access_point_created; network_info = hosted }

-- a host with the guest in its first slot, last heard at 1000 ms
abbrev pub with_guest : Discovery
with_guest = record hosting {
  network_info = joined;
  stations =
      record (new_station 1) { status = NodeStatus.connected; last_seen = 1000 }
      ∷ map new_station (2 ∷ 3 ∷ 4 ∷ 5 ∷ 6 ∷ 7 ∷ []);
}

abbrev pub joining : Discovery
joining = record idle {
  state = CommState.station;
  join_bssid = 7;
  join_active = true;
  join_await_self_ip = guest_ip;
}

abbrev pub guest_beat : Heartbeat
guest_beat = record { bssid = 7; ipv4 = guest_ip }

abbrev pub transport_at : ℕ → ℕ → ℕ → ℕ → Transport
transport_at vsrc rsrc peer peer_vsrc = record {
  is_open = true;
  frag_send_id = 0;
  vsrc = vsrc;
  rsrc = rsrc;
  peers = record { real = peer; vsrc = peer_vsrc } ∷ replicate 15 blank_peer;
  peer_next = 1;
  ping_misses = 0;
  ping_supported = false;
  frags = replicate frag_slots blank_slot;
  frag_evict = 0;
}

abbrev pub host_transport : Transport
host_transport = transport_at 0x0A0D0001 host_ip guest_ip 0x0A0D0002

abbrev pub guest_transport : Transport
guest_transport = transport_at 0x0A0D0002 guest_ip host_ip 0x0A0D0001

abbrev pub guest_session : Snapshot
guest_session = record { active = true; bcast_ip = 0xC0A801FF; peer_ips = host_ip ∷ [] }
