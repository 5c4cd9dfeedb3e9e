-- ===== src/Discovery/Nodes.antt =====
-- The node table and what follows from a change of it: stationCount, overrideInfo, updateNodes,
-- isNodeStateChanged, onNetworkInfoChanged and publishSessionRegistry.
pub mod Publish
pub mod Changes
pub mod Update
use Prim.Native.Nat.{bit_or}
use ldn_mitm.Base.{
  ℕ, zero, suc, ◌+◌, ◌-◌, ◌^◌, List, [], ◌∷◌, ◌++◌, Bool, true, false, not, ◌&&◌, ◌||◌, Option,
  none, some, if◌then◌else◌, ◌==◌, length, get_or, set, take,
}
use ldn_mitm.Ldn.{NodeStatus, NodeInfo, NetworkInfo, blank_node, node_count_max, LdnNetworkInfo}
use ldn_mitm.Registry.{publish}
use ldn_mitm.Discovery.{
  Discovery, Env, Station, Message, sync_network, Effect, relay_broadcast, station_send, lan_event,
  emit, has_socket, is_connected_status, is_disconnected_status,
}

abbrev pub with_nodes : NetworkInfo → List NodeInfo → NetworkInfo
with_nodes info nodes = record info { ldn = record info.ldn { nodes = nodes } }

-- stationCount
unfoldable pub station_count : List Station → ℕ
station_count [] = 0
station_count (st ∷ rest) =
    if is_disconnected_status st.status then station_count rest else station_count rest + 1

-- the first loop of updateNodes: how many stations are connected
unfoldable pub connected_count : List Station → ℕ
connected_count [] = 0
connected_count (st ∷ rest) =
    if is_connected_status st.status then connected_count rest + 1 else connected_count rest

-- LanStation::overrideInfo, on the node that the station's pointer shows
unfoldable pub override_info : Station → List NodeInfo → List NodeInfo
override_info st nodes = set nodes st.node_id (record (get_or nodes st.node_id blank_node) {
  node_id = st.node_id;
  is_connected = if is_connected_status st.status then 1 else 0;
})

unfoldable pub override_all : List Station → List NodeInfo → List NodeInfo
override_all [] nodes = nodes
override_all (st ∷ rest) nodes = override_all rest (override_info st nodes)

abbrev pub change_none : ℕ
change_none = 0

abbrev pub change_connect : ℕ
change_connect = 1

abbrev pub change_disconnect : ℕ
change_disconnect = 2

-- One round of isNodeStateChanged: the node's flag, its recorded change and its last state.
abbrev pub change_of : NodeInfo → ℕ → ℕ → ℕ
change_of node change last =
    if node.is_connected == last
    then change
    else bit_or change (if node.is_connected == 0 then change_disconnect else change_connect)

-- The loop over nodes, nodeChanges and nodeLastStates, all of them eight long.
unfoldable pub track : List NodeInfo → List ℕ → List ℕ → List ℕ × List ℕ × Bool
track [] changes lasts = (changes, lasts, false)
track (n ∷ ns) [] lasts = ([], lasts, false)
track (n ∷ ns) (c ∷ cs) [] = (c ∷ cs, [], false)
track (n ∷ ns) (c ∷ cs) (l ∷ ls) =
    let (cs', ls', changed) = track ns cs ls in
    (change_of n c l ∷ cs', n.is_connected ∷ ls', not (n.is_connected == l) || changed)

-- onNetworkInfoChanged: the event fires if a node's flag differs from the last one seen.
unfoldable pub on_network_info_changed : Discovery → Discovery
unfolding emit
on_network_info_changed d =
    let (changes, lasts, changed) =
      track d.network_info.ldn.nodes d.node_changes d.node_last_states in
    let d' = record d { node_changes = changes; node_last_states = lasts } in
    if changed then emit d' lan_event else d'

-- initNodeStateChange
unfoldable pub init_node_state_change : Discovery → Discovery
init_node_state_change d = record d { node_changes = zeros; node_last_states = zeros }
  where
    zeros : List ℕ
    zeros = 0 ∷ 0 ∷ 0 ∷ 0 ∷ 0 ∷ 0 ∷ 0 ∷ 0 ∷ []

-- address | ~netmask, in 32 bits
unfoldable pub broadcast_ip : ℕ → ℕ → ℕ
broadcast_ip address netmask = bit_or address (2 ^ 32 - 1 - netmask)

-- The loop of publishSessionRegistry over the first `nodeCount` nodes.
unfoldable pub peer_addresses : ℕ → List NodeInfo → List ℕ
peer_addresses self_ip [] = []
peer_addresses self_ip (n ∷ ns) =
    if n.ipv4_address == 0 || n.ipv4_address == self_ip
    then peer_addresses self_ip ns
    else n.ipv4_address ∷ peer_addresses self_ip ns

-- At most eight nodes are read, so the array of eight peers is never short.
unfoldable pub publish_with : Option (ℕ × ℕ) → Discovery → Discovery
unfolding publish peer_addresses
publish_with none d = d
publish_with (some (address, netmask)) d = record d {
  registry =
      publish d.registry (broadcast_ip address netmask)
        (peer_addresses address (take d.network_info.ldn.node_count d.network_info.ldn.nodes));
}

abbrev pub publish_session_registry : Env → Discovery → Discovery
publish_session_registry env d = publish_with env.ip_config d

-- The last loop of updateNodes: SyncNetwork to every connected station that holds a TCP socket.
unfoldable pub sync_stations : NetworkInfo → List Station → List Effect → List Effect
sync_stations info [] sent = sent
sync_stations info (st ∷ rest) sent = sync_stations info rest (
    if is_connected_status st.status && has_socket st
    then station_send st.node_id (sync_network info) ∷ sent
    else sent)

-- The network after overrideInfo on every station and the recount.
abbrev pub refreshed : Discovery → NetworkInfo
refreshed d = record d.network_info {
  ldn = record d.network_info.ldn {
    nodes = override_all d.stations d.network_info.ldn.nodes;
    node_count = connected_count d.stations + 1;
  };
}

-- updateNodes
unfoldable pub update_nodes : Env → Discovery → Discovery
update_nodes env d =
    let info = refreshed d in
    let told = if d.relay then relay_broadcast (sync_network info) ∷ d.sent else d.sent in
    publish_session_registry env (
      on_network_info_changed
        (record d { network_info = info; sent = sync_stations info d.stations told }))
