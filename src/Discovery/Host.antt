-- ===== src/Discovery/Host.antt =====
-- The host's side of a join: LANDiscovery::onConnect and onRelayConnect, LanStation::onRead and
-- onClose, and LDUdpSocket's handlers.
pub mod Joins
use ldn_mitm.Base.{
  ℕ, zero, suc, ◌+◌, List, [], ◌∷◌, Bool, true, false, not, ◌&&◌, ◌||◌, Option, none, some, leb,
  if◌then◌else◌, ◌==◌, get_or, set, map,
}
use ldn_mitm.Ldn.{
  CommState, DisconnectReason, NodeStatus, NodeInfo, NetworkInfo, host_node, blank_node,
  station_count_max,
}
use ldn_mitm.Discovery.{
  Discovery, Env, Station, UdpSocket, Message, scan, scan_resp, sync_network, connect, Effect,
  close_fd, udp_reply, emit, set_state, reset, link, has_socket, is_connected_status,
  is_disconnected_status,
}
use ldn_mitm.Discovery.Nodes.{with_nodes, station_count, update_nodes}

-- nodeInfo->ipv4Address of a station
abbrev pub station_ip : List NodeInfo → Station → ℕ
station_ip nodes st = (get_or nodes st.node_id blank_node).ipv4_address

-- The first loop of onRelayConnect: a station in use with this address gets its time stamp; `none`
-- if there is none.
unfoldable pub refresh_known : List NodeInfo → ℕ → ℕ → List Station → Option (List Station)
refresh_known nodes ip now [] = none
refresh_known nodes ip now (st ∷ rest) =
    if not (is_disconnected_status st.status) && station_ip nodes st == ip
    then some (record st { last_seen = now } ∷ rest)
    else elim (refresh_known nodes ip now rest) [ none ↦ none | some rest' ↦ some (st ∷ rest') ]

-- The second loop of onRelayConnect, and that of onConnect: the first free slot is rewritten. With
-- the stations comes the number of the slot's node.
unfoldable pub claim_free : (Station → Station) → List Station → Option (List Station × ℕ)
claim_free f [] = none
claim_free f (st ∷ rest) =
    if is_disconnected_status st.status
    then some (f st ∷ rest, st.node_id)
    else elim (claim_free f rest) [ none ↦ none | some (rest', n) ↦ some (st ∷ rest', n) ]

abbrev pub seat : ℕ → Station → Station
seat now st = record st { status = NodeStatus.connected; last_seen = now }

-- onRelayConnect
unfoldable pub on_relay_connect : Env → Discovery → NodeInfo → Discovery
on_relay_connect env d info =
    elim (refresh_known d.network_info.ldn.nodes info.ipv4_address env.now d.stations) [
      | some stations ↦ update_nodes env (record d { stations = stations })
      | none ↦
          if leb station_count_max (station_count d.stations)
          then d
          else elim (claim_free (seat env.now) d.stations) [
            | none ↦ d
            | some (stations, n) ↦ update_nodes env (record d {
              stations = stations;
              network_info = with_nodes d.network_info (set d.network_info.ldn.nodes n info);
            })
          ]
    ]

-- onConnect: an accepted socket takes the first free slot, or is closed.
unfoldable pub on_connect : Discovery → ℕ → Discovery
on_connect d fd =
    if leb station_count_max (station_count d.stations)
    then emit d (close_fd fd)
    else elim (claim_free (λ st. link st fd) d.stations) [
      | none ↦ emit d (close_fd fd)
      | some (stations, n) ↦ record d { stations = stations }
    ]

-- What is done to the station with a given number.
abbrev pub at_station : ℕ → (Station → Station) → List Station → List Station
at_station n f = map (λ (st : Station). if st.node_id == n then f st else st)

-- LanStation::onRead on a packet: a Connect of the right size seats the station. The number is the
-- callback's result, 0 or 1 for -1.
unfoldable pub station_on_read : Env → Discovery → ℕ → Message → Discovery × ℕ
station_on_read env d n (connect info) = (
  update_nodes env (record d {
    network_info = with_nodes d.network_info (set d.network_info.ldn.nodes n info);
    stations = at_station n (λ st. record st { status = NodeStatus.connected }) d.stations;
  }),
  0,
)
station_on_read env d n Message.bad_connect = (d, 1)
station_on_read env d n m = (d, 0)

-- LanStation::onClose
unfoldable pub station_on_close : Env → Discovery → ℕ → Discovery
station_on_close env d n = update_nodes env (record d { stations = at_station n reset d.stations })

-- unordered_map::insert keeps the entry that is there.
unfoldable pub insert_result : NetworkInfo → List NetworkInfo → List NetworkInfo
insert_result info [] = info ∷ []
insert_result info (r ∷ rs) =
    if r.common.bssid == info.common.bssid then r ∷ rs else r ∷ insert_result info rs

-- A host's advertisement: our own, echoed back, is left out.
unfoldable pub add_result : UdpSocket → NetworkInfo → UdpSocket
unfolding insert_result
add_result u info =
    if not (u.self_ip == 0) && (host_node info).ipv4_address == u.self_ip
    then u
    else record u { scan_results = insert_result info u.scan_results }

abbrev pub is_hosting : CommState → Bool
is_hosting CommState.access_point_created = true
is_hosting _ = false

-- LDUdpSocket::onRead on a packet
unfoldable pub udp_on_read : Discovery → Message → Discovery
udp_on_read d scan = if is_hosting d.state then emit d (udp_reply (scan_resp d.network_info)) else d
udp_on_read d (scan_resp info) = elim d.udp [
  | none ↦ d
  | some u ↦ record d { udp = some (add_result u info) }
]
udp_on_read d m = d

abbrev pub is_error_state : CommState → Bool
is_error_state CommState.error = true
is_error_state _ = false

-- LDUdpSocket::onClose: the first cause is kept.
unfoldable pub udp_on_close : Discovery → Discovery
udp_on_close d =
    let d' = record d {
      udp = elim d.udp [ none ↦ none | some u ↦ some (record u { is_open = false }) ];
      needs_reinit = true;
    } in
    if is_error_state d.state
    then d'
    else set_state
        (record d' {
          disconnect_reason =
              if is_hosting d.state
              then DisconnectReason.destroyed_by_system
              else DisconnectReason.disconnected_by_system;
        })
        CommState.error
