-- ===== src/Discovery/Relay.antt =====
-- RelayLanSocket::onRead and onClose: the dispatch of one packet that came over the relay. The
-- transport learns the sender's addresses beside the discovery state.
pub mod Laws
use ldn_mitm.Base.{
  ℕ, zero, suc, ◌+◌, ◌-◌, List, [], ◌∷◌, Bool, true, false, not, ◌&&◌, ◌||◌, Option, none, some,
  leb, if◌then◌else◌, ◌==◌, map,
}
use ldn_mitm.Ldn.{CommState, DisconnectReason, NodeInfo, NetworkInfo, host_node}
use ldn_mitm.Transport.{Transport, learn_peer}
use ldn_mitm.Discovery.{
  Discovery, Env, Station, UdpSocket, Heartbeat, Message, scan, scan_resp, sync_network, connect,
  relay_heartbeat, relay_bye, Effect, relay_broadcast, emit, reset, has_socket, is_connected_status,
}
use ldn_mitm.Discovery.Nodes.{update_nodes}
use ldn_mitm.Discovery.Host.{is_hosting, station_ip, on_relay_connect, add_result}
use ldn_mitm.Discovery.Client.{
  is_station, is_station_connected, on_sync_network, on_disconnect_from_host,
}

abbrev pub relay_advertise_min_interval_ms : ℕ
relay_advertise_min_interval_ms = 2000

-- The station of a relay peer with this address: connected, with no TCP socket.
abbrev pub is_relay_station : List NodeInfo → ℕ → Station → Bool
is_relay_station nodes ip st =
    is_connected_status st.status && not (has_socket st) && station_ip nodes st == ip

-- case Scan
unfoldable pub relay_on_scan : Env → Discovery → Discovery
relay_on_scan env d =
    if is_hosting d.state && leb relay_advertise_min_interval_ms (env.now - d.last_relay_advertise)
    then emit (record d { last_relay_advertise = env.now })
        (relay_broadcast (scan_resp d.network_info))
    else d

-- case ScanResp
unfoldable pub relay_on_scan_resp : Env → Discovery → NetworkInfo → Discovery
relay_on_scan_resp env d info = record d {
  host_last_seen =
      if d.join_active && info.common.bssid == d.join_bssid then env.now else d.host_last_seen;
  udp = elim d.udp [ none ↦ none | some u ↦ some (add_result u info) ];
}

-- case SyncNetwork
unfoldable pub relay_on_sync : Env → Discovery → NetworkInfo → ℕ → Discovery
relay_on_sync env d info seq =
    if is_station d.state || is_station_connected d.state then on_sync_network env d info seq else d

-- case RelayHeartbeat
unfoldable pub relay_on_heartbeat : Env → Discovery → Heartbeat → Discovery
relay_on_heartbeat env d hb =
    if is_hosting d.state && hb.bssid == d.network_info.common.bssid
    then record d {
      stations =
          map
            (λ (st : Station).
              if is_relay_station d.network_info.ldn.nodes hb.ipv4 st
              then record st { last_seen = env.now }
              else st)
            d.stations;
    }
    else d

abbrev pub is_bye_target : Discovery → Heartbeat → Station → Bool
is_bye_target d bye st = is_relay_station d.network_info.ldn.nodes bye.ipv4 st

-- `changed`: some station satisfies the test.
unfoldable pub any_station : (Station → Bool) → List Station → Bool
any_station p [] = false
any_station p (st ∷ rest) = p st || any_station p rest

abbrev pub reset_where : (Station → Bool) → List Station → List Station
reset_where p = map (λ (st : Station). if p st then reset st else st)

-- case RelayBye
unfoldable pub relay_on_bye : Env → Discovery → Heartbeat → Discovery
unfolding any_station
relay_on_bye env d bye =
    if is_station_connected d.state
    then (if d.join_active
          && bye.bssid == d.join_bssid
          && bye.ipv4 == (host_node d.network_info).ipv4_address
        then on_disconnect_from_host d DisconnectReason.destroyed_by_user
        else d)
    else if is_hosting d.state
        && bye.bssid == d.network_info.common.bssid
        && any_station (is_bye_target d bye) d.stations
    then update_nodes env (record d { stations = reset_where (is_bye_target d bye) d.stations })
    else d

-- The switch of RelayLanSocket::onRead, on the discovery state: `seq` is lastRecvSeq().
unfoldable pub relay_on_read : Env → Discovery → Message → ℕ → Discovery
relay_on_read env d scan seq = relay_on_scan env d
relay_on_read env d (scan_resp info) seq = relay_on_scan_resp env d info
relay_on_read env d (connect info) seq =
    if is_hosting d.state then on_relay_connect env d info else d
relay_on_read env d (sync_network info) seq = relay_on_sync env d info seq
relay_on_read env d (relay_heartbeat hb) seq = relay_on_heartbeat env d hb
relay_on_read env d (relay_bye bye) seq = relay_on_bye env d bye
relay_on_read env d Message.malformed seq = d
relay_on_read env d Message.bad_connect seq = d
relay_on_read env d Message.unknown seq = d

-- What the same switch teaches the transport: `src` is lastSrc.
unfoldable pub relay_learn : Transport → Message → ℕ → Transport
relay_learn t (scan_resp info) src = learn_peer t (host_node info).ipv4_address src
relay_learn t (connect info) src = learn_peer t info.ipv4_address src
relay_learn t (sync_network info) src = learn_peer t (host_node info).ipv4_address src
relay_learn t (relay_heartbeat hb) src = learn_peer t hb.ipv4 src
relay_learn t m src = t

-- RelayLanSocket::onClose: the transport is closed.
unfoldable pub relay_on_close : Discovery → Discovery
relay_on_close d = record d { needs_reinit = true }
