-- ===== src/Discovery/Worker.antt =====
-- The body of LANDiscovery::worker after its poll: the relay beacon, path liveness and the reaping
-- of silent peers. Times are milliseconds of a clock that does not go back.
pub mod Liveness
use ldn_mitm.Base.{
  ℕ, ◌+◌, ◌-◌, List, [], ◌∷◌, Bool, true, false, not, ◌&&◌, ◌||◌, leb, if◌then◌else◌,
}
use ldn_mitm.Ldn.{CommState, DisconnectReason}
use ldn_mitm.Discovery.{
  Discovery, Env, Station, Message, scan_resp, relay_heartbeat, Effect, relay_broadcast,
  relay_keepalive, relay_ping, relay_reopen, emit, has_socket, is_connected_status,
}
use ldn_mitm.Discovery.Nodes.{update_nodes}
use ldn_mitm.Discovery.Host.{is_hosting}
use ldn_mitm.Discovery.Client.{is_station_connected, send_relay_scope, on_disconnect_from_host}
use ldn_mitm.Discovery.Relay.{any_station, reset_where}

abbrev pub relay_beacon_interval_ms : ℕ
relay_beacon_interval_ms = 5000

abbrev pub relay_peer_timeout_ms : ℕ
relay_peer_timeout_ms = 30000

abbrev pub relay_reconnect_min_interval_ms : ℕ
relay_reconnect_min_interval_ms = 15000

-- what the beacon says: the advertisement, a heartbeat, or the empty keepalive
unfoldable pub announce : Env → Discovery → Discovery
announce env d =
    if is_hosting d.state
    then emit (record d { last_relay_advertise = env.now })
        (relay_broadcast (scan_resp d.network_info))
    else if is_station_connected d.state && d.relay_joined
    then emit d (
        relay_broadcast
          (relay_heartbeat (record { bssid = d.join_bssid; ipv4 = d.relay_joined_ip })))
    else emit d relay_keepalive

-- pathDead() of the transport decides between a probe and a reopening.
unfoldable pub probe_path : Env → Bool → Discovery → Discovery
probe_path env path_dead d =
    if path_dead
    then (if leb relay_reconnect_min_interval_ms (env.now - d.last_relay_reconnect)
        then emit (record d { last_relay_reconnect = env.now }) relay_reopen
        else d)
    else emit d relay_ping

-- a relay station that has been silent too long
abbrev pub is_silent : ℕ → Station → Bool
is_silent now st =
    is_connected_status st.status
    && not (has_socket st)
    && leb relay_peer_timeout_ms (now - st.last_seen)

unfoldable pub reap : Env → Discovery → Discovery
reap env d =
    if is_hosting d.state
    then (if any_station (is_silent env.now) d.stations
        then update_nodes env (record d { stations = reset_where (is_silent env.now) d.stations })
        else d)
    else if is_station_connected d.state
        && d.relay_joined
        && leb relay_peer_timeout_ms (env.now - d.host_last_seen)
    then on_disconnect_from_host d DisconnectReason.signal_lost
    else d

unfoldable pub beacon : Env → Bool → Discovery → Discovery
beacon env path_dead d = reap env (probe_path env path_dead (send_relay_scope (announce env d)))

-- One round of the loop: the state, and the new `last_beacon`.
unfoldable pub worker_round : Env → Bool → ℕ → Discovery → Discovery × ℕ
worker_round env path_dead last_beacon d =
    if d.relay && leb relay_beacon_interval_ms (env.now - last_beacon)
    then (beacon env path_dead d, env.now)
    else (d, last_beacon)
