-- ===== src/Discovery/Client.antt =====
-- The station's side: LANDiscovery::onSyncNetwork, onDisconnectFromHost, LDTcpSocket's handlers, and
-- what both sides tell the relay (sendRelayScope, sendRelayBye).
pub mod Sync
use Prim.Native.Nat.{bit_xor}
use ldn_mitm.Base.{
  ℕ, zero, suc, ◌+◌, ◌-◌, ◌*◌, ◌/◌, ◌%◌, ◌^◌, List, [], ◌∷◌, ◌++◌, Bool, true, false, not, ◌&&◌,
  ◌||◌, Option, none, some, ltb, if◌then◌else◌, ◌==◌, u16, u32,
}
use ldn_mitm.Ldn.{CommState, DisconnectReason, NodeInfo, NetworkInfo, SessionId, host_node}
use ldn_mitm.Discovery.{
  Discovery, Env, TcpSocket, Heartbeat, Message, sync_network, relay_bye, Effect, relay_broadcast,
  relay_scope, emit, set_state,
}
use ldn_mitm.Discovery.Nodes.{on_network_info_changed, publish_session_registry}

abbrev pub is_station : CommState → Bool
is_station CommState.station = true
is_station _ = false

abbrev pub is_station_connected : CommState → Bool
is_station_connected CommState.station_connected = true
is_station_connected _ = false

abbrev pub in_session : CommState → Bool
in_session CommState.access_point_created = true
in_session CommState.station_connected = true
in_session _ = false

-- the bytes of a 64-bit number in memory
abbrev pub le64 : ℕ → List ℕ
le64 n =
    n % 256
    ∷ n / 256 % 256
    ∷ n / 65536 % 256
    ∷ n / 16777216 % 256
    ∷ n / 4294967296 % 256
    ∷ n / 1099511627776 % 256
    ∷ n / 281474976710656 % 256
    ∷ n / 72057594037927936 % 256
    ∷ []

unfoldable pub fnv1a : ℕ → List ℕ → ℕ
fnv1a h [] = h
fnv1a h (b ∷ bs) = fnv1a (u32 (bit_xor h b * 0x01000193)) bs

-- SessionScopeToken
unfoldable pub session_scope_token : NetworkInfo → ℕ
session_scope_token info =
    let h = fnv1a 0x811c9dc5 (le64 info.session_id.high ++ le64 info.session_id.low) in
    if h == 0 then 1 else h

-- sendRelayScope
unfoldable pub send_relay_scope : Discovery → Discovery
send_relay_scope d =
    if d.relay
    then emit d (relay_scope (if in_session d.state then session_scope_token d.network_info else 0))
    else d

abbrev pub is_ap_created : CommState → Bool
is_ap_created CommState.access_point_created = true
is_ap_created _ = false

-- sendRelayBye
unfoldable pub send_relay_bye : Discovery → Discovery
send_relay_bye d =
    if not d.relay
    then d
    else if is_ap_created d.state
    then emit d (
        relay_broadcast (
          relay_bye (record {
            bssid = d.network_info.common.bssid;
            ipv4 = (host_node d.network_info).ipv4_address;
          })))
    else if d.relay_joined
    then emit d
        (relay_broadcast (relay_bye (record { bssid = d.join_bssid; ipv4 = d.relay_joined_ip })))
    else d

-- The loop of onSyncNetwork: a connected node has this address.
unfoldable pub lists_node : ℕ → List NodeInfo → Bool
lists_node ip [] = false
lists_node ip (n ∷ ns) = (not (n.is_connected == 0) && n.ipv4_address == ip) || lists_node ip ns

-- (u16)(relaySyncSeq - relaySeq) < 256
abbrev pub is_stale : Discovery → ℕ → Bool
is_stale d seq = d.relay_sync_seq_valid && ltb ((d.relay_sync_seq + 2 ^ 16 - seq) % 2 ^ 16) 256

-- The target test of onSyncNetwork.
abbrev pub is_target : Discovery → NetworkInfo → Bool
is_target d info = d.join_active && info.common.bssid == d.join_bssid

-- onSyncNetwork from the point where the network is taken over
unfoldable pub apply_sync : Env → Discovery → NetworkInfo → Discovery
apply_sync env d info =
    let taken = record d { host_last_seen = env.now; network_info = info } in
    let joined =
      if is_station d.state
      then (if d.join_await_self_ip == 0 || lists_node d.join_await_self_ip info.ldn.nodes
          then send_relay_scope (set_state taken CommState.station_connected)
          else taken)
      else taken in
    publish_session_registry env (on_network_info_changed joined)

-- onSyncNetwork: `seq` is 0 on the TCP path.
unfoldable pub on_sync_network : Env → Discovery → NetworkInfo → ℕ → Discovery
on_sync_network env d info seq =
    if not (is_target d info)
    then d
    else if seq == 0
    then apply_sync env d info
    else if is_stale d seq
    then d
    else apply_sync env (record d { relay_sync_seq = seq; relay_sync_seq_valid = true }) info

-- onDisconnectFromHost
unfoldable pub on_disconnect_from_host : Discovery → DisconnectReason → Discovery
on_disconnect_from_host d reason =
    if is_station_connected d.state
    then set_state (record d { relay_joined = false; disconnect_reason = reason }) CommState.station
    else d

-- LDTcpSocket::onRead of a station: the callback's result is 0 or 1 for -1.
unfoldable pub tcp_on_packet : Env → Discovery → Message → Discovery × ℕ
tcp_on_packet env d (sync_network info) = (on_sync_network env d info 0, 0)
tcp_on_packet env d m = (d, 1)

-- `hostClosed` records whether the read saw the host's orderly shutdown.
unfoldable pub tcp_note_close : Discovery → Bool → Discovery
tcp_note_close d orderly = record d {
  tcp = elim d.tcp [ none ↦ none | some t ↦ some (record t { host_closed = orderly }) ];
}

-- LDTcpSocket::onClose, on its own socket
unfoldable pub tcp_on_close : Discovery → TcpSocket → Discovery
tcp_on_close d t =
    on_disconnect_from_host (record d { tcp = some (record t { is_open = false }) })
      (if t.host_closed then DisconnectReason.destroyed_by_user else DisconnectReason.signal_lost)
