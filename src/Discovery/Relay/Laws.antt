-- ===== src/Discovery/Relay/Laws.antt =====
-- What a shared relay's other sessions can do to ours.
use ldn_mitm.Base.{ℕ, ◌≡◌, ◌≢◌, false, arith}
use ldn_mitm.Discovery.{
  Discovery, Env, Message, scan, scan_resp, sync_network, connect, relay_heartbeat, relay_bye, emit,
}
use ldn_mitm.Discovery.Host.{is_hosting}
use ldn_mitm.Discovery.Client.{on_sync_network}
use ldn_mitm.Discovery.Relay.{
  relay_on_scan, relay_on_scan_resp, relay_on_sync, relay_on_heartbeat, relay_on_bye, relay_on_read,
}

-- A packet that does not concern a session of ours: neither the one we host nor the one we joined. A
-- Connect names no session; it concerns a host alone.
abbrev pub IsForeign : Discovery → Message → Type 0
IsForeign d (sync_network info) = info.common.bssid ≢ d.join_bssid
IsForeign d (relay_heartbeat hb) = hb.bssid ≢ d.network_info.common.bssid
IsForeign d (relay_bye bye) = (bye.bssid ≢ d.network_info.common.bssid) × (bye.bssid ≢ d.join_bssid)
IsForeign d (connect info) = is_hosting d.state ≡ false
IsForeign d m = Unit {0}

-- A relayed SyncNetwork of another session than the one we join, a heartbeat of another than ours, a
-- goodbye of neither, a Connect while we are not hosting, and any scan, answer to a scan or bad packet
-- change neither our state, nor the network, nor a station, nor the published peers.
pub relay_on_read-IsForeign :
    (env : Env) (d : Discovery) (m : Message) (seq : ℕ)
    → IsForeign d m
    → let d' = relay_on_read env d m seq in
      (d'.state ≡ d.state)
      × (d'.network_info ≡ d.network_info)
      × (d'.stations ≡ d.stations)
      × (d'.registry ≡ d.registry)
unfolding relay_on_read relay_on_scan relay_on_scan_resp relay_on_sync relay_on_heartbeat
    relay_on_bye on_sync_network emit
relay_on_read-IsForeign env d scan seq f = ground arith
relay_on_read-IsForeign env d (scan_resp info) seq f = ground arith
relay_on_read-IsForeign env d (connect info) seq f = ground arith
relay_on_read-IsForeign env d (sync_network info) seq f = ground arith
relay_on_read-IsForeign env d (relay_heartbeat hb) seq f = ground arith
relay_on_read-IsForeign env d (relay_bye bye) seq f = ground arith
relay_on_read-IsForeign env d Message.malformed seq f = ground arith
relay_on_read-IsForeign env d Message.bad_connect seq f = ground arith
relay_on_read-IsForeign env d Message.unknown seq f = ground arith
