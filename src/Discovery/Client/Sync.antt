-- ===== src/Discovery/Client/Sync.antt =====
-- Which SyncNetwork a station accepts, and when it counts as connected.
use ldn_mitm.Base.{
  ℕ, ◌+◌, ◌-◌, ◌%◌, ◌^◌, ◌<◌, ◌≡◌, ◌≢◌, Bool, true, not, ◌&&◌, ◌||◌, if◌then◌else◌, ◌==◌, arith,
}
use ldn_mitm.Ldn.{CommState, NetworkInfo}
use ldn_mitm.Discovery.{Discovery, Env, emit, set_state}
use ldn_mitm.Discovery.Nodes.Update.{state-settle, network_info-settle, seq-settle}
use ldn_mitm.Discovery.Client.{
  is_station, lists_node, is_stale, is_target, send_relay_scope, apply_sync, on_sync_network,
}

-- The packet is for the network that we join, and is not held back as stale.
abbrev pub accepts : Discovery → NetworkInfo → ℕ → Bool
accepts d info seq = is_target d info && (seq == 0 || not (is_stale d seq))

-- The host's list shows us, or we do not wait for that.
abbrev pub is_registered : Discovery → NetworkInfo → Bool
is_registered d info = d.join_await_self_ip == 0 || lists_node d.join_await_self_ip info.ldn.nodes

apply_sync-fields :
    (env : Env) (d : Discovery) (info : NetworkInfo)
    → ((apply_sync env d info).network_info ≡ info)
      × ((apply_sync env d info).state ≡ (
          if is_station d.state && is_registered d info
          then CommState.station_connected
          else d.state))
unfolding apply_sync
apply_sync-fields env d info =
    rw (network_info-settle env _, state-settle env _)
      (unfold send_relay_scope set_state emit in (ground arith, ground arith))

-- A SyncNetwork replaces the network exactly if it is for the network that we join and not stale;
-- then a station becomes connected exactly if it waits for no registration or the host's list
-- shows its address among the connected nodes, and no other state changes.
pub on_sync_network-accepts :
    (env : Env) (d : Discovery) (info : NetworkInfo) (seq : ℕ)
    → let d' = on_sync_network env d info seq in
      (d'.network_info ≡ (if accepts d info seq then info else d.network_info))
      × (d'.state ≡ (
          if accepts d info seq && is_station d.state && is_registered d info
          then CommState.station_connected
          else d.state))
unfolding on_sync_network
on_sync_network-accepts env d info seq = ground (
  arith,
  apply_sync-fields env d info,
  apply_sync-fields env (record d { relay_sync_seq = seq; relay_sync_seq_valid = true }) info,
)

apply_sync-seq :
    (env : Env) (d : Discovery) (info : NetworkInfo)
    → ((apply_sync env d info).relay_sync_seq ≡ d.relay_sync_seq)
      × ((apply_sync env d info).relay_sync_seq_valid ≡ d.relay_sync_seq_valid)
unfolding apply_sync
apply_sync-seq env d info =
    rw ((seq-settle env _).0, (seq-settle env _).1)
      (unfold send_relay_scope set_state emit in (ground arith, ground arith))

-- After a stamped SyncNetwork was accepted, one that carries the same stamp or one of the 255
-- before it changes nothing, whatever network it describes.
pub on_sync_network-stale :
    (env env' : Env) (d : Discovery) (info info' : NetworkInfo) (seq seq' : ℕ)
    → seq ≢ 0
    → seq' ≢ 0
    → accepts d info seq ≡ true
    → (seq + 2 ^ 16 - seq') % 2 ^ 16 < 256
    → let d' = on_sync_network env d info seq in on_sync_network env' d' info' seq' ≡ d'
unfolding on_sync_network
on_sync_network-stale env env' d info info' seq seq' n n' ok h = ground (
  arith,
  apply_sync-seq env (record d { relay_sync_seq = seq; relay_sync_seq_valid = true }) info,
)
