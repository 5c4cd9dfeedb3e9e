-- ===== src/Tests/Lan.antt =====
-- Sessions: a join, a loss, an end.
use Prim.{tt}
use ldn_mitm.Base.{ℕ, ◌+◌, ◌≡◌, ◌⊎◌, refl, ◌≤◌, [], ◌∷◌, true, false, none, some, arith}
use ldn_mitm.Ldn.{CommState}
use ldn_mitm.Discovery.{Discovery, Env, Message, relay_bye, emit, set_state}
use ldn_mitm.Discovery.Nodes.{
  station_count, connected_count, update_nodes, publish_with, on_network_info_changed, track,
  init_node_state_change,
}
use ldn_mitm.Discovery.Nodes.Update.{Agrees, update_nodes-Agrees}
use ldn_mitm.Discovery.Nodes.Changes.{flags, on_network_info_changed_once}
use ldn_mitm.Discovery.Host.{is_hosting, on_relay_connect}
use ldn_mitm.Discovery.Host.Joins.{
  is_known, IsSeated, station_count-on_relay_connect, is_known-on_relay_connect,
}
use ldn_mitm.Discovery.Client.{
  on_sync_network, is_station_connected, apply_sync, send_relay_scope, lists_node,
}
use ldn_mitm.Discovery.Client.Sync.{on_sync_network-accepts, on_sync_network-stale}
use ldn_mitm.Discovery.Relay.{
  any_station, is_relay_station, relay_on_heartbeat, relay_on_read, relay_on_close,
}
use ldn_mitm.Discovery.Relay.Laws.{relay_on_read-IsForeign}
use ldn_mitm.Discovery.Worker.{reap, is_silent}
use ldn_mitm.Discovery.Worker.Liveness.{any_station-reap, heartbeat-reap}
use ldn_mitm.Discovery.Session.{success, is_success, destroy_network, disconnect}
use ldn_mitm.Discovery.Session.Teardown.{teardown-Reach}
use ldn_mitm.Discovery.Run.{from_relay, relay_closed, here, after}
use ldn_mitm.Discovery.Join.{
  TcpAttempt, connect_to, after_relay, join_relay, await_sync, set_target,
}
use ldn_mitm.Discovery.Join.Outcomes.{connect_to-Honest}
use ldn_mitm.Discovery.Lifecycle.{
  Nifm, Answers, acquire, release, open_relay, close_relay, start_relay, start_worker, init_session,
  initialize, finalize,
}
use ldn_mitm.Discovery.Lifecycle.RelaySession.{held, close_relay-SameButRelay}
use ldn_mitm.Discovery.Lifecycle.Restore.{initialize-Back, finalize-initialize}
use ldn_mitm.Tests.Fixtures.{
  guest_ip, lan_env, idle, hosting, with_guest, joining, hosted, joined, guest_info, guest_beat,
}

abbrev hosting-IsSeated : IsSeated hosting
hosting-IsSeated = record {
  numbered = (refl, (refl, (refl, (refl, (refl, (refl, (refl, tt)))))));
  stations_length = refl;
  nodes_length = refl;
}

-- The guest takes the first slot.
is_known-on_relay_connect_example :
    let d' = on_relay_connect (lan_env 1000) hosting guest_info in
    is_known d'.network_info.ldn.nodes guest_ip d'.stations ≡ true
unfolding station_count
is_known-on_relay_connect_example =
    is_known-on_relay_connect (lan_env 1000) hosting guest_info hosting-IsSeated (omega arith)

station_count-on_relay_connect_example :
    station_count (on_relay_connect (lan_env 1000) hosting guest_info).stations ≡ 1
unfolding station_count is_known
station_count-on_relay_connect_example =
    station_count-on_relay_connect (lan_env 1000) hosting guest_info hosting-IsSeated

-- The guest, waiting for its registration, gets the list that shows it.
on_sync_network-accepts_example :
    let d' = on_sync_network (lan_env 1000) joining joined 5 in
    (d'.network_info ≡ joined) × (d'.state ≡ CommState.station_connected)
unfolding lists_node
on_sync_network-accepts_example = on_sync_network-accepts (lan_env 1000) joining joined 5

on_sync_network-stale_example :
    let d' = on_sync_network (lan_env 1000) joining joined 5 in
    on_sync_network (lan_env 1010) d' hosted 65530 ≡ d'
on_sync_network-stale_example =
    on_sync_network-stale (lan_env 1000) (lan_env 1010) joining joined hosted 5 65530 (omega arith)
      (omega arith) refl (omega arith)

update_nodes-Agrees_example :
    Agrees (update_nodes (lan_env 1000) with_guest).network_info.ldn.nodes with_guest.stations
    × ((update_nodes (lan_env 1000) with_guest).network_info.ldn.node_count ≡ 2)
    × ((update_nodes (lan_env 1000) with_guest).network_info.ldn.node_count ≤ 8)
unfolding connected_count
update_nodes-Agrees_example =
    update_nodes-Agrees (lan_env 1000) with_guest
      (refl, (refl, (refl, (refl, (refl, (refl, (refl, tt))))))) refl refl

on_network_info_changed_once_example :
    ((on_network_info_changed hosting).node_last_states ≡ flags hosted.ldn.nodes)
    × (on_network_info_changed (on_network_info_changed hosting) ≡ on_network_info_changed hosting)
on_network_info_changed_once_example =
    on_network_info_changed_once hosting (record { changes_length = refl; lasts_length = refl })

-- The guest was last heard at 1000 ms.
any_station-reap_example :
    any_station (is_silent 31000) (reap (lan_env 31000) with_guest).stations ≡ false
any_station-reap_example = any_station-reap (lan_env 31000) with_guest refl

heartbeat-reap_example :
    any_station
      (is_relay_station joined.ldn.nodes guest_ip)
      (reap (lan_env 40000) (relay_on_heartbeat (lan_env 20000) with_guest guest_beat)).stations
    ≡ true
unfolding any_station
heartbeat-reap_example =
    heartbeat-reap (lan_env 20000) (lan_env 40000) with_guest guest_beat refl refl (omega arith)
      refl

-- The worker closes the relay transport in one of the gaps, and the guest's goodbye arrives afterwards.
abbrev gap : ℕ → Discovery → Discovery
gap j d = relay_on_close d

abbrev late_bye : Message
late_bye = relay_bye (record { bssid = 7; ipv4 = guest_ip })

abbrev torn_down : Discovery
torn_down = destroy_network gap with_guest

abbrev left : Discovery
left = disconnect gap with_guest

teardown-Reach_example :
    (is_hosting (relay_on_read (lan_env 1000) torn_down late_bye 3).state ≡ false)
    × (is_station_connected (relay_on_read (lan_env 1000) left late_bye 3).state ≡ false)
    × ((relay_on_read (lan_env 1000) left late_bye 3).join_active ≡ false)
teardown-Reach_example =
    teardown-Reach gap with_guest (relay_on_read (lan_env 1000) torn_down late_bye 3)
      (relay_on_read (lan_env 1000) left late_bye 3) (λ j x. after x x _ (here x) (relay_closed x))
      (after torn_down torn_down _ (here torn_down)
        (from_relay (lan_env 1000) torn_down late_bye 3 tt))
      (after left left _ (here left) (from_relay (lan_env 1000) left late_bye 3 tt))

-- The host's SyncNetwork arrives in the first sleep of the relay's wait.
abbrev sync_turn : ℕ → Discovery → Discovery
sync_turn j d = on_sync_network (lan_env 1000) d joined 5

abbrev guest_env : Env
guest_env = record {
  now = 900;
  ip_address = some guest_ip;
  ip_config = some (guest_ip, 0xFFFFFF00);
}

abbrev no_tcp : TcpAttempt
no_tcp = record { init_rc = success; reached = false; sent = false }

abbrev ready : Discovery
ready = record idle { state = CommState.station }

connect_to-Honest_example :
    is_station_connected
      (connect_to guest_env guest_env sync_turn
        (λ j d. d)
        no_tcp
        ready
        hosted
        (0x42 ∷ [])
        0).0.state
    ≡ true
unfolding connect_to after_relay join_relay await_sync emit init_node_state_change set_target
    on_sync_network apply_sync publish_with on_network_info_changed track lists_node
    send_relay_scope set_state
connect_to-Honest_example =
    connect_to-Honest guest_env guest_env sync_turn (λ j d. d) no_tcp ready hosted (0x42 ∷ []) 0
      refl

-- A profile with a jumbo MTU; the request cannot be submitted.
abbrev jumbo : Nifm
jumbo = record {
  sessions = 0;
  mtu = 9000;
  original_mtu = 0;
  request_open = false;
  relay_session = false;
}

abbrev refused : Answers
refused = record {
  nifm_init = true;
  get_profile = true;
  set_profile = true;
  create_request = true;
  local_mode = true;
  submit = false;
  udp_rc = success;
  relay = true;
  thread = true;
  restore_get = true;
  restore_set = true;
}

abbrev down : Discovery
down = record idle { initialized = false; state = CommState.none; udp = none; relay = false }

initialize-Back_example :
    let (n', d', rc) = initialize refused true jumbo down in
    (is_success rc ≡ true)
    ⊎ ((n'.sessions + held jumbo ≡ 0 + held n')
        × (n'.mtu ≡ 9000)
        × (n'.request_open ≡ false)
        × ((refused.thread ≡ false) ⊎ (n'.relay_session ≡ false)))
initialize-Back_example = initialize-Back refused true jumbo down refl refl refl (omega arith)

-- The same with all calls successful, the relay included, and then finalize
abbrev accepted : Answers
accepted = record refused { submit = true }

accepted_succeeds : is_success (initialize accepted true jumbo down).2 ≡ true
unfolding initialize init_session start_worker start_relay open_relay close_relay acquire release
accepted_succeeds = refl

-- the session in use, and the system after the relay transport was closed
abbrev in_use : Nifm
in_use = (initialize accepted true jumbo down).0

held-in_use : held in_use ≤ in_use.sessions
unfolding initialize init_session start_worker start_relay open_relay close_relay acquire release
held-in_use = omega arith

finalize-initialize_example :
    let (n', d', rc) = finalize relay_on_close true true (close_relay in_use) with_guest in
    (n'.sessions + held jumbo ≡ 0)
    × (n'.mtu ≡ 9000)
    × (n'.request_open ≡ false)
    × (n'.relay_session ≡ false)
    × (is_success rc ≡ true)
finalize-initialize_example =
    finalize-initialize accepted true relay_on_close jumbo (close_relay in_use) down with_guest refl
      refl (omega arith) accepted_succeeds (close_relay-SameButRelay in_use held-in_use) refl

-- A host hears another session's goodbye.
relay_on_read-IsForeign_example :
    let d' =
      relay_on_read
        (lan_env 1000)
        with_guest
        (relay_bye (record { bssid = 8; ipv4 = guest_ip }))
        3 in
    (d'.state ≡ with_guest.state)
    × (d'.network_info ≡ with_guest.network_info)
    × (d'.stations ≡ with_guest.stations)
    × (d'.registry ≡ with_guest.registry)
relay_on_read-IsForeign_example =
    relay_on_read-IsForeign (lan_env 1000) with_guest
      (relay_bye (record { bssid = 8; ipv4 = guest_ip })) 3 (omega arith, omega arith)
