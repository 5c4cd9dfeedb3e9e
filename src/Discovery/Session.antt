-- ===== src/Discovery/Session.antt =====
-- The calls of the game that begin and end a network: openAccessPoint, createNetworkImpl,
-- destroyNetwork, closeAccessPoint, openStation, disconnect, closeStation, and the queries.
pub mod Teardown
use ldn_mitm.Base.{
  ℕ, zero, suc, ◌+◌, ◌*◌, ◌/◌, List, [], ◌∷◌, ◌++◌, Bool, true, false, not, ◌&&◌, ◌||◌, Option,
  none, some, leb, ltb, if◌then◌else◌, ◌==◌, length, get_or, set, take, drop, replicate,
}
use ldn_mitm.Ldn.{
  CommState, DisconnectReason, NodeInfo, NetworkInfo, NetworkConfig, SessionId, SecurityParameter,
  blank_node, advertise_data_size_max, node_count_max,
}
use ldn_mitm.Registry.{cleared}
use ldn_mitm.GameRx.{clear}
use ldn_mitm.Discovery.{Discovery, Env, TcpSocket, Effect, emit, set_state, reset_stations}
use ldn_mitm.Discovery.Nodes.{update_nodes, init_node_state_change}
use ldn_mitm.Discovery.Client.{in_session, send_relay_bye, send_relay_scope}

-- A Result: success, a module with its description, or an error of the system, whose number only tells
-- the failing call from others (0xF601 alone is a number of the source).
pub data Outcome : Type 0 where
  success : Outcome
  failure : ℕ → ℕ → Outcome
  system_failure : ℕ → Outcome

-- To split on a result: it is a success, or an error that a test for success tells from it.
abbrev pub is_success : Outcome → Bool
is_success success = true
is_success _ = false

abbrev pub module_id : ℕ
module_id = 0xFD

abbrev pub ldn_module_id : ℕ
ldn_module_id = 0xCB

abbrev pub bad_state : Outcome
bad_state = failure ldn_module_id 32

-- SessionRegistry::Clear, with GameRx::Clear
unfoldable pub clear_registry : Discovery → Discovery
clear_registry d = record d { registry = cleared; game_rx = clear d.game_rx }

-- this->tcp->close(), if there is one
unfoldable pub close_tcp : Discovery → Discovery
close_tcp d = record d {
  tcp = elim d.tcp [ none ↦ none | some t ↦ some (record t { is_open = false }) ];
}

-- joinActive = relayJoined = false; joinAwaitSelfIp = 0
unfoldable pub forget_join : Discovery → Discovery
forget_join d = record d { join_active = false; relay_joined = false; join_await_self_ip = 0 }

-- The goodbye, SessionRegistry::Clear, and the part under pollMutex; `turns` is what the worker does
-- between them, where it is not locked out.
unfoldable pub leave : (ℕ → Discovery → Discovery) → (Discovery → Discovery) → Discovery → Discovery
leave turns locked d = locked (turns 1 (clear_registry (turns 0 (send_relay_bye d))))

abbrev pub drop_all : Discovery → Discovery
drop_all d = reset_stations (close_tcp d)

unfoldable pub destroy_network : (ℕ → Discovery → Discovery) → Discovery → Discovery
destroy_network turns d = set_state (turns 2 (leave turns drop_all d)) CommState.access_point

unfoldable pub disconnect : (ℕ → Discovery → Discovery) → Discovery → Discovery
disconnect turns d =
    set_state (turns 3 (forget_join (turns 2 (leave turns close_tcp d)))) CommState.station

abbrev pub is_none_state : CommState → Bool
is_none_state CommState.none = true
is_none_state _ = false

unfoldable pub close_access_point : (ℕ → Discovery → Discovery) → Discovery → Discovery × Outcome
close_access_point turns d =
    if is_none_state d.state
    then (d, bad_state)
    else (set_state (turns 2 (leave turns drop_all d)) CommState.initialized, success)

-- no goodbye here
unfoldable pub close_station : (ℕ → Discovery → Discovery) → Discovery → Discovery × Outcome
close_station turns d = if is_none_state d.state then (d, bad_state) else (
  set_state (turns 1 (drop_all (turns 0 (clear_registry d)))) CommState.initialized,
  success,
)

-- `refresh` is refreshNetworkSession, with its result.
unfoldable pub open_access_point :
    (Discovery → Discovery × Outcome)
    → (ℕ → Discovery → Discovery)
    → Discovery
    → Discovery × Outcome
open_access_point refresh turns d =
    let d' = record d { disconnect_reason = DisconnectReason.none } in
    if is_none_state d.state
    then (d', bad_state)
    else (let (d'', rc) = refresh d' in
        elim rc [
          | success ↦ (set_state (turns 0 (drop_all d'')) CommState.access_point, success)
          | other ↦ (d'', other)
        ])

unfoldable pub open_station :
    (Discovery → Discovery × Outcome)
    → (ℕ → Discovery → Discovery)
    → Discovery
    → Discovery × Outcome
open_station refresh turns d =
    let d' = record d { disconnect_reason = DisconnectReason.none } in
    if is_none_state d.state
    then (d', bad_state)
    else (let (d'', rc) = refresh d' in
        elim rc [
          | success ↦ (
            set_state (turns 1 (forget_join (turns 0 (drop_all d'')))) CommState.station,
            success,
          )
          | other ↦ (d'', other)
        ])

-- getFakeMac: 02 00, and the address as it lies in memory
abbrev pub fake_mac : ℕ → ℕ
fake_mac ip = 2 + 65536 * ip

abbrev eight_digits : List ℕ
eight_digits = b'1' ∷ b'2' ∷ b'3' ∷ b'4' ∷ b'5' ∷ b'6' ∷ b'7' ∷ b'8' ∷ []

-- FakeSsid
abbrev pub fake_ssid : List ℕ
fake_ssid = eight_digits ++ eight_digits ++ eight_digits ++ eight_digits

-- initNetworkInfo's loop over the nodes
unfoldable pub number_nodes : ℕ → List NodeInfo → List NodeInfo
number_nodes i [] = []
number_nodes i (n ∷ ns) = record n { node_id = i; is_connected = 0 } ∷ number_nodes (suc i) ns

unfoldable pub init_network_info : ℕ → NetworkInfo → NetworkInfo
init_network_info ip info = record info {
  common = record info.common {
    bssid = fake_mac ip;
    channel = 6;
    link_level = 3;
    network_type = 2;
    ssid = fake_ssid;
  };
  ldn = record info.ldn { nodes = number_nodes 0 info.ldn.nodes };
}

-- getNodeInfo, with the address that it asked for
unfoldable pub fill_node_info : ℕ → List ℕ → ℕ → NodeInfo → NodeInfo
fill_node_info ip user_name version node = record node {
  mac_address = fake_mac ip;
  is_connected = 1;
  user_name = user_name;
  local_communication_version = version;
  ipv4_address = ip;
}

-- The network that createNetworkImpl fills in: `session` is the one of the link code, or random.
unfoldable pub new_network :
    ℕ → ℕ → List ℕ → NetworkConfig → SessionId → Option (List ℕ) → NetworkInfo → NetworkInfo
new_network ip security_mode user_name config session unk_random old =
    let info = init_network_info ip old in
    record info {
      common = record info.common { channel = if config.channel == 0 then 6 else config.channel };
      session_id = session;
      intent_id = config.intent_id;
      ldn = record info.ldn {
        node_count_limit = config.node_count_limit;
        security_mode = security_mode;
        unk_random = elim unk_random [ none ↦ info.ldn.unk_random | some r ↦ r ];
        nodes = set info.ldn.nodes 0 (
            fill_node_info ip user_name config.local_communication_version
              (get_or info.ldn.nodes 0 blank_node));
      };
    }

abbrev pub is_access_point : CommState → Bool
is_access_point CommState.access_point = true
is_access_point _ = false

-- createNetworkImpl. `tcp_rc` is initTcp's result; with no security parameter the session id is the
-- random one that is given. Where the address is missing getFakeMac has written its first two bytes.
-- initTcp closes the old socket even where it fails.
unfoldable pub create_network :
    Env
    → Discovery
    → Outcome
    → ℕ
    → List ℕ
    → NetworkConfig
    → SessionId
    → Option SecurityParameter
    → Discovery × Outcome
create_network env d tcp_rc security_mode user_name config random parameter =
    if not (is_access_point d.state) then (d, bad_state) else elim tcp_rc [
      | success ↦
          let d' = record d { tcp = some (record { is_open = true; host_closed = false }) } in
          elim env.ip_address [
            | none ↦ (
              record d' {
                network_info = record d.network_info {
                  common = record d.network_info.common {
                    bssid = 2 + d.network_info.common.bssid / 65536 * 65536;
                  };
                };
              },
              system_failure 0,
            )
            | some ip ↦
                let info =
                  new_network ip security_mode user_name config
                    (elim parameter [ none ↦ random | some p ↦ p.session_id ])
                    (elim parameter [ none ↦ none | some p ↦ some p.unk_random ]) d.network_info in
                let created =
                  set_state (record d' { network_info = info }) CommState.access_point_created in
                (update_nodes env (init_node_state_change (send_relay_scope created)), success)
          ]
      | other ↦ (close_tcp d, other)
    ]

-- setAdvertiseData, on a buffer that is not null unless it is empty
unfoldable pub set_advertise_data : Env → Discovery → List ℕ → Discovery × Outcome
set_advertise_data env d bytes =
    if ltb advertise_data_size_max (length bytes) then (d, failure module_id 10) else (
      update_nodes env (record d {
        network_info = record d.network_info {
          ldn = record d.network_info.ldn { advertise_data = bytes };
        };
      }),
      success,
    )

-- getNetworkInfo
unfoldable pub get_network_info : Discovery → Option NetworkInfo
get_network_info d = if in_session d.state then some d.network_info else none

-- getNetworkInfo with updates: the first `bufferCount` changes are handed out and reset.
unfoldable pub get_network_info_latest :
    Discovery → ℕ → Discovery × Outcome × Option (NetworkInfo × List ℕ)
get_network_info_latest d buffer_count =
    if ltb node_count_max buffer_count
    then (d, failure module_id 50, none)
    else if in_session d.state
    then (
      record d { node_changes = replicate buffer_count 0 ++ drop buffer_count d.node_changes },
      success,
      some (d.network_info, take buffer_count d.node_changes),
    )
    else (d, bad_state, none)
