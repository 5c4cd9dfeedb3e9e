-- ===== src/Ipc.antt =====
-- The commands of ICommunicationService in ldn_mitm/source/ldn_icommunication.cpp that keep state of
-- their own or answer from LANDiscovery's. Commands that only forward to an operation of Discovery
-- (open, close, create, connect, scan) pass through `run`.
pub mod Created
use ldn_mitm.Base.{
  ℕ, zero, suc, ◌+◌, ◌*◌, List, [], ◌∷◌, Bool, true, false, not, ◌&&◌, Option, none, some,
  if◌then◌else◌, ◌==◌,
}
use ldn_mitm.Ldn.{
  CommState, DisconnectReason, NetworkInfo, NetworkConfig, SecurityParameter, to_network_config,
  to_security_parameter,
}
use ldn_mitm.Discovery.{Discovery, Env, Effect, lan_event}
use ldn_mitm.Discovery.Session.{
  Outcome, success, failure, system_failure, bad_state, get_network_info,
}
use ldn_mitm.Discovery.Lifecycle.{Nifm, acquire, release, Answers, initialize, finalize}

-- `event` is state_event: none is null, and otherwise whether it is signalled.
pub record Service : Type 0 where
  pub lan : Discovery
  pub nifm : Nifm
  pub event : Option Bool
  pub error_state : ℕ

-- onEventFired
abbrev pub on_event_fired : Option Bool → Option Bool
on_event_fired none = none
on_event_fired (some signalled) = some true

-- how often the callback given to initialize has been called
unfoldable pub events_of : List Effect → ℕ
events_of [] = 0
events_of (lan_event ∷ es) = suc (events_of es)
events_of (_ ∷ es) = events_of es

-- An operation of LANDiscovery, which may call back.
unfoldable pub run : Service → Discovery → Service
run s d = record s {
  lan = d;
  event = if events_of d.sent == events_of s.lan.sent then s.event else on_event_fired s.event;
}

-- a new event is not signalled
abbrev pub made_event : Option Bool → Option Bool
made_event none = some false
made_event (some signalled) = some signalled

-- Initialize
unfoldable pub initialize_service : Answers → Bool → Service → Service × Outcome
initialize_service a use_relay s =
    let with_event : Service = record s { event = made_event s.event } in
    let (n, d, rc) = initialize a use_relay s.nifm s.lan in
    (record (run with_event d) { nifm = n }, rc)

-- InitializeSystem2
unfoldable pub initialize_system2 : Answers → Bool → ℕ → Service → Service × Outcome
initialize_system2 a use_relay unk s =
    initialize_service a use_relay (record s { error_state = unk })

-- Finalize: the event is deleted whatever finalize returns.
unfoldable pub finalize_service :
    (Discovery → Discovery) → Bool → Bool → Service → Service × Outcome
finalize_service turn get_profile set_profile s =
    let (n, d, rc) = finalize turn get_profile set_profile s.nifm s.lan in
    (record s { lan = d; nifm = n; event = none }, rc)

-- the numbers of the enums
abbrev pub state_code : CommState → ℕ
state_code CommState.none = 0
state_code CommState.initialized = 1
state_code CommState.access_point = 2
state_code CommState.access_point_created = 3
state_code CommState.station = 4
state_code CommState.station_connected = 5
state_code CommState.error = 6

abbrev pub reason_code : DisconnectReason → ℕ
reason_code DisconnectReason.none = 0
reason_code DisconnectReason.disconnected_by_user = 1
reason_code DisconnectReason.disconnected_by_system = 2
reason_code DisconnectReason.destroyed_by_user = 3
reason_code DisconnectReason.destroyed_by_system = 4
reason_code DisconnectReason.rejected = 5
reason_code DisconnectReason.signal_lost = 6

-- GetState: the state, and the result, which tells the reason to a service opened with error_state.
unfoldable pub get_state : Service → ℕ × Outcome
get_state s = (
  state_code s.lan.state,
  if not (s.error_state == 0) && not (reason_code s.lan.disconnect_reason == 0)
      then failure 0x10 (reason_code s.lan.disconnect_reason)
      else success,
)

-- GetDisconnectReason
unfoldable pub get_disconnect_reason : Service → ℕ
get_disconnect_reason s = reason_code s.lan.disconnect_reason

-- GetIpv4Address: a nifm session is held for the call; `config` is nifmGetCurrentIpConfigInfo's answer.
unfoldable pub get_ipv4_address : Bool → Option (ℕ × ℕ) → Service → Service × Option (ℕ × ℕ)
get_ipv4_address nifm_init config s =
    let (held, ok) = acquire s.nifm nifm_init in
    if ok then (record s { nifm = release held }, config) else (s, none)

-- the answers of getNetworkInfo, as a function of them
abbrev pub answered : {A : Type 0} → (NetworkInfo → A) → Option NetworkInfo → Option A
answered f none = none
answered f (some info) = some (f info)

-- GetSecurityParameter and GetNetworkConfig
unfoldable pub get_security_parameter : Service → Option SecurityParameter
get_security_parameter s = answered to_security_parameter (get_network_info s.lan)

unfoldable pub get_network_config : Service → Option NetworkConfig
get_network_config s = answered to_network_config (get_network_info s.lan)

-- AttachStateChangeEvent: the event's readable handle; `none` is a null event, which is dereferenced.
unfoldable pub attach_state_change_event : Service → Option Bool
attach_state_change_event s = s.event
