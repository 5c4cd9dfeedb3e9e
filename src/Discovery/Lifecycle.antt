-- ===== src/Discovery/Lifecycle.antt =====
-- LANDiscovery::initialize, finalize and refreshNetworkSession, with NifmSessionManager of
-- ldn_mitm/source/nifm_manager.cpp and the network profile's MTU. The answers of the nifm, socket and
-- thread calls are arguments.
pub mod RelaySession
pub mod Ended
pub mod Restore
use ldn_mitm.Base.{
  ℕ, zero, suc, ◌+◌, ◌-◌, List, [], ◌∷◌, Bool, true, false, not, ◌&&◌, ◌||◌, Option, none, some,
  ltb, if◌then◌else◌, ◌==◌, map,
}
use ldn_mitm.Ldn.{CommState}
use ldn_mitm.Discovery.{Discovery, Station, UdpSocket, set_state, reset, reset_stations}
use ldn_mitm.Discovery.Session.{
  Outcome, success, failure, system_failure, is_success, clear_registry,
}

-- The system state that a session holds: nifm sessions, the profile's MTU, the open request. The relay
-- transport holds a session of its own (its m_have_nifm_session).
pub record Nifm : Type 0 where
  pub sessions : ℕ
  pub mtu : ℕ
  pub original_mtu : ℕ
  pub request_open : Bool
  pub relay_session : Bool

-- NifmSessionManager::Acquire, with nifmInitialize's answer
unfoldable pub acquire : Nifm → Bool → Nifm × Bool
acquire n ok =
    if n.sessions == 0 && not ok then (n, false) else (record n { sessions = n.sessions + 1 }, true)

-- NifmSessionManager::Release; an unbalanced call changes nothing.
unfoldable pub release : Nifm → Nifm
release n = if n.sessions == 0 then n else record n { sessions = n.sessions - 1 }

-- The calls that initialize makes, in their order: `true` is success.
pub record Answers : Type 0 where
  pub nifm_init : Bool
  pub get_profile : Bool
  pub set_profile : Bool
  pub create_request : Bool
  pub local_mode : Bool
  pub submit : Bool
  pub udp_rc : Outcome
  pub relay : Bool
  pub thread : Bool
  -- the reading and the writing of the profile in restoreMtu
  pub restore_get : Bool
  pub restore_set : Bool

abbrev pub desired_mtu : ℕ → ℕ
desired_mtu mtu = if mtu == 0 || ltb 1500 mtu then 1500 else mtu

-- The `restoreMtu` lambda, if the MTU was changed.
unfoldable pub restore_mtu : Answers → Bool → Nifm → Nifm
restore_mtu a changed n =
    if changed && a.restore_get && a.restore_set then record n { mtu = n.original_mtu } else n

-- nifmRequestCancel and nifmRequestClose
abbrev pub close_request : Nifm → Nifm
close_request n = record n { request_open = false }

abbrev pub InitResult : Type 0
InitResult = Nifm × Discovery × Outcome

-- An error path after the request was made: cancel and close it, and restore the MTU.
abbrev pub give_up : Answers → Bool → Nifm → Discovery → Outcome → InitResult
give_up a changed n d rc = (restore_mtu a changed (close_request n), d, rc)

-- What RelayTransport::Open leaves of its nifm session (RelayLink has its steps): it stays if Open
-- succeeds, as `a.relay` says, and otherwise Close gives it back.
unfoldable pub open_relay : Answers → Nifm → Nifm × Bool
open_relay a n =
    let (held, ok) = acquire n a.nifm_init in
    if not ok
    then (n, false)
    else if a.relay
    then (record held { relay_session = true }, true)
    else (release held, false)

-- relay.reset(): the transport's destructor closes it.
unfoldable pub close_relay : Nifm → Nifm
close_relay n = if n.relay_session then record (release n) { relay_session = false } else n

-- The relay socket of the session: a new one takes the place of one that was left, and goes again if it
-- cannot be opened. Without the relay it stays what it was.
unfoldable pub start_relay : Answers → Bool → Nifm → Bool → Nifm × Bool
start_relay a use_relay n before = if use_relay then open_relay a (close_relay n) else (n, before)

-- initialize from initUdp's success on: the relay transport, and the worker thread. If there is no
-- thread, the relay transport stays open.
unfoldable pub start_worker : Answers → Bool → Bool → Nifm → Discovery → InitResult
start_worker a use_relay changed n d =
    let (n', relay) = start_relay a use_relay n d.relay in
    let with_udp = record d {
      udp = some (record { is_open = true; scan_results = []; self_ip = 0 });
      relay = relay;
    } in
    if a.thread
    then (n', record (set_state with_udp CommState.initialized) { initialized = true }, success)
    else give_up a changed n' (record with_udp { udp = none }) (system_failure 0xF601)

-- initialize from the request on
unfoldable pub init_session : Answers → Bool → Bool → Nifm → Discovery → InitResult
init_session a use_relay changed n d =
    let asked = record n { request_open = true } in
    let latched = record d { init_relay = use_relay; needs_reinit = false } in
    if not a.create_request
    then (restore_mtu a changed n, d, system_failure 0)
    else if not use_relay && not a.local_mode
    then give_up a changed asked latched (system_failure 1)
    else if not a.submit
    then give_up a changed asked latched (system_failure 2)
    else if not (is_success a.udp_rc)
    then give_up a changed asked (reset_stations latched) a.udp_rc
    else start_worker a use_relay changed asked (reset_stations latched)

-- The guard of initialize: any error path gives the nifm session back.
abbrev pub guarded : InitResult → InitResult
guarded (n, d, rc) = if is_success rc then (n, d, rc) else (release n, d, rc)

-- initialize. `use_relay` is relay::IsEnabled().
unfoldable pub initialize : Answers → Bool → Nifm → Discovery → InitResult
initialize a use_relay n d =
    if d.initialized
    then (n, d, success)
    else (let (held, ok) = acquire n a.nifm_init in
        let saved = record held { original_mtu = held.mtu } in
        let wanted = desired_mtu held.mtu in
        let changed = not (wanted == held.mtu) in
        if not ok
        then (n, d, system_failure 3)
        else if not a.get_profile
        then (release held, d, system_failure 4)
        else if changed && not a.set_profile
        then (release saved, d, system_failure 5)
        else guarded (init_session a use_relay changed (record saved { mtu = wanted }) d))

-- finalize: `turn` is what the worker still does before it has been joined, and `n` what the system holds
-- then. `get_profile` and `set_profile` are the answers of the
-- two profile calls; that of nifmRequestCancel is overwritten by theirs.
unfoldable pub finalize :
    (Discovery → Discovery) → Bool → Bool → Nifm → Discovery → Nifm × Discovery × Outcome
finalize turn get_profile set_profile n d =
    if d.initialized
    then (let torn = reset_stations (record (turn (clear_registry d)) {
      udp = none;
      tcp = none;
      relay = false;
      initialized = false;
    }) in
        let closed = close_request (close_relay n) in
        let restored =
          if get_profile && set_profile && not (n.mtu == n.original_mtu)
          then record closed { mtu = n.original_mtu }
          else closed in
        (
          release restored,
          set_state torn CommState.none,
          if not get_profile
              then system_failure 0
              else if not (n.mtu == n.original_mtu)
              then (if set_profile then success else system_failure 1)
              else success,
        ))
    else (n, set_state d CommState.none, success)

-- initRelay != relay::IsEnabled()
abbrev differs : Bool → Bool → Bool
differs true b = not b
differs false b = b

-- refreshNetworkSession: nothing to do unless the relay was toggled or the sockets died.
unfoldable pub refresh_network_session :
    Answers
    → Bool
    → (Discovery → Discovery)
    → Bool
    → Bool
    → Nifm
    → Discovery
    → Nifm × Discovery × Outcome
refresh_network_session a use_relay turn get_profile set_profile n d =
    if not d.initialized || (not (differs d.init_relay use_relay) && not d.needs_reinit)
    then (n, d, success)
    else (let (n', d', rc) = finalize turn get_profile set_profile n d in
        initialize a use_relay n' d')
