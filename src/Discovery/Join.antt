-- ===== src/Discovery/Join.antt =====
-- LANDiscovery::scan, connect and connectPrivate. They sleep while the worker handles packets: what
-- happens in the j-th sleep is an argument, `turn j`.
pub mod Outcomes
use ldn_mitm.Base.{
  ℕ, zero, suc, ◌+◌, ◌-◌, ◌%◌, List, [], ◌∷◌, Bool, true, false, not, ◌&&◌, ◌||◌, Option, none,
  some, ltb, if◌then◌else◌, ◌==◌, length,
}
use ldn_mitm.Ldn.{CommState, NodeInfo, NetworkInfo, SessionId, IntentId, blank_node, host_node}
use ldn_mitm.Ldn.Filter.{ScanFilter, select, flag_session_id}
use ldn_mitm.Discovery.{
  Discovery, Env, UdpSocket, Message, scan, connect, Effect, relay_broadcast, udp_broadcast,
  tcp_send, emit,
}
use ldn_mitm.Discovery.Nodes.{init_node_state_change}
use ldn_mitm.Discovery.Client.{is_station_connected}
use ldn_mitm.Discovery.Session.{
  Outcome, success, failure, system_failure, is_success, module_id, ldn_module_id, fill_node_info,
  close_tcp,
}

abbrev pub connect_failed : Outcome
connect_failed = failure ldn_module_id 64

-- scan's Scan packets of round j, to the LAN and to the relay
unfoldable pub send_scan : Discovery → Discovery
send_scan d =
    let d' = emit d (udp_broadcast scan) in if d.relay then emit d' (relay_broadcast scan) else d'

abbrev pub results : Discovery → List NetworkInfo
results d = elim d.udp [ none ↦ [] | some u ↦ u.scan_results ]

-- The rounds of scan: it stops when the number of results was the same, and not 0, twice running.
unfoldable pub scan_rounds : (ℕ → Discovery → Discovery) → ℕ → ℕ → ℕ → ℕ → Discovery → Discovery
scan_rounds turn j zero last stable d = d
scan_rounds turn j (suc rounds) last stable d =
    let sent = if j % 3 == 0 then send_scan d else d in
    let waited = turn j sent in
    let cur = length (results waited) in
    let again = ltb 0 cur && cur == last in
    let stop = again && stable == 1 in
    let rest = scan_rounds turn (j + 1) rounds cur (if again then stable + 1 else 0) waited in
    if stop then waited else rest

-- scan: `count` is the size of the caller's array. The failure of the very first send is `sends`.
unfoldable pub run_scan :
    Env
    → (ℕ → Discovery → Discovery)
    → Bool
    → Discovery
    → ℕ
    → ScanFilter
    → Discovery × Outcome × List NetworkInfo
run_scan env turn sends d count filter =
    if not d.initialized then (d, failure module_id 20, []) else elim d.udp [
      | none ↦ (d, failure module_id 20, [])
      | some u ↦
          let ready = record d {
            udp = some (record u {
              scan_results = [];
              self_ip = elim env.ip_address [ none ↦ 0 | some ip ↦ ip ];
            });
          } in
          if not sends
          then (ready, failure module_id 20, [])
          else (let done = scan_rounds turn 0 10 0 0 ready in
              (done, success, select count filter (results done)))
    ]

-- The wait for the host's SyncNetwork, `rounds` sleeps at most. `resend` is what the relay path
-- does every 500 ms.
unfoldable pub await_sync :
    (ℕ → Discovery → Discovery) → (Discovery → Discovery) → ℕ → ℕ → Discovery → Discovery × Bool
await_sync turn resend j zero d = (d, false)
await_sync turn resend j (suc rounds) d =
    let rest =
      await_sync turn resend (j + 1) rounds (turn j (if j % 50 == 49 then resend d else d)) in
    if is_station_connected d.state then (d, true) else rest

-- The system's part of the TCP join: initTcp, the bounded connect, and the send of the Connect.
pub record TcpAttempt : Type 0 where
  pub init_rc : Outcome
  pub reached : Bool
  pub sent : Bool

abbrev pub wait_rounds : ℕ
wait_rounds = 300

abbrev pub my_node : ℕ → List ℕ → ℕ → NodeInfo
my_node ip user_name version = fill_node_info ip user_name version blank_node

-- The wait of the TCP join, and what follows it.
unfoldable pub finish_tcp : (ℕ → Discovery → Discovery) → Discovery → Discovery × Outcome
finish_tcp turn asked =
    let (waited, synced) = await_sync turn (λ x. x) 0 wait_rounds (init_node_state_change asked) in
    if synced then (waited, success) else (close_tcp waited, connect_failed)

-- getNodeInfo and the Connect packet, over an open connection
unfoldable pub ask_tcp :
    Option ℕ → (ℕ → Discovery → Discovery) → Bool → Discovery → List ℕ → ℕ → Discovery × Outcome
ask_tcp none turn sent opened user_name version = (opened, system_failure 0)
ask_tcp (some ip) turn sent opened user_name version =
    let asked = emit opened (tcp_send (connect (my_node ip user_name version))) in
    if sent then finish_tcp turn asked else (opened, connect_failed)

unfoldable pub join_tcp :
    Env → (ℕ → Discovery → Discovery) → TcpAttempt → Discovery → List ℕ → ℕ → Discovery × Outcome
join_tcp env turn attempt d user_name version =
    let opened = record d { tcp = some (record { is_open = true; host_closed = false }) } in
    if not (is_success attempt.init_rc)
    then (close_tcp d, attempt.init_rc)
    else if not attempt.reached
    then (opened, connect_failed)
    else ask_tcp env.ip_address turn attempt.sent opened user_name version

-- The join over the relay: `some` is what connect returns at once, `none` goes on to the TCP join.
-- `later` are the system's answers once the wait is over.
unfoldable pub join_relay :
    Option ℕ
    → Env
    → (ℕ → Discovery → Discovery)
    → Discovery
    → List ℕ
    → ℕ
    → Discovery × Option Outcome
join_relay none later turn d user_name version = (d, some (system_failure 0))
join_relay (some ip) later turn d user_name version =
    let ask =
      λ (x : Discovery). emit x (relay_broadcast (connect (my_node ip user_name version))) in
    let ready = record (init_node_state_change d) { join_await_self_ip = ip } in
    let (waited, joined) = await_sync turn ask 0 wait_rounds (ask ready) in
    if joined
    then (
      record waited { relay_joined = true; relay_joined_ip = ip; host_last_seen = later.now },
      some success,
    )
    else (record waited { join_await_self_ip = 0 }, none)

abbrev pub is_self : Env → ℕ → Bool
is_self env ip = elim env.ip_address [ none ↦ false | some mine ↦ ip == mine ]

unfoldable pub set_target : Discovery → NetworkInfo → Discovery
set_target d info = record d {
  join_bssid = info.common.bssid;
  join_active = true;
  relay_sync_seq_valid = false;
}

-- After the relay's verdict: it is final, or the TCP join follows.
unfoldable pub after_relay :
    Env
    → (ℕ → Discovery → Discovery)
    → TcpAttempt
    → Discovery × Option Outcome
    → List ℕ
    → ℕ
    → Discovery × Outcome
after_relay later tcp_turn attempt (d, some rc) user_name version = (d, rc)
after_relay later tcp_turn attempt (d, none) user_name version =
    join_tcp later tcp_turn attempt d user_name version

-- connect: `relay_turn` and `tcp_turn` are what happens in the sleeps of its two waits.
unfoldable pub connect_to :
    Env
    → Env
    → (ℕ → Discovery → Discovery)
    → (ℕ → Discovery → Discovery)
    → TcpAttempt
    → Discovery
    → NetworkInfo
    → List ℕ
    → ℕ
    → Discovery × Outcome
connect_to env later relay_turn tcp_turn attempt d info user_name version =
    let targeted = set_target d info in
    if info.ldn.node_count == 0
    then (d, failure module_id 30)
    else if is_self env (host_node info).ipv4_address
    then (d, connect_failed)
    else if d.relay
    then after_relay later tcp_turn attempt
        (join_relay env.ip_address later relay_turn targeted user_name version) user_name version
    else join_tcp later tcp_turn attempt targeted user_name version

-- connectPrivate's choice among the results of one scan: the first whose host is not ourselves.
unfoldable pub first_foreign : ℕ → List NetworkInfo → Option NetworkInfo
first_foreign my_ip [] = none
first_foreign my_ip (r ∷ rs) =
    if not (my_ip == 0) && (host_node r).ipv4_address == my_ip
    then first_foreign my_ip rs
    else some r

abbrev pub result_count_max : ℕ
result_count_max = 8

-- `filter` of connectPrivate: the session of the link code
abbrev pub session_filter : SessionId → ScanFilter
session_filter session = record {
  intent_id = record { local_communication_id = 0; scene_id = 0 };
  session_id = session;
  network_type = 0;
  ssid = [];
  flag = flag_session_id;
}

-- What happens while connectPrivate sleeps: in the scan of each attempt, and in connect.
pub record Turns : Type 0 where
  pub in_scan : ℕ → ℕ → Discovery → Discovery
  pub in_relay_wait : ℕ → Discovery → Discovery
  pub in_tcp_wait : ℕ → Discovery → Discovery

abbrev pub own_ip : Env → ℕ
own_ip env = elim env.ip_address [ none ↦ 0 | some ip ↦ ip ]

-- The attempts of connectPrivate that are left.
unfoldable pub private_attempts :
    ℕ
    → Env
    → Env
    → Turns
    → Bool
    → TcpAttempt
    → Discovery
    → SessionId
    → List ℕ
    → ℕ
    → Discovery × Outcome
private_attempts zero env later turns sends attempt d session user_name version =
    (d, connect_failed)
private_attempts (suc left) env later turns sends attempt d session user_name version =
    let (scanned, rc, found) =
      run_scan env (turns.in_scan left) sends d result_count_max (session_filter session) in
    let again =
      private_attempts left env later turns sends attempt scanned session user_name version in
    elim rc [
      | success ↦ elim (first_foreign (own_ip env) found) [
        | none ↦ again
        | some r ↦
            connect_to env later turns.in_relay_wait turns.in_tcp_wait attempt scanned r user_name
              version
      ]
      | other ↦ again
    ]

unfoldable pub connect_private :
    Env → Env → Turns → Bool → TcpAttempt → Discovery → SessionId → List ℕ → ℕ → Discovery × Outcome
connect_private = private_attempts 3
