-- ===== src/Discovery/Join/Outcomes.antt =====
-- When a join is reported as successful.
use Prim.{tt}
use ldn_mitm.Base.{
  ℕ, zero, suc, ◌+◌, ◌≡◌, refl, List, Bool, true, false, Option, none, some, ◌==◌, Bool-cases,
  if-elim, inl, inr, arith,
}
use ldn_mitm.Ldn.{NetworkInfo, host_node}
use ldn_mitm.Discovery.{Discovery, Env}
use ldn_mitm.Discovery.Nodes.{init_node_state_change}
use ldn_mitm.Discovery.Client.{is_station_connected}
use ldn_mitm.Discovery.Session.{Outcome, is_success}
use ldn_mitm.Discovery.Join.{
  await_sync, TcpAttempt, finish_tcp, ask_tcp, after_relay, set_target, is_self, join_tcp,
  join_relay, connect_to, wait_rounds,
}

-- The wait ends early only in the state StationConnected.
await_sync-connected :
    (turn : ℕ → Discovery → Discovery) (resend : Discovery → Discovery) (j rounds : ℕ)
    (d : Discovery)
    → (await_sync turn resend j rounds d).1 ≡ true
    → is_station_connected (await_sync turn resend j rounds d).0.state ≡ true
unfolding await_sync
await_sync-connected turn resend j zero d e = absurd (ground arith)
await_sync-connected turn resend j (suc rounds) d e =
    elim (Bool-cases (is_station_connected d.state)) [
      | inl yes_now ↦ rw yes_now yes_now
      | inr not_yet ↦
          rw not_yet (await_sync-connected turn resend (j + 1) rounds _ (rw not_yet at e))
    ]

-- What a verdict promises: a success is a station that is connected.
abbrev Honest : Discovery × Outcome → Type 0
Honest (d, rc) = is_success rc ≡ true → is_station_connected d.state ≡ true

finish_tcp-Honest : (turn : ℕ → Discovery → Discovery) (d : Discovery) → Honest (finish_tcp turn d)
unfolding finish_tcp
finish_tcp-Honest turn d =
    elim (Bool-cases (await_sync turn (λ x. x) 0 wait_rounds (init_node_state_change d)).1) [
      | inl e ↦
          rw e (λ _. await_sync-connected turn (λ x. x) 0 wait_rounds (init_node_state_change d) e)
      | inr e ↦ rw e (λ h. absurd (ground arith))
    ]

ask_tcp-Honest :
    (ip : Option ℕ) (turn : ℕ → Discovery → Discovery) (sent : Bool) (d : Discovery) (name : List ℕ)
    (v : ℕ)
    → Honest (ask_tcp ip turn sent d name v)
unfolding ask_tcp
ask_tcp-Honest none turn sent d name v = λ h. absurd (ground arith)
ask_tcp-Honest (some ip) turn true d name v = finish_tcp-Honest turn _
ask_tcp-Honest (some ip) turn false d name v = λ h. absurd (ground arith)

join_tcp-Honest :
    (env : Env) (turn : ℕ → Discovery → Discovery) (a : TcpAttempt) (d : Discovery) (name : List ℕ)
    (v : ℕ)
    → Honest (join_tcp env turn a d name v)
unfolding join_tcp
join_tcp-Honest env turn a d name v = elim (Bool-cases (is_success a.init_rc)) [
  | inr e ↦ rw e (λ h. absurd (ground arith))
  | inl e ↦ elim (Bool-cases a.reached) [
    | inr r ↦ rw (e, r) (λ h. absurd (ground arith))
    | inl r ↦ rw (e, r) (ask_tcp-Honest env.ip_address turn a.sent _ name v)
  ]
]

-- The relay's verdict is honest, and a success has armed the detection of a lost host.
HonestRelay : Option ℕ → Discovery × Option Outcome → Type 0
HonestRelay ip (d, none) = Unit {0}
HonestRelay ip (d, some rc) =
    is_success rc ≡ true
    → (is_station_connected d.state ≡ true)
      × (d.relay_joined ≡ true)
      × (some d.relay_joined_ip ≡ ip)

join_relay-Honest :
    (ip : Option ℕ) (later : Env) (turn : ℕ → Discovery → Discovery) (d : Discovery) (name : List ℕ)
    (v : ℕ)
    → HonestRelay ip (join_relay ip later turn d name v)
unfolding join_relay HonestRelay
join_relay-Honest none later turn d name v = λ h. absurd (ground arith)
join_relay-Honest (some ip) later turn d name v =
    if-elim (HonestRelay (some ip)) (await_sync turn _ 0 wait_rounds _).1
      (λ e h. (await_sync-connected turn _ 0 wait_rounds _ e, refl, refl)) (λ e. tt)

after_relay-Honest :
    (later : Env) (turn : ℕ → Discovery → Discovery) (a : TcpAttempt) (ip : Option ℕ)
    (out : Discovery × Option Outcome) (name : List ℕ) (v : ℕ)
    → HonestRelay ip out
    → Honest (after_relay later turn a out name v)
unfolding after_relay HonestRelay
after_relay-Honest later turn a ip (d, some rc) name v h = λ e. (h e).0
after_relay-Honest later turn a ip (d, none) name v h = join_tcp-Honest later turn a d name v

-- Whatever happens while connect waits (the two functions of its sleeps are arbitrary) and whatever
-- the socket calls answer, a success is reported only in the state StationConnected.
pub connect_to-Honest :
    (env later : Env) (relay_turn tcp_turn : ℕ → Discovery → Discovery) (a : TcpAttempt)
    (d : Discovery) (info : NetworkInfo) (name : List ℕ) (v : ℕ)
    → is_success (connect_to env later relay_turn tcp_turn a d info name v).1 ≡ true
    → is_station_connected (connect_to env later relay_turn tcp_turn a d info name v).0.state ≡ true
unfolding connect_to
connect_to-Honest env later relay_turn tcp_turn a d info name v =
    if-elim Honest (info.ldn.node_count == 0) (λ e h. absurd (ground arith))
      (λ e.
        if-elim Honest (is_self env (host_node info).ipv4_address) (λ s h. absurd (ground arith))
          (λ s.
            if-elim Honest d.relay
              (λ r.
                after_relay-Honest later tcp_turn a env.ip_address _ name v
                  (join_relay-Honest env.ip_address later relay_turn (set_target d info) name v))
              (λ r. join_tcp-Honest later tcp_turn a (set_target d info) name v)))
