-- ===== src/Discovery/Worker/Liveness.antt =====
-- Who is reaped, and who is kept by its heartbeats.
use ldn_mitm.Base.{
  ℕ, ◌+◌, ◌-◌, ◌<◌, ◌≡◌, refl, List, [], ◌∷◌, Bool, true, false, not, ◌&&◌, leb, if◌then◌else◌,
  ==_iff, map, arith,
}
use ldn_mitm.Ldn.{DisconnectReason, NodeInfo}
use ldn_mitm.Discovery.{Discovery, Env, Station, Heartbeat, emit, set_state, reset}
use ldn_mitm.Discovery.Nodes.Update.{stations-update_nodes}
use ldn_mitm.Discovery.Host.{is_hosting}
use ldn_mitm.Discovery.Client.{on_disconnect_from_host}
use ldn_mitm.Discovery.Relay.{any_station, reset_where, is_relay_station, relay_on_heartbeat}
use ldn_mitm.Discovery.Worker.{is_silent, reap, relay_peer_timeout_ms}

reset_where-none :
    (now : ℕ) (sts : List Station)
    → any_station (is_silent now) sts ≡ false
    → reset_where (is_silent now) sts ≡ sts
unfolding any_station
reset_where-none now [] e = refl
reset_where-none now (st ∷ rest) e = ground (arith, reset_where-none now rest)

any_station-reset_where :
    (now : ℕ) (sts : List Station)
    → any_station (is_silent now) (reset_where (is_silent now) sts) ≡ false
unfolding any_station reset
any_station-reset_where now [] = refl
any_station-reset_where now (st ∷ rest) = ground (arith, any_station-reset_where now rest)

stations-disconnect :
    (d : Discovery) (r : DisconnectReason) → (on_disconnect_from_host d r).stations ≡ d.stations
unfolding on_disconnect_from_host set_state emit
stations-disconnect d r = ground arith

reap-stations :
    (env : Env) (d : Discovery)
    → (reap env d).stations
      ≡ (if is_hosting d.state then reset_where (is_silent env.now) d.stations else d.stations)
unfolding reap
reap-stations env d = ground (
  arith,
  stations-update_nodes env (record d { stations = reset_where (is_silent env.now) d.stations }),
  reset_where-none env.now d.stations,
  stations-disconnect d DisconnectReason.signal_lost,
)

-- A station kept: in use over the relay under this address, and heard from recently.
abbrev is_fresh : List NodeInfo → ℕ → ℕ → Station → Bool
is_fresh nodes ip now st =
    is_relay_station nodes ip st && not (leb relay_peer_timeout_ms (now - st.last_seen))

heard :
    (nodes : List NodeInfo) (ip now later : ℕ) (sts : List Station)
    → later < now + relay_peer_timeout_ms
    → any_station (is_relay_station nodes ip) sts ≡ true
    → any_station (is_fresh nodes ip later) (
        map
          (λ (st : Station).
            if is_relay_station nodes ip st then record st { last_seen = now } else st)
          sts)
      ≡ true
unfolding any_station
heard nodes ip now later [] h e = e
heard nodes ip now later (st ∷ rest) h e = ground (arith, heard nodes ip now later rest h)

kept :
    (nodes : List NodeInfo) (ip now : ℕ) (sts : List Station)
    → any_station (is_fresh nodes ip now) sts ≡ true
    → any_station (is_relay_station nodes ip) (reset_where (is_silent now) sts) ≡ true
unfolding any_station reset
kept nodes ip now [] e = e
kept nodes ip now (st ∷ rest) e = ground (arith, kept nodes ip now rest)

-- After the reaping at a hosting console no relay station is left that was silent for 30 seconds.
pub any_station-reap :
    (env : Env) (d : Discovery)
    → is_hosting d.state ≡ true
    → any_station (is_silent env.now) (reap env d).stations ≡ false
any_station-reap env d h = rw (reap-stations env d, h) (any_station-reset_where env.now d.stations)

-- A relay station whose heartbeat, with the host's bssid, the host has handled is still connected after a reaping less
-- than 30 seconds later, whatever other stations are dropped.
pub heartbeat-reap :
    (env later : Env) (d : Discovery) (hb : Heartbeat)
    → is_hosting d.state ≡ true
    → hb.bssid ≡ d.network_info.common.bssid
    → later.now < env.now + relay_peer_timeout_ms
    → any_station (is_relay_station d.network_info.ldn.nodes hb.ipv4) d.stations ≡ true
    → any_station
        (is_relay_station d.network_info.ldn.nodes hb.ipv4)
        (reap later (relay_on_heartbeat env d hb)).stations
      ≡ true
unfolding relay_on_heartbeat
heartbeat-reap env later d hb h b t e =
    rw (h, (==_iff hb.bssid d.network_info.common.bssid).1 b, reap-stations, h)
      (kept d.network_info.ldn.nodes hb.ipv4 later.now _
        (heard d.network_info.ldn.nodes hb.ipv4 env.now later.now d.stations t e))
