-- ===== src/Discovery/Run/Invariant.antt =====
-- The handlers of the relay socket, the beacon, and all of the worker's events.
use ldn_mitm.Base.{ℕ, ◌-◌, ◌≡◌, refl, List, Bool, ◌&&◌, ◌||◌, if-elim, ◌==◌, leb}
use ldn_mitm.Ldn.{DisconnectReason, host_node}
use ldn_mitm.Discovery.{
  Discovery, Env, Message, scan, scan_resp, sync_network, connect, relay_heartbeat, relay_bye,
  Heartbeat, Station, reset,
}
use ldn_mitm.Discovery.Client.{is_station, is_station_connected, tcp_note_close}
use ldn_mitm.Discovery.Host.{is_hosting}
use ldn_mitm.Discovery.Relay.{
  is_relay_station, relay_on_scan, relay_on_scan_resp, relay_on_sync, relay_on_heartbeat,
  any_station, reset_where, is_bye_target, relay_on_bye, relay_on_read, relay_on_close,
  relay_advertise_min_interval_ms,
}
use ldn_mitm.Discovery.Worker.{
  announce, probe_path, is_silent, reap, beacon, worker_round, relay_beacon_interval_ms,
  relay_peer_timeout_ms, relay_reconnect_min_interval_ms,
}
use ldn_mitm.Discovery.Run.{
  IsStruct, Step, from_relay, from_udp, from_host, from_station, station_accepted, station_closed,
  host_close_seen, host_closed, udp_closed, relay_closed, round_ended, Reach, here, after,
}
use ldn_mitm.Discovery.Run.Keeps.{
  stays, seats, Keeps, Keeps-trans, Keeps-refl, emit-Keeps, scope-Keeps,
  on_disconnect_from_host-Keeps, seats-map_if,
}
use ldn_mitm.Discovery.Run.Steps.{
  other, reseated, on_relay_connect-Keeps, on_connect-Keeps, station_on_read-Keeps,
  station_on_close-Keeps, udp_on_read-Keeps, udp_on_close-Keeps, on_sync_network-Keeps,
  tcp_on_packet-Keeps, tcp_on_close-Keeps,
}

relay_on_scan-Keeps : (env : Env) (d : Discovery) → Keeps d (relay_on_scan env d)
unfolding relay_on_scan
relay_on_scan-Keeps env d =
    if-elim (Keeps d)
      (is_hosting d.state && leb relay_advertise_min_interval_ms (env.now - d.last_relay_advertise))
      (λ e.
        Keeps-trans (other d (record d { last_relay_advertise = env.now }) refl refl refl refl)
          (emit-Keeps _ _))
      (λ e. Keeps-refl d)

relay_on_heartbeat-Keeps :
    (env : Env) (d : Discovery) (hb : Heartbeat) → Keeps d (relay_on_heartbeat env d hb)
unfolding relay_on_heartbeat
relay_on_heartbeat-Keeps env d hb =
    if-elim (Keeps d) (is_hosting d.state && hb.bssid == d.network_info.common.bssid)
      (λ e. record {
        moves = stays d.state;
        seated =
            seats-map_if (is_relay_station d.network_info.ldn.nodes hb.ipv4)
              (λ st. record st { last_seen = env.now }) d.stations (λ st. refl);
        eight = λ h. h;
        unjoined = λ j. (j, λ s. s);
      })
      (λ e. Keeps-refl d)

reset_where-seats :
    (p : Station → Bool) (sts : List Station) → seats (reset_where p sts) ≡ seats sts
unfolding reset
reset_where-seats p sts = seats-map_if p reset sts (λ st. refl)

relay_on_bye-Keeps :
    (env : Env) (d : Discovery) (bye : Heartbeat) → Keeps d (relay_on_bye env d bye)
unfolding relay_on_bye
relay_on_bye-Keeps env d bye =
    if-elim (Keeps d) (is_station_connected d.state)
      (λ c.
        if-elim (Keeps d)
          (d.join_active
            && bye.bssid == d.join_bssid
            && bye.ipv4 == (host_node d.network_info).ipv4_address)
          (λ t. on_disconnect_from_host-Keeps d DisconnectReason.destroyed_by_user)
          (λ t. Keeps-refl d))
      (λ c.
        if-elim (Keeps d)
          (is_hosting d.state
            && bye.bssid == d.network_info.common.bssid
            && any_station (is_bye_target d bye) d.stations)
          (λ h. reseated env d _ (reset_where-seats (is_bye_target d bye) d.stations))
          (λ h. Keeps-refl d))

relay_on_read-Keeps :
    (env : Env) (d : Discovery) (m : Message) (seq : ℕ)
    → IsStruct m
    → Keeps d (relay_on_read env d m seq)
unfolding relay_on_read relay_on_sync relay_on_scan_resp
relay_on_read-Keeps env d scan seq h = relay_on_scan-Keeps env d
relay_on_read-Keeps env d (scan_resp info) seq h = other d _ refl refl refl refl
relay_on_read-Keeps env d (connect info) seq h =
    if-elim (Keeps d) (is_hosting d.state) (λ e. on_relay_connect-Keeps env d info)
      (λ e. Keeps-refl d)
relay_on_read-Keeps env d (sync_network info) seq h =
    if-elim (Keeps d) (is_station d.state || is_station_connected d.state)
      (λ e. on_sync_network-Keeps env d info seq h) (λ e. Keeps-refl d)
relay_on_read-Keeps env d (relay_heartbeat hb) seq h = relay_on_heartbeat-Keeps env d hb
relay_on_read-Keeps env d (relay_bye bye) seq h = relay_on_bye-Keeps env d bye
relay_on_read-Keeps env d Message.malformed seq h = Keeps-refl d
relay_on_read-Keeps env d Message.bad_connect seq h = Keeps-refl d
relay_on_read-Keeps env d Message.unknown seq h = Keeps-refl d

announce-Keeps : (env : Env) (d : Discovery) → Keeps d (announce env d)
unfolding announce
announce-Keeps env d =
    if-elim (Keeps d) (is_hosting d.state)
      (λ h.
        Keeps-trans (other d (record d { last_relay_advertise = env.now }) refl refl refl refl)
          (emit-Keeps _ _))
      (λ h.
        if-elim (Keeps d) (is_station_connected d.state && d.relay_joined) (λ c. emit-Keeps d _)
          (λ c. emit-Keeps d _))

probe_path-Keeps : (env : Env) (dead : Bool) (d : Discovery) → Keeps d (probe_path env dead d)
unfolding probe_path
probe_path-Keeps env dead d =
    if-elim (Keeps d) dead
      (λ k.
        if-elim (Keeps d) (leb relay_reconnect_min_interval_ms (env.now - d.last_relay_reconnect))
          (λ e.
            Keeps-trans (other d (record d { last_relay_reconnect = env.now }) refl refl refl refl)
              (emit-Keeps _ _))
          (λ e. Keeps-refl d))
      (λ k. emit-Keeps d _)

reap-Keeps : (env : Env) (d : Discovery) → Keeps d (reap env d)
unfolding reap
reap-Keeps env d =
    if-elim (Keeps d) (is_hosting d.state)
      (λ h.
        if-elim (Keeps d) (any_station (is_silent env.now) d.stations)
          (λ a. reseated env d _ (reset_where-seats (is_silent env.now) d.stations))
          (λ a. Keeps-refl d))
      (λ h.
        if-elim (Keeps d)
          (is_station_connected d.state
            && d.relay_joined
            && leb relay_peer_timeout_ms (env.now - d.host_last_seen))
          (λ c. on_disconnect_from_host-Keeps d DisconnectReason.signal_lost) (λ c. Keeps-refl d))

worker_round-Keeps :
    (env : Env) (dead : Bool) (last : ℕ) (d : Discovery) → Keeps d (worker_round env dead last d).0
unfolding worker_round beacon
worker_round-Keeps env dead last d =
    if-elim (λ (x : Discovery × ℕ). Keeps d x.0)
      (d.relay && leb relay_beacon_interval_ms (env.now - last))
      (λ e. Keeps-trans (announce-Keeps env d) (
        Keeps-trans (scope-Keeps _) (Keeps-trans (probe_path-Keeps env dead _) (reap-Keeps env _))))
      (λ e. Keeps-refl d)

Step-Keeps : (a b : Discovery) → Step a b → Keeps a b
unfolding tcp_note_close relay_on_close
Step-Keeps _ _ (from_relay env d m seq h) = relay_on_read-Keeps env d m seq h
Step-Keeps _ _ (from_udp d m h) = udp_on_read-Keeps d m
Step-Keeps _ _ (from_host env d m h) = tcp_on_packet-Keeps env d m h
Step-Keeps _ _ (from_station env d n m) = station_on_read-Keeps env d n m
Step-Keeps _ _ (station_accepted d fd) = on_connect-Keeps d fd
Step-Keeps _ _ (station_closed env d n) = station_on_close-Keeps env d n
Step-Keeps _ _ (host_close_seen d orderly) = other d _ refl refl refl refl
Step-Keeps _ _ (host_closed d t) = tcp_on_close-Keeps d t
Step-Keeps _ _ (udp_closed d) = udp_on_close-Keeps d
Step-Keeps _ _ (relay_closed d) = other d _ refl refl refl refl
Step-Keeps _ _ (round_ended env dead last d) = worker_round-Keeps env dead last d

-- Whatever the network sends, in whatever order, and whatever sockets are opened or lost: the state only
-- changes from station to connected station and back, or to error (so a host keeps its network until the
-- game or a failure ends it), and to connected station only if there is a network to join; each of the
-- stations keeps its number, and the eight nodes stay eight.
pub Reach-Keeps : (a b : Discovery) → Reach a b → Keeps a b
Reach-Keeps _ _ (here d) = Keeps-refl d
Reach-Keeps _ _ (after a b c r s) = Keeps-trans (Reach-Keeps a b r) (Step-Keeps b c s)
