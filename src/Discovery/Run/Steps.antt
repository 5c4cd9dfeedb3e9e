-- ===== src/Discovery/Run/Steps.antt =====
-- The handlers of the stations' sockets, the UDP socket and the socket to the host, one by one.
use ldn_mitm.Base.{
  ℕ, ◌≡◌, refl, ap, ◌∙◌, List, true, not, ◌||◌, Option, none, some, Option-cases, inl, inr, if-elim,
  ◌==◌, leb, length, length-set, set, arith,
}
use ldn_mitm.Ldn.{CommState, NodeInfo, NetworkInfo, station_count_max}
use ldn_mitm.Discovery.{
  Discovery, Env, Message, scan, scan_resp, sync_network, connect, relay_heartbeat, relay_bye,
  Station, TcpSocket, UdpSocket, emit, set_state, reset, link, close_fd,
}
use ldn_mitm.Discovery.Nodes.{with_nodes, update_nodes, station_count}
use ldn_mitm.Discovery.Client.{
  is_station, is_station_connected, is_target, is_stale, lists_node, apply_sync, on_sync_network,
  tcp_on_packet, tcp_on_close,
}
use ldn_mitm.Discovery.Host.{
  refresh_known, claim_free, seat, on_relay_connect, on_connect, station_on_read, station_on_close,
  add_result, is_hosting, is_error_state, udp_on_read, udp_on_close,
}
use ldn_mitm.Discovery.Run.{IsStruct}
use ldn_mitm.Discovery.Run.Keeps.{
  Moves, stays, joins, fails, seats, Keeps, Keeps-trans, Keeps-refl, emit-Keeps, settle-Keeps,
  update_nodes-Keeps, scope-Keeps, on_disconnect_from_host-Keeps, seats-map_if,
  refresh_known-SeatsIfAny, ClaimIfAny, claim_free-ClaimIfAny,
}

-- a change of other fields
pub other :
    (d d' : Discovery)
    → d'.state ≡ d.state
    → d'.stations ≡ d.stations
    → d'.network_info ≡ d.network_info
    → d'.join_active ≡ d.join_active
    → Keeps d d'
other d d' s t n a = record {
  moves = rw s (stays d.state);
  seated = ap seats t;
  eight = λ h. ap (λ (x : NetworkInfo). length x.ldn.nodes) n ∙ h;
  unjoined = λ j. (a ∙ j, λ c. ap is_station_connected s ∙ c);
}

-- a change of the stations that keeps their seats, and then updateNodes
pub reseated :
    (env : Env) (d : Discovery) (sts : List Station)
    → seats sts ≡ seats d.stations
    → Keeps d (update_nodes env (record d { stations = sts }))
reseated env d sts e =
    Keeps-trans
      (record { moves = stays d.state; seated = e; eight = λ h. h; unjoined = λ j. (j, λ s. s) })
      (update_nodes-Keeps env _)

-- the same with the node of one seat
renamed :
    (env : Env) (d : Discovery) (sts : List Station) (n : ℕ) (info : NodeInfo)
    → seats sts ≡ seats d.stations
    → Keeps d (
        update_nodes env (record d {
          stations = sts;
          network_info = with_nodes d.network_info (set d.network_info.ldn.nodes n info);
        }))
renamed env d sts n info e =
    Keeps-trans
      (record {
        moves = stays d.state;
        seated = e;
        eight = λ h. length-set d.network_info.ldn.nodes n info ∙ h;
        unjoined = λ j. (j, λ s. s);
      })
      (update_nodes-Keeps env _)

claimed :
    (env : Env) (d : Discovery) (info : NodeInfo) (o : Option (List Station × ℕ))
    → ClaimIfAny d.stations o
    → Keeps d (elim o [
      | none ↦ d
      | some (stations, n) ↦ update_nodes env (record d {
        stations = stations;
        network_info = with_nodes d.network_info (set d.network_info.ldn.nodes n info);
      })
    ])
claimed env d info none h = Keeps-refl d
claimed env d info (some (sts, n)) h = renamed env d sts n info h

pub on_relay_connect-Keeps :
    (env : Env) (d : Discovery) (info : NodeInfo) → Keeps d (on_relay_connect env d info)
unfolding on_relay_connect
on_relay_connect-Keeps env d info =
    let nodes = d.network_info.ldn.nodes in
    let known = refresh_known-SeatsIfAny nodes info.ipv4_address env.now d.stations in
    elim (Option-cases (refresh_known nodes info.ipv4_address env.now d.stations)) [
      | inr (sts, e) ↦ rw (e, on_relay_connect) (reseated env d sts (rw e at known))
      | inl e ↦
          rw (e, on_relay_connect)
            (if-elim (Keeps d) (leb station_count_max (station_count d.stations))
              (λ f. Keeps-refl d)
              (λ f.
                claimed env d info (claim_free (seat env.now) d.stations)
                  (claim_free-ClaimIfAny (seat env.now) d.stations (λ st. refl))))
    ]

accepted :
    (d : Discovery) (fd : ℕ) (o : Option (List Station × ℕ))
    → ClaimIfAny d.stations o
    → Keeps d (elim o [
      | none ↦ emit d (close_fd fd)
      | some (stations, n) ↦ record d { stations = stations }
    ])
accepted d fd none h = emit-Keeps d (close_fd fd)
accepted d fd (some (sts, n)) h = record {
  moves = stays d.state;
  seated = h;
  eight = λ k. k;
  unjoined = λ j. (j, λ s. s);
}

pub on_connect-Keeps : (d : Discovery) (fd : ℕ) → Keeps d (on_connect d fd)
unfolding on_connect link
on_connect-Keeps d fd =
    if-elim (Keeps d) (leb station_count_max (station_count d.stations))
      (λ f. emit-Keeps d (close_fd fd))
      (λ f.
        accepted d fd (claim_free (λ st. link st fd) d.stations)
          (claim_free-ClaimIfAny (λ st. link st fd) d.stations (λ st. refl)))

pub station_on_read-Keeps :
    (env : Env) (d : Discovery) (n : ℕ) (m : Message) → Keeps d (station_on_read env d n m).0
unfolding station_on_read
station_on_read-Keeps env d n (connect info) =
    renamed env d _ n info (seats-map_if (λ st. st.node_id == n) _ d.stations (λ st. refl))
station_on_read-Keeps env d n Message.malformed = Keeps-refl d
station_on_read-Keeps env d n Message.bad_connect = Keeps-refl d
station_on_read-Keeps env d n Message.unknown = Keeps-refl d
station_on_read-Keeps env d n scan = Keeps-refl d
station_on_read-Keeps env d n (scan_resp info) = Keeps-refl d
station_on_read-Keeps env d n (sync_network info) = Keeps-refl d
station_on_read-Keeps env d n (relay_heartbeat hb) = Keeps-refl d
station_on_read-Keeps env d n (relay_bye hb) = Keeps-refl d

pub station_on_close-Keeps :
    (env : Env) (d : Discovery) (n : ℕ) → Keeps d (station_on_close env d n)
unfolding station_on_close reset
station_on_close-Keeps env d n =
    reseated env d _ (seats-map_if (λ st. st.node_id == n) reset d.stations (λ st. refl))

with_udp :
    (d : Discovery) (info : NetworkInfo) (o : Option UdpSocket)
    → Keeps d (elim o [ none ↦ d | some u ↦ record d { udp = some (add_result u info) } ])
with_udp d info none = Keeps-refl d
with_udp d info (some u) = other d _ refl refl refl refl

pub udp_on_read-Keeps : (d : Discovery) (m : Message) → Keeps d (udp_on_read d m)
unfolding udp_on_read
udp_on_read-Keeps d scan =
    if-elim (Keeps d) (is_hosting d.state) (λ e. emit-Keeps d _) (λ e. Keeps-refl d)
udp_on_read-Keeps d (scan_resp info) = with_udp d info d.udp
udp_on_read-Keeps d Message.malformed = Keeps-refl d
udp_on_read-Keeps d Message.bad_connect = Keeps-refl d
udp_on_read-Keeps d Message.unknown = Keeps-refl d
udp_on_read-Keeps d (connect info) = Keeps-refl d
udp_on_read-Keeps d (sync_network info) = Keeps-refl d
udp_on_read-Keeps d (relay_heartbeat hb) = Keeps-refl d
udp_on_read-Keeps d (relay_bye hb) = Keeps-refl d

pub udp_on_close-Keeps : (d : Discovery) → Keeps d (udp_on_close d)
unfolding udp_on_close set_state emit
udp_on_close-Keeps d =
    if-elim (Keeps d) (is_error_state d.state) (λ e. other d _ refl refl refl refl)
      (λ e. record {
        moves = fails d.state;
        seated = refl;
        eight = λ h. h;
        unjoined = λ j. (j, λ s. refl);
      })

to_connected : (s : CommState) → is_station s ≡ true → Moves s CommState.station_connected
to_connected CommState.station e = joins
to_connected CommState.none e = absurd (ground arith)
to_connected CommState.initialized e = absurd (ground arith)
to_connected CommState.access_point e = absurd (ground arith)
to_connected CommState.access_point_created e = absurd (ground arith)
to_connected CommState.station_connected e = absurd (ground arith)
to_connected CommState.error e = absurd (ground arith)

apply_sync-Keeps :
    (env : Env) (d : Discovery) (info : NetworkInfo)
    → length info.ldn.nodes ≡ 8
    → d.join_active ≡ true
    → Keeps d (apply_sync env d info)
unfolding apply_sync set_state emit
apply_sync-Keeps env d info h t =
    let taken : Discovery = record d { host_last_seen = env.now; network_info = info } in
    let kept : Keeps d taken = record {
      moves = stays d.state;
      seated = refl;
      eight = λ k. h;
      unjoined = λ j. (j, λ s. s);
    } in
    Keeps-trans
      (if-elim (Keeps d) (is_station d.state)
        (λ e.
          if-elim (Keeps d)
            (d.join_await_self_ip == 0 || lists_node d.join_await_self_ip info.ldn.nodes)
            (λ l.
              Keeps-trans
                (record {
                  moves = to_connected d.state e;
                  seated = refl;
                  eight = λ k. h;
                  unjoined = λ j. absurd (ground (arith, j, t));
                })
                (scope-Keeps (set_state taken CommState.station_connected)))
            (λ l. kept))
        (λ e. kept))
      (settle-Keeps env _)

pub on_sync_network-Keeps :
    (env : Env) (d : Discovery) (info : NetworkInfo) (seq : ℕ)
    → length info.ldn.nodes ≡ 8
    → Keeps d (on_sync_network env d info seq)
unfolding on_sync_network
on_sync_network-Keeps env d info seq h =
    if-elim (Keeps d) (not (is_target d info)) (λ e. Keeps-refl d)
      (λ e.
        if-elim (Keeps d) (seq == 0) (λ z. apply_sync-Keeps env d info h (ground arith))
          (λ z.
            if-elim (Keeps d) (is_stale d seq) (λ k. Keeps-refl d)
              (λ k.
                let numbered : Discovery = record d {
                  relay_sync_seq = seq;
                  relay_sync_seq_valid = true;
                } in
                Keeps-trans (other d numbered refl refl refl refl)
                  (apply_sync-Keeps env numbered info h (ground arith)))))

pub tcp_on_packet-Keeps :
    (env : Env) (d : Discovery) (m : Message) → IsStruct m → Keeps d (tcp_on_packet env d m).0
unfolding tcp_on_packet
tcp_on_packet-Keeps env d (sync_network info) h = on_sync_network-Keeps env d info 0 h
tcp_on_packet-Keeps env d scan h = Keeps-refl d
tcp_on_packet-Keeps env d (scan_resp info) h = Keeps-refl d
tcp_on_packet-Keeps env d (connect info) h = Keeps-refl d
tcp_on_packet-Keeps env d (relay_heartbeat hb) h = Keeps-refl d
tcp_on_packet-Keeps env d (relay_bye hb) h = Keeps-refl d
tcp_on_packet-Keeps env d Message.malformed h = Keeps-refl d
tcp_on_packet-Keeps env d Message.bad_connect h = Keeps-refl d
tcp_on_packet-Keeps env d Message.unknown h = Keeps-refl d

pub tcp_on_close-Keeps : (d : Discovery) (t : TcpSocket) → Keeps d (tcp_on_close d t)
unfolding tcp_on_close
tcp_on_close-Keeps d t =
    Keeps-trans (other d _ refl refl refl refl) (on_disconnect_from_host-Keeps _ _)
