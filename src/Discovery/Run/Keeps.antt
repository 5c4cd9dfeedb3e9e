-- ===== src/Discovery/Run/Keeps.antt =====
-- What the helpers of the handlers leave as it is: the seats of the stations, the eight nodes, and the
-- state but for the moves of a station.
use Prim.{tt}
use ldn_mitm.Base.{
  ℕ, ◌≡◌, refl, ap, ◌∙◌, List, [], ◌∷◌, map, Bool, true, false, not, ◌&&◌, Option, none, some,
  if◌then◌else◌, if-elim, ◌==◌, length, arith,
}
use ldn_mitm.Ldn.{CommState, DisconnectReason, NodeInfo}
use ldn_mitm.Discovery.{Discovery, Env, Effect, Station, emit, set_state, is_disconnected_status}
use ldn_mitm.Discovery.Nodes.{
  on_network_info_changed, publish_with, publish_session_registry, update_nodes, track,
}
use ldn_mitm.Discovery.Nodes.Update.{length-override_all}
use ldn_mitm.Discovery.Client.{is_station_connected, send_relay_scope, on_disconnect_from_host}
use ldn_mitm.Discovery.Host.{claim_free, refresh_known, station_ip}

-- The moves that events from the network cause: a station joins, or loses its host; the interface fails.
pub data Moves : CommState → CommState → Type 0 where
  stays : (s : CommState) → Moves s s
  joins : Moves CommState.station CommState.station_connected
  loses : Moves CommState.station_connected CommState.station
  fails : (s : CommState) → Moves s CommState.error

Moves-trans : (a b c : CommState) → Moves a b → Moves b c → Moves a c
Moves-trans a _ c (stays _) m = m
Moves-trans _ _ _ joins (stays _) = joins
Moves-trans _ _ _ joins loses = stays CommState.station
Moves-trans _ _ _ joins (fails _) = fails CommState.station
Moves-trans _ _ _ loses (stays _) = loses
Moves-trans _ _ _ loses joins = stays CommState.station_connected
Moves-trans _ _ _ loses (fails _) = fails CommState.station_connected
Moves-trans a _ _ (fails _) (stays _) = fails a
Moves-trans a _ _ (fails _) (fails _) = fails a

abbrev pub seats : List Station → List ℕ
seats = map (λ (st : Station). st.node_id)

pub record Keeps (d d' : Discovery) : Type 0 where
  pub moves : Moves d.state d'.state
  pub seated : seats d'.stations ≡ seats d.stations
  pub eight : length d.network_info.ldn.nodes ≡ 8 → length d'.network_info.ldn.nodes ≡ 8
  pub unjoined :
      d.join_active ≡ false
      → (d'.join_active ≡ false)
        × (is_station_connected d.state ≡ false → is_station_connected d'.state ≡ false)

pub Keeps-trans : {a b c : Discovery} → Keeps a b → Keeps b c → Keeps a c
Keeps-trans {a = a} {b = b} {c = c} k l = record {
  moves = Moves-trans a.state b.state c.state k.moves l.moves;
  seated = l.seated ∙ k.seated;
  eight = λ h. l.eight (k.eight h);
  unjoined = λ j. let (a, f) = k.unjoined j in let (b, g) = l.unjoined a in (b, λ h. g (f h));
}

pub Keeps-refl : (d : Discovery) → Keeps d d
Keeps-refl d = record {
  moves = stays d.state;
  seated = refl;
  eight = λ h. h;
  unjoined = λ j. (j, λ s. s);
}

pub emit-Keeps : (d : Discovery) (e : Effect) → Keeps d (emit d e)
unfolding emit
emit-Keeps d e = record {
  moves = stays d.state;
  seated = refl;
  eight = λ h. h;
  unjoined = λ j. (j, λ s. s);
}

changed-Keeps : (d : Discovery) → Keeps d (on_network_info_changed d)
unfolding on_network_info_changed emit
changed-Keeps d =
    if-elim (Keeps d) (track d.network_info.ldn.nodes d.node_changes d.node_last_states).2
      (λ e. record {
        moves = stays d.state;
        seated = refl;
        eight = λ h. h;
        unjoined = λ j. (j, λ s. s);
      })
      (λ e. record {
        moves = stays d.state;
        seated = refl;
        eight = λ h. h;
        unjoined = λ j. (j, λ s. s);
      })

publish-Keeps : (c : Option (ℕ × ℕ)) (d : Discovery) → Keeps d (publish_with c d)
unfolding publish_with
publish-Keeps none d = Keeps-refl d
publish-Keeps (some (address, netmask)) d = record {
  moves = stays d.state;
  seated = refl;
  eight = λ h. h;
  unjoined = λ j. (j, λ s. s);
}

-- onNetworkInfoChanged and publishSessionRegistry, which end most handlers
pub settle-Keeps :
    (env : Env) (d : Discovery) → Keeps d (publish_session_registry env (on_network_info_changed d))
settle-Keeps env d =
    Keeps-trans (changed-Keeps d) (publish-Keeps env.ip_config (on_network_info_changed d))

pub update_nodes-Keeps : (env : Env) (d : Discovery) → Keeps d (update_nodes env d)
unfolding update_nodes
update_nodes-Keeps env d =
    Keeps-trans
      (record {
        moves = stays d.state;
        seated = refl;
        eight = λ h. length-override_all d.stations d.network_info.ldn.nodes ∙ h;
        unjoined = λ j. (j, λ s. s);
      })
      (settle-Keeps env _)

pub scope-Keeps : (d : Discovery) → Keeps d (send_relay_scope d)
unfolding send_relay_scope
scope-Keeps d = if-elim (Keeps d) d.relay (λ e. emit-Keeps d _) (λ e. Keeps-refl d)

from_connected : (s : CommState) → is_station_connected s ≡ true → Moves s CommState.station
from_connected CommState.station_connected e = loses
from_connected CommState.none e = absurd (ground arith)
from_connected CommState.initialized e = absurd (ground arith)
from_connected CommState.access_point e = absurd (ground arith)
from_connected CommState.access_point_created e = absurd (ground arith)
from_connected CommState.station e = absurd (ground arith)
from_connected CommState.error e = absurd (ground arith)

pub on_disconnect_from_host-Keeps :
    (d : Discovery) (r : DisconnectReason) → Keeps d (on_disconnect_from_host d r)
unfolding on_disconnect_from_host set_state emit
on_disconnect_from_host-Keeps d r =
    if-elim (Keeps d) (is_station_connected d.state)
      (λ e. record {
        moves = from_connected d.state e;
        seated = refl;
        eight = λ h. h;
        unjoined = λ j. (j, λ s. refl);
      })
      (λ e. Keeps-refl d)

-- The seats of the lists that the handlers make.
pub seats-map_if :
    (p : Station → Bool) (f : Station → Station) (sts : List Station)
    → ((st : Station) → (f st).node_id ≡ st.node_id)
    → seats (map (λ (st : Station). if p st then f st else st) sts) ≡ seats sts
seats-map_if p f [] h = refl
seats-map_if p f (st ∷ rest) h =
    let new = if p st then f st else st in
    ap (◌∷◌ new.node_id) (seats-map_if p f rest h)
    ∙ ap (λ n. n ∷ seats rest)
        (if-elim (λ (x : Station). x.node_id ≡ st.node_id) (p st) {x = f st} {y = st} (λ e. h st)
          (λ e. refl))

abbrev pub SeatsIfAny : List Station → Option (List Station) → Type 0
SeatsIfAny sts none = Unit {0}
SeatsIfAny sts (some sts') = seats sts' ≡ seats sts

SeatsIfAny-cons :
    (st : Station) (sts : List Station) (o : Option (List Station))
    → SeatsIfAny sts o
    → SeatsIfAny (st ∷ sts) (elim o [ none ↦ none | some r ↦ some (st ∷ r) ])
SeatsIfAny-cons st sts none h = tt
SeatsIfAny-cons st sts (some r) h = ap (◌∷◌ st.node_id) h

pub refresh_known-SeatsIfAny :
    (nodes : List NodeInfo) (ip now : ℕ) (sts : List Station)
    → SeatsIfAny sts (refresh_known nodes ip now sts)
unfolding refresh_known
refresh_known-SeatsIfAny nodes ip now [] = tt
refresh_known-SeatsIfAny nodes ip now (st ∷ rest) =
    if-elim (SeatsIfAny (st ∷ rest))
      (not (is_disconnected_status st.status) && station_ip nodes st == ip) (λ e. refl)
      (λ e.
        SeatsIfAny-cons st rest (refresh_known nodes ip now rest)
          (refresh_known-SeatsIfAny nodes ip now rest))

abbrev pub ClaimIfAny : List Station → Option (List Station × ℕ) → Type 0
ClaimIfAny sts none = Unit {0}
ClaimIfAny sts (some (sts', n)) = seats sts' ≡ seats sts

ClaimIfAny-cons :
    (st : Station) (sts : List Station) (o : Option (List Station × ℕ))
    → ClaimIfAny sts o
    → ClaimIfAny (st ∷ sts) (elim o [ none ↦ none | some (r, n) ↦ some (st ∷ r, n) ])
ClaimIfAny-cons st sts none h = tt
ClaimIfAny-cons st sts (some (r, n)) h = ap (◌∷◌ st.node_id) h

pub claim_free-ClaimIfAny :
    (f : Station → Station) (sts : List Station)
    → ((st : Station) → (f st).node_id ≡ st.node_id)
    → ClaimIfAny sts (claim_free f sts)
unfolding claim_free
claim_free-ClaimIfAny f [] h = tt
claim_free-ClaimIfAny f (st ∷ rest) h =
    if-elim (ClaimIfAny (st ∷ rest)) (is_disconnected_status st.status)
      (λ e. ap (λ n. n ∷ seats rest) (h st))
      (λ e. ClaimIfAny-cons st rest (claim_free f rest) (claim_free-ClaimIfAny f rest h))
