-- ===== src/Discovery/Host/Joins.antt =====
-- Joins over the relay: retransmitted Connects, a full host, and the seat that a join takes.
use ldn_mitm.Base.{
  ℕ, suc, ◌+◌, ◌≤◌, ◌<◌, ◌≡◌, refl, ◌∙◌, List, [], ◌∷◌, Bool, true, false, not, ◌&&◌, ◌||◌, none,
  some, Option-cases, leb, if◌then◌else◌, ◌==◌, Bool-cases, inl, inr, length, get_or, set,
  get_or-set_self, lt→not_leb, arith,
}
use ldn_mitm.Ldn.{NodeInfo, node_count_max, station_count_max, blank_node}
use ldn_mitm.Discovery.{Discovery, Env, Station, is_disconnected_status}
use ldn_mitm.Discovery.Nodes.{station_count, update_nodes}
use ldn_mitm.Discovery.Nodes.Update.{
  Numbered, network_info-update_nodes, stations-update_nodes, override_all_ip,
}
use ldn_mitm.Discovery.Host.{station_ip, refresh_known, claim_free, seat, on_relay_connect}

-- A station in use has this address.
unfoldable pub is_known : List NodeInfo → ℕ → List Station → Bool
is_known nodes ip [] = false
is_known nodes ip (st ∷ rest) =
    (not (is_disconnected_status st.status) && station_ip nodes st == ip) || is_known nodes ip rest

refresh_known-none :
    (nodes : List NodeInfo) (ip now : ℕ) (sts : List Station)
    → refresh_known nodes ip now sts ≡ none
    → is_known nodes ip sts ≡ false
unfolding refresh_known is_known
refresh_known-none nodes ip now [] e = refl
refresh_known-none nodes ip now (st ∷ rest) e =
    elim (Option-cases (refresh_known nodes ip now rest)) [
      | inl n ↦ ground (arith, refresh_known-none nodes ip now rest n)
      | inr (sts, h) ↦ ground arith
    ]

refresh_known-some :
    (nodes : List NodeInfo) (ip now : ℕ) (sts : List Station) {sts' : List Station}
    → refresh_known nodes ip now sts ≡ some sts'
    → (is_known nodes ip sts ≡ true)
      × (station_count sts' ≡ station_count sts)
      × ((ns : List NodeInfo) → is_known ns ip sts' ≡ is_known ns ip sts)
unfolding refresh_known is_known station_count
refresh_known-some nodes ip now [] e = cc
refresh_known-some nodes ip now (st ∷ rest) {sts'} e =
    elim (Option-cases (refresh_known nodes ip now rest)) [
      | inl n ↦ (ground arith, ground arith, λ ns. ground arith)
      | inr (sts, h) ↦
          let ih = refresh_known-some nodes ip now rest h in
          (ground (arith, ih.0), ground (arith, ih.1), λ ns. ground (arith, ih.2 ns))
    ]

station_count-le : (sts : List Station) → station_count sts ≤ length sts
unfolding station_count
station_count-le [] = omega arith
station_count-le (st ∷ rest) = ground (arith, station_count-le rest)

claim_free-none :
    (f : Station → Station) (sts : List Station)
    → claim_free f sts ≡ none
    → station_count sts ≡ length sts
unfolding claim_free station_count
claim_free-none f [] e = refl
claim_free-none f (st ∷ rest) e = elim (Option-cases (claim_free f rest)) [
  | inl n ↦ ground (arith, claim_free-none f rest n)
  | inr (r, h) ↦ ground arith
]

claim_free-some :
    (now k ip : ℕ) (nodes : List NodeInfo) (info : NodeInfo) (sts sts' : List Station) (n : ℕ)
    → claim_free (seat now) sts ≡ some (sts', n)
    → Numbered k sts
    → k + length sts ≤ length nodes
    → (station_count sts' ≡ station_count sts + 1)
      × (is_known (set nodes n info) info.ipv4_address sts' ≡ true)
unfolding claim_free station_count is_known
claim_free-some now k ip nodes info [] sts' n e m l = cc
claim_free-some now k ip nodes info (st ∷ rest) sts' n e m l =
    elim (Option-cases (claim_free (seat now) rest)) [
      | inl h ↦ ground (arith, get_or-set_self nodes st.node_id info blank_node)
      | inr ((r, i), h) ↦ ground (
        arith,
        get_or-set_self nodes st.node_id info blank_node,
        claim_free-some now (suc k) ip nodes info rest r i h m.1,
      )
    ]

pub record IsSeated (d : Discovery) : Type 0 where
  pub numbered : Numbered 1 d.stations
  pub stations_length : length d.stations ≡ station_count_max
  pub nodes_length : length d.network_info.ldn.nodes ≡ node_count_max

is_known-ext :
    (a b : List NodeInfo) (ip : ℕ) (sts : List Station)
    → ((i : ℕ) → (get_or a i blank_node).ipv4_address ≡ (get_or b i blank_node).ipv4_address)
    → is_known a ip sts ≡ is_known b ip sts
unfolding is_known
is_known-ext a b ip [] h = refl
is_known-ext a b ip (st ∷ rest) h = rw (h st.node_id, is_known-ext a b ip rest h)

-- Who is known after updateNodes was known before it.
is_known-update_nodes :
    (env : Env) (d : Discovery) (ip : ℕ)
    → is_known (update_nodes env d).network_info.ldn.nodes ip (update_nodes env d).stations
      ≡ is_known d.network_info.ldn.nodes ip d.stations
is_known-update_nodes env d ip =
    rw (network_info-update_nodes env d, stations-update_nodes env d)
      (is_known-ext _ d.network_info.ldn.nodes ip d.stations
        (override_all_ip d.stations d.network_info.ldn.nodes))

-- At a host with seven stations, numbered from 1, and eight nodes, a Connect over the relay takes
-- one more slot if its address is not that of a station in use and a slot is free; a repeated Connect, or one to a full host, takes none.
pub station_count-on_relay_connect :
    (env : Env) (d : Discovery) (info : NodeInfo)
    → IsSeated d
    → station_count (on_relay_connect env d info).stations ≡ (
        if is_known d.network_info.ldn.nodes info.ipv4_address d.stations
          || leb station_count_max (station_count d.stations)
        then station_count d.stations
        else station_count d.stations + 1)
unfolding on_relay_connect
station_count-on_relay_connect env d info s =
    elim (Option-cases (refresh_known nodes info.ipv4_address env.now d.stations)) [
      | inr (sts, e) ↦
          let known = refresh_known-some nodes info.ipv4_address env.now d.stations e in
          rw (e, on_relay_connect, stations-update_nodes, known.0) known.1
      | inl e ↦ elim (Bool-cases (leb station_count_max (station_count d.stations))) [
        | inl full ↦ rw (
          e,
          on_relay_connect,
          full,
          refresh_known-none nodes info.ipv4_address env.now d.stations e,
        )
        | inr free ↦ elim (Option-cases (claim_free (seat env.now) d.stations)) [
          | inl none_free ↦ absurd (
              ground
                (arith, claim_free-none (seat env.now) d.stations none_free, s.stations_length))
          | inr ((sts, n), c) ↦
              rw
                (
                  e,
                  on_relay_connect,
                  free,
                  c,
                  stations-update_nodes,
                  refresh_known-none nodes info.ipv4_address env.now d.stations e,
                )
                (claim_free-some env.now 1 0 nodes info d.stations sts n c s.numbered
                  (omega (arith, s.stations_length, s.nodes_length))).0
        ]
      ]
    ]
  where
    nodes : List NodeInfo
    nodes = d.network_info.ldn.nodes

-- Unless the host (seven stations, numbered from 1, and eight nodes) is full, the sender of a Connect over the relay is afterwards a station in use.
pub is_known-on_relay_connect :
    (env : Env) (d : Discovery) (info : NodeInfo)
    → IsSeated d
    → station_count d.stations < station_count_max
    → let d' = on_relay_connect env d info in
      is_known d'.network_info.ldn.nodes info.ipv4_address d'.stations ≡ true
unfolding on_relay_connect
is_known-on_relay_connect env d info s room =
    elim (Option-cases (refresh_known nodes info.ipv4_address env.now d.stations)) [
      | inr (sts, e) ↦
          let known = refresh_known-some nodes info.ipv4_address env.now d.stations e in
          rw (e, on_relay_connect, is_known-update_nodes) (known.2 nodes ∙ known.0)
      | inl e ↦ elim (Option-cases (claim_free (seat env.now) d.stations)) [
        | inl none_free ↦
            absurd (
              omega (arith, claim_free-none (seat env.now) d.stations none_free, s.stations_length))
        | inr ((sts, n), c) ↦
            rw
              (
                e,
                on_relay_connect,
                lt→not_leb (station_count d.stations) station_count_max room,
                c,
                is_known-update_nodes,
              )
              (claim_free-some env.now 1 0 nodes info d.stations sts n c s.numbered
                (omega (arith, s.stations_length, s.nodes_length))).1
      ]
    ]
  where
    nodes : List NodeInfo
    nodes = d.network_info.ldn.nodes
