-- ===== src/Ipc/Created.antt =====
-- A network that a game creates, read back through the service.
use ldn_mitm.Base.{
  ℕ, suc, ◌≡◌, ◌<◌, refl, ap, ◌∙◌, List, [], ◌∷◌, true, false, Option, some, if◌then◌else◌, ◌==◌,
  length, get_or-set_self, arith,
}
use ldn_mitm.Ldn.{
  CommState, NetworkInfo, NetworkConfig, SecurityParameter, SessionId, NodeInfo, blank_node,
  host_node, to_network_config, to_security_parameter,
}
use ldn_mitm.Discovery.{Discovery, Env, emit, set_state}
use ldn_mitm.Discovery.Nodes.{update_nodes, refreshed, init_node_state_change}
use ldn_mitm.Discovery.Nodes.Update.{
  Numbered, override_all-below, network_info-update_nodes, state-update_nodes,
}
use ldn_mitm.Discovery.Client.{send_relay_scope}
use ldn_mitm.Discovery.Session.{
  success, number_nodes, init_network_info, fill_node_info, new_network, create_network,
  get_network_info,
}
use ldn_mitm.Ipc.{
  Service, run, get_state, state_code, get_security_parameter, get_network_config, answered,
}

-- Its channel is 6 where the game leaves it open.
abbrev pub chosen_channel : NetworkConfig → NetworkConfig
chosen_channel config = record config {
  channel = if config.channel == 0 then 6 else config.channel;
}

length-number_nodes : (i : ℕ) (ns : List NodeInfo) → length (number_nodes i ns) ≡ length ns
unfolding number_nodes
length-number_nodes i [] = refl
length-number_nodes i (n ∷ ns) = ap suc (length-number_nodes (suc i) ns)

scope_state :
    (d : Discovery)
    → ((send_relay_scope d).state ≡ d.state)
      × ((send_relay_scope d).network_info ≡ d.network_info)
      × ((send_relay_scope d).stations ≡ d.stations)
unfolding send_relay_scope emit
scope_state d = ground arith

-- What updateNodes leaves of a network: the parameter, and the host's part of the configuration.
get_network_info-update_nodes :
    (env : Env) (x : Discovery)
    → x.state ≡ CommState.access_point_created
    → get_network_info (update_nodes env x) ≡ some (refreshed x)
unfolding get_network_info
get_network_info-update_nodes env x e =
    rw (state-update_nodes env x ∙ e) (ap some (network_info-update_nodes env x))

host_node-refreshed :
    (x : Discovery) → Numbered 1 x.stations → host_node (refreshed x) ≡ host_node x.network_info
host_node-refreshed x n = override_all-below 1 0 x.stations x.network_info.ldn.nodes n (omega arith)

to_network_config-refreshed :
    (x : Discovery)
    → Numbered 1 x.stations
    → to_network_config (refreshed x) ≡ to_network_config x.network_info
unfolding to_network_config
to_network_config-refreshed x n =
    ap (λ v. record (to_network_config x.network_info) { local_communication_version = v })
      (ap (λ (y : NodeInfo). y.local_communication_version) (host_node-refreshed x n))

to_network_config-new_network :
    (ip mode : ℕ) (user : List ℕ) (config : NetworkConfig) (session : SessionId)
    (r : Option (List ℕ)) (old : NetworkInfo)
    → 0 < length old.ldn.nodes
    → to_network_config (new_network ip mode user config session r old) ≡ chosen_channel config
unfolding to_network_config new_network init_network_info fill_node_info
to_network_config-new_network ip mode user config session r old l =
    ap
      (λ (y : NodeInfo). record (chosen_channel config) {
        local_communication_version = y.local_communication_version;
      })
      (get_or-set_self (number_nodes 0 old.ldn.nodes) 0 _ blank_node
        (omega (arith, l, length-number_nodes 0 old.ldn.nodes)))

-- A game that opened an access point (with its stations numbered from 1, and eight nodes) creates a
-- private network, the listening socket and the console's address being there. It succeeds; then GetState
-- says AccessPointCreated, GetSecurityParameter gives back the game's parameter, and GetNetworkConfig its
-- configuration, with channel 6 where it left the channel open.
pub create_network-get_network_config :
    (env : Env) (s : Service) (ip mode : ℕ) (user : List ℕ) (config : NetworkConfig)
    (random : SessionId) (p : SecurityParameter)
    → s.lan.state ≡ CommState.access_point
    → env.ip_address ≡ some ip
    → Numbered 1 s.lan.stations
    → length s.lan.network_info.ldn.nodes ≡ 8
    → let (d, rc) = create_network env s.lan success mode user config random (some p) in
      let s' = run s d in
      (rc ≡ success)
      × ((get_state s').0 ≡ 3)
      × (get_security_parameter s' ≡ some p)
      × (get_network_config s' ≡ some (chosen_channel config))
unfolding create_network run get_security_parameter get_network_config get_state
    init_node_state_change to_security_parameter new_network set_state send_relay_scope
create_network-get_network_config env s ip mode user config random p ap_open addr n eight =
    let d = s.lan in
    let info = new_network ip mode user config p.session_id (some p.unk_random) d.network_info in
    let tcp_up : Discovery = record d {
      tcp = some (record { is_open = true; host_closed = false });
      network_info = info;
    } in
    let created = set_state tcp_up CommState.access_point_created in
    let x = init_node_state_change (send_relay_scope created) in
    let (st, net, sts) = scope_state created in
    let same : x.network_info ≡ info = unfold init_node_state_change set_state emit in net in
    let state : x.state ≡ CommState.access_point_created =
      unfold init_node_state_change set_state emit in st in
    let numbered : Numbered 1 x.stations =
      unfold init_node_state_change set_state emit in rw sts n in
    let shown = get_network_info-update_nodes env x state in
    rw (ap_open, addr)
      (
        refl,
        ap state_code (state-update_nodes env x ∙ state),
        ap (answered to_security_parameter) shown
            ∙ ap (λ (y : NetworkInfo). some (to_security_parameter y)) same,
        ap (answered to_network_config) shown
            ∙ ap some (
                to_network_config-refreshed x numbered
                ∙ ap to_network_config same
                ∙ to_network_config-new_network ip mode user config p.session_id (some p.unk_random)
                    d.network_info (omega arith)),
      )
