-- ===== src/Discovery/Nodes/Update.antt =====
-- The node table that updateNodes leaves, beside the stations.
use ldn_mitm.Base.{
  ℕ, suc, ◌+◌, ◌≤◌, ◌<◌, ◌≡◌, refl, ap, ◌∙◌, List, [], ◌∷◌, Option, none, some, if◌then◌else◌,
  length, length-set, get_or, get_or-set_self, get_or-set_ne, set_outside, ℕ_discrete, dec_lt,
  arith,
}
use ldn_mitm.Ldn.{NodeInfo, node_count_max, station_count_max, blank_node}
use ldn_mitm.Discovery.{Discovery, Env, Station, is_connected_status}
use ldn_mitm.Discovery.Nodes.{
  override_info, override_all, connected_count, refreshed, publish_with, publish_session_registry,
  on_network_info_changed, update_nodes,
}
use ldn_mitm.Discovery.Nodes.Changes.{changed_fields}

-- The stations carry the numbers from `k` on, as the constructor gives them.
abbrev pub Numbered : ℕ → List Station → Type 0
Numbered k [] = Unit {0}
Numbered k (st ∷ rest) = (st.node_id ≡ k) × Numbered (suc k) rest

-- The node of every station shows its number, and whether it is connected.
abbrev pub Agrees : List NodeInfo → List Station → Type 0
Agrees nodes [] = Unit {0}
Agrees nodes (st ∷ rest) =
    ((get_or nodes st.node_id blank_node).node_id ≡ st.node_id)
    × ((get_or nodes st.node_id blank_node).is_connected
        ≡ (if is_connected_status st.status then 1 else 0))
    × Agrees nodes rest

pub length-override_all :
    (sts : List Station) (ns : List NodeInfo) → length (override_all sts ns) ≡ length ns
unfolding override_all override_info
length-override_all [] ns = refl
length-override_all (st ∷ rest) ns =
    length-override_all rest (override_info st ns) ∙ length-set ns st.node_id _

-- Stations numbered from `k` on leave the nodes below `k` alone.
pub override_all-below :
    (k i : ℕ) (sts : List Station) (ns : List NodeInfo)
    → Numbered k sts
    → i < k
    → get_or (override_all sts ns) i blank_node ≡ get_or ns i blank_node
unfolding override_all override_info
override_all-below k i [] ns n h = refl
override_all-below k i (st ∷ rest) ns n h =
    override_all-below (suc k) i rest (override_info st ns) n.1 (omega arith)
    ∙ get_or-set_ne ns {i = st.node_id} {j = i} _ blank_node (omega arith)

abbrev overridden : Station → List NodeInfo → NodeInfo
overridden st ns = record (get_or ns st.node_id blank_node) {
  node_id = st.node_id;
  is_connected = if is_connected_status st.status then 1 else 0;
}

length-override_info :
    (st : Station) (ns : List NodeInfo) → length (override_info st ns) ≡ length ns
unfolding override_info
length-override_info st ns = length-set ns st.node_id (overridden st ns)

own_node :
    (st : Station) (ns : List NodeInfo)
    → st.node_id < length ns
    → get_or (override_info st ns) st.node_id blank_node ≡ overridden st ns
unfolding override_info
own_node st ns h = get_or-set_self ns st.node_id (overridden st ns) blank_node h

override_all-Agrees :
    (k : ℕ) (sts : List Station) (ns : List NodeInfo)
    → Numbered k sts
    → k + length sts ≤ length ns
    → Agrees (override_all sts ns) sts
unfolding override_all
override_all-Agrees k [] ns n h = tt
override_all-Agrees k (st ∷ rest) ns n h = (
  ap (λ (x : NodeInfo). x.node_id) here,
  ap (λ (x : NodeInfo). x.is_connected) here,
  override_all-Agrees (suc k) rest (override_info st ns) n.1
      (omega (arith, length-override_info st ns)),
)
  where
    here : get_or (override_all rest (override_info st ns)) st.node_id blank_node ≡ overridden st ns
    here =
        override_all-below (suc k) st.node_id rest (override_info st ns) n.1 (omega arith)
        ∙ own_node st ns (omega arith)

connected_count-le : (sts : List Station) → connected_count sts ≤ length sts
unfolding connected_count
connected_count-le [] = omega arith
connected_count-le (st ∷ rest) = ground (arith, connected_count-le rest)

network_info-publish_with :
    (c : Option (ℕ × ℕ)) (d : Discovery) → (publish_with c d).network_info ≡ d.network_info
unfolding publish_with
network_info-publish_with none d = refl
network_info-publish_with (some c) d = refl

pub network_info-update_nodes :
    (env : Env) (d : Discovery) → (update_nodes env d).network_info ≡ refreshed d
unfolding update_nodes
network_info-update_nodes env d = network_info-publish_with env.ip_config _ ∙ (changed_fields _).0

-- After updateNodes, with seven stations numbered from 1 and eight nodes: every station's node
-- shows the station's number and whether it is connected, and the node count is one more than the
-- number of connected stations, at most eight.
pub update_nodes-Agrees :
    (env : Env) (d : Discovery)
    → Numbered 1 d.stations
    → length d.stations ≡ station_count_max
    → length d.network_info.ldn.nodes ≡ node_count_max
    → Agrees (update_nodes env d).network_info.ldn.nodes d.stations
      × ((update_nodes env d).network_info.ldn.node_count ≡ connected_count d.stations + 1)
      × ((update_nodes env d).network_info.ldn.node_count ≤ node_count_max)
update_nodes-Agrees env d n s l = rw (network_info-update_nodes env d) (
  override_all-Agrees 1 d.stations d.network_info.ldn.nodes n (omega arith),
  refl,
  omega (arith, connected_count-le d.stations),
)

stations-changed : (d : Discovery) → (on_network_info_changed d).stations ≡ d.stations
unfolding on_network_info_changed
stations-changed d = ground arith

stations-publish_with :
    (c : Option (ℕ × ℕ)) (d : Discovery) → (publish_with c d).stations ≡ d.stations
unfolding publish_with
stations-publish_with none d = refl
stations-publish_with (some c) d = refl

pub stations-update_nodes : (env : Env) (d : Discovery) → (update_nodes env d).stations ≡ d.stations
unfolding update_nodes
stations-update_nodes env d = stations-publish_with env.ip_config _ ∙ stations-changed _

override_info_ip :
    (st : Station) (ns : List NodeInfo) (i : ℕ)
    → (get_or (override_info st ns) i blank_node).ipv4_address
      ≡ (get_or ns i blank_node).ipv4_address
unfolding override_info
override_info_ip st [] i = refl
override_info_ip st (n ∷ ns) i = elim (ℕ_discrete st.node_id i) [
  | yes e ↦ elim (dec_lt i (length (n ∷ ns))) [
    | yes h ↦
        rw e (ap (λ (x : NodeInfo). x.ipv4_address) (get_or-set_self (n ∷ ns) i _ blank_node h))
    | no h ↦ rw (set_outside (n ∷ ns) st.node_id _ (omega arith))
  ]
  | no e ↦
      ap (λ (x : NodeInfo). x.ipv4_address)
        (get_or-set_ne (n ∷ ns) {i = st.node_id} {j = i} _ blank_node e)
]

-- updateNodes never changes an address.
pub override_all_ip :
    (sts : List Station) (ns : List NodeInfo) (i : ℕ)
    → (get_or (override_all sts ns) i blank_node).ipv4_address
      ≡ (get_or ns i blank_node).ipv4_address
unfolding override_all
override_all_ip [] ns i = refl
override_all_ip (st ∷ rest) ns i =
    override_all_ip rest (override_info st ns) i ∙ override_info_ip st ns i

state-changed : (d : Discovery) → (on_network_info_changed d).state ≡ d.state
unfolding on_network_info_changed
state-changed d = ground arith

state-publish_with : (c : Option (ℕ × ℕ)) (d : Discovery) → (publish_with c d).state ≡ d.state
unfolding publish_with
state-publish_with none d = refl
state-publish_with (some c) d = refl

-- Neither the event nor the publication moves the state machine.
pub state-settle :
    (env : Env) (d : Discovery)
    → (publish_session_registry env (on_network_info_changed d)).state ≡ d.state
state-settle env d = state-publish_with env.ip_config _ ∙ state-changed d

pub network_info-settle :
    (env : Env) (d : Discovery)
    → (publish_session_registry env (on_network_info_changed d)).network_info ≡ d.network_info
network_info-settle env d = network_info-publish_with env.ip_config _ ∙ (changed_fields d).0

pub state-update_nodes : (env : Env) (d : Discovery) → (update_nodes env d).state ≡ d.state
unfolding update_nodes
state-update_nodes env d = state-settle env _

seq-publish_with :
    (c : Option (ℕ × ℕ)) (d : Discovery) → (publish_with c d).relay_sync_seq ≡ d.relay_sync_seq
unfolding publish_with
seq-publish_with none d = refl
seq-publish_with (some c) d = refl

valid-publish_with :
    (c : Option (ℕ × ℕ)) (d : Discovery)
    → (publish_with c d).relay_sync_seq_valid ≡ d.relay_sync_seq_valid
unfolding publish_with
valid-publish_with none d = refl
valid-publish_with (some c) d = refl

seq-changed :
    (d : Discovery)
    → ((on_network_info_changed d).relay_sync_seq ≡ d.relay_sync_seq)
      × ((on_network_info_changed d).relay_sync_seq_valid ≡ d.relay_sync_seq_valid)
unfolding on_network_info_changed
seq-changed d = ground arith

pub seq-settle :
    (env : Env) (d : Discovery)
    → let d' = publish_session_registry env (on_network_info_changed d) in
      (d'.relay_sync_seq ≡ d.relay_sync_seq) × (d'.relay_sync_seq_valid ≡ d.relay_sync_seq_valid)
seq-settle env d = (
  seq-publish_with env.ip_config _ ∙ (seq-changed d).0,
  valid-publish_with env.ip_config _ ∙ (seq-changed d).1,
)
