-- ===== src/Registry.antt =====
-- SessionRegistry of ldn_mitm/source/session_registry.cpp: the peer set that discovery publishes
-- and the bsd:u handlers read. Each operation runs under its mutex, so it is one step.
use ldn_mitm.Base.{ℕ, Bool, true, false, List, [], ◌∷◌, take, ◌||◌, ◌==◌, ◌&&◌}

abbrev pub max_peers : ℕ
max_peers = 8

-- `peer_ips` holds the first `peer_count` elements of the array.
pub record Snapshot : Type 0 where
  pub active : Bool
  pub bcast_ip : ℕ
  pub peer_ips : List ℕ

-- `g_state = {}`
abbrev pub cleared : Snapshot
cleared = record { active = false; bcast_ip = 0; peer_ips = [] }

-- SessionRegistry::Publish. More than MaxPeers peers are cut off.
unfoldable pub publish : Snapshot → ℕ → List ℕ → Snapshot
publish s bcast peers = record s {
  active = true;
  bcast_ip = bcast;
  peer_ips = take max_peers peers;
}

-- for (i < peer_count) peer_ips[i] == ip: the loop of every handler that asks for a peer
unfoldable pub has_peer : List ℕ → ℕ → Bool
has_peer [] ip = false
has_peer (p ∷ ps) ip = p == ip || has_peer ps ip

-- `snap.active`, and the address is one of its peers
unfoldable pub is_session_peer : Snapshot → ℕ → Bool
is_session_peer s ip = s.active && has_peer s.peer_ips ip
