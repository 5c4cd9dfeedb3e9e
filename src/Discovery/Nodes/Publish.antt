-- ===== src/Discovery/Nodes/Publish.antt =====
-- Whom the bsd:u handlers take for a peer of the session.
use ldn_mitm.Base.{ℕ, List, [], ◌∷◌, Bool, false, ◌||◌, ◌==◌}
use ldn_mitm.Ldn.{NodeInfo}
use ldn_mitm.Discovery.{Discovery}

-- One of the nodes has this address.
unfoldable pub has_node : List NodeInfo → ℕ → Bool
has_node [] ip = false
has_node (n ∷ ns) ip = n.ipv4_address == ip || has_node ns ip
