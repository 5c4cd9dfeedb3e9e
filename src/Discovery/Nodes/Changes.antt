-- ===== src/Discovery/Nodes/Changes.antt =====
-- When the state-change event fires.
use ldn_mitm.Base.{
  ℕ, suc, ◌≡◌, refl, ap, ◌∙◌, List, [], ◌∷◌, false, Bool-cases, inl, inr, map, length, arith,
}
use ldn_mitm.Ldn.{NodeInfo}
use ldn_mitm.Discovery.{Discovery}
use ldn_mitm.Discovery.Nodes.{track, on_network_info_changed}

abbrev pub flags : List NodeInfo → List ℕ
flags = map (λ n. n.is_connected)

track-flags :
    (ns : List NodeInfo) (cs ls : List ℕ)
    → length cs ≡ length ns
    → length ls ≡ length ns
    → (track ns cs ls).1 ≡ flags ns
unfolding track
track-flags [] [] [] p q = refl
track-flags [] [] (l ∷ ls) p q = absurd (omega arith)
track-flags [] (c ∷ cs) ls p q = absurd (omega arith)
track-flags (n ∷ ns) [] ls p q = absurd (omega arith)
track-flags (n ∷ ns) (c ∷ cs) [] p q = absurd (omega arith)
track-flags (n ∷ ns) (c ∷ cs) (l ∷ ls) p q =
    ap (◌∷◌ n.is_connected) (track-flags ns cs ls (omega arith) (omega arith))

track_self :
    (ns : List NodeInfo) (cs : List ℕ)
    → length cs ≡ length ns
    → track ns cs (flags ns) ≡ (cs, flags ns, false)
unfolding track
track_self [] cs p = refl
track_self (n ∷ ns) [] p = absurd (omega arith)
track_self (n ∷ ns) (c ∷ cs) p = rw (track_self ns cs (omega arith)) (ground arith)

length-track : (ns : List NodeInfo) (cs ls : List ℕ) → length (track ns cs ls).0 ≡ length cs
unfolding track
length-track [] cs ls = refl
length-track (n ∷ ns) [] ls = refl
length-track (n ∷ ns) (c ∷ cs) [] = refl
length-track (n ∷ ns) (c ∷ cs) (l ∷ ls) = ap suc (length-track ns cs ls)

pub record IsTracked (d : Discovery) : Type 0 where
  pub changes_length : length d.node_changes ≡ length d.network_info.ldn.nodes
  pub lasts_length : length d.node_last_states ≡ length d.network_info.ldn.nodes

-- What the call does to the fields that it reads.
pub changed_fields :
    (d : Discovery)
    → let t = track d.network_info.ldn.nodes d.node_changes d.node_last_states in
      ((on_network_info_changed d).network_info ≡ d.network_info)
      × ((on_network_info_changed d).node_changes ≡ t.0)
      × ((on_network_info_changed d).node_last_states ≡ t.1)
unfolding on_network_info_changed
changed_fields d =
    elim (Bool-cases (track d.network_info.ldn.nodes d.node_changes d.node_last_states).2) [
      | inl e ↦ (rw e, rw e, rw e)
      | inr e ↦ (rw e, rw e, rw e)
    ]

quiet :
    (d : Discovery)
    → track d.network_info.ldn.nodes d.node_changes d.node_last_states
      ≡ (d.node_changes, d.node_last_states, false)
    → on_network_info_changed d ≡ d
unfolding on_network_info_changed
quiet d e = rw e

-- With one change and one last state for each node, onNetworkInfoChanged takes the nodes' flags over as the last ones seen, so that a second call
-- with no change between does nothing: no event is fired twice for one change.
pub on_network_info_changed_once :
    (d : Discovery)
    → IsTracked d
    → ((on_network_info_changed d).node_last_states ≡ flags d.network_info.ldn.nodes)
      × (on_network_info_changed (on_network_info_changed d) ≡ on_network_info_changed d)
on_network_info_changed_once d v = (last, quiet (on_network_info_changed d) settled)
  where
    nodes : List NodeInfo
    nodes = d.network_info.ldn.nodes

    last : (on_network_info_changed d).node_last_states ≡ flags nodes
    last =
        (changed_fields d).2
        ∙ track-flags nodes d.node_changes d.node_last_states v.changes_length v.lasts_length

    settled :
        track
          (on_network_info_changed d).network_info.ldn.nodes
          (on_network_info_changed d).node_changes
          (on_network_info_changed d).node_last_states
        ≡ (
          (on_network_info_changed d).node_changes,
          (on_network_info_changed d).node_last_states,
          false,
        )
    settled =
        rw ((changed_fields d).0, last, (changed_fields d).1)
          (track_self nodes (track nodes d.node_changes d.node_last_states).0
            (length-track nodes d.node_changes d.node_last_states ∙ v.changes_length))
