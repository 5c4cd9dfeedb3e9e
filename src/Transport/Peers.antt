-- ===== src/Transport/Peers.antt =====
-- RelayTransport::LearnPeer and LookupVsrc together.
use ldn_mitm.Base.{
  ℕ, zero, suc, ◌<◌, ◌≡◌, ◌≢◌, refl, inl, inr, List, [], ◌∷◌, true, none, some, Option-cases,
  length, length-set, set, get_or, arith,
}
use ldn_mitm.Transport.{
  Transport, PeerAddr, blank_peer, peer_map_max, update_peer, learnable, learn_peer, find_vsrc,
  lookup_vsrc,
}

update_peer-some :
    (real vsrc other : ℕ) (ps : List PeerAddr) {ps' : List PeerAddr}
    → update_peer real vsrc ps ≡ some ps'
    → (find_vsrc real ps' ≡ vsrc)
      × (real ≢ other → find_vsrc other ps' ≡ find_vsrc other ps)
      × (length ps' ≡ length ps)
unfolding update_peer find_vsrc
update_peer-some real vsrc other [] e = cc
update_peer-some real vsrc other (p ∷ ps) {ps'} e = elim (Option-cases (update_peer real vsrc ps)) [
  | inl n ↦ (ground arith, λ ne. ground arith, ground arith)
  | inr (qs, h) ↦
      let ih = update_peer-some real vsrc other ps h in
      (ground (arith, ih), λ ne. ground (arith, ih.1 ne), ground (arith, ih))
]

update_peer-none :
    (real vsrc : ℕ) (ps : List PeerAddr) → update_peer real vsrc ps ≡ none → find_vsrc real ps ≡ 0
unfolding update_peer find_vsrc
update_peer-none real vsrc [] e = refl
update_peer-none real vsrc (p ∷ ps) e = elim (Option-cases (update_peer real vsrc ps)) [
  | inl n ↦ ground (arith, update_peer-none real vsrc ps n)
  | inr (qs, h) ↦ ground arith
]

-- no entry has this real address
abbrev pub Absent : ℕ → List PeerAddr → Type 0
Absent real [] = Unit {0}
Absent real (p ∷ ps) = (p.real ≢ real) × Absent real ps

update_peer-Absent :
    (real vsrc : ℕ) (ps : List PeerAddr) → update_peer real vsrc ps ≡ none → Absent real ps
unfolding update_peer
update_peer-Absent real vsrc [] e = tt
update_peer-Absent real vsrc (p ∷ ps) e = elim (Option-cases (update_peer real vsrc ps)) [
  | inl n ↦ (ground arith, update_peer-Absent real vsrc ps n)
  | inr (qs, h) ↦ absurd (ground arith)
]

find_vsrc-set :
    (real vsrc i : ℕ) (ps : List PeerAddr)
    → Absent real ps
    → i < length ps
    → find_vsrc real (set ps i (record { real = real; vsrc = vsrc })) ≡ vsrc
unfolding find_vsrc
find_vsrc-set real vsrc i [] a h = absurd (omega arith)
find_vsrc-set real vsrc zero (p ∷ ps) a h = ground arith
find_vsrc-set real vsrc (suc i) (p ∷ ps) a h =
    ground (arith, find_vsrc-set real vsrc i ps a.1 (omega arith))

find_vsrc-set_ne :
    (real vsrc other i : ℕ) (ps : List PeerAddr)
    → real ≢ other
    → (get_or ps i blank_peer).real ≢ other
    → find_vsrc other (set ps i (record { real = real; vsrc = vsrc })) ≡ find_vsrc other ps
unfolding find_vsrc
find_vsrc-set_ne real vsrc other i [] n g = refl
find_vsrc-set_ne real vsrc other zero (p ∷ ps) n g = ground arith
find_vsrc-set_ne real vsrc other (suc i) (p ∷ ps) n g =
    ground (arith, find_vsrc-set_ne real vsrc other i ps n g)

pub record IsMap (t : Transport) : Type 0 where
  pub full_length : length t.peers ≡ peer_map_max
  pub next_in : t.peer_next < peer_map_max

-- LearnPeer keeps a peer map of 16 entries whose next one is in range.
pub learn_peer-IsMap : (t : Transport) (real vsrc : ℕ) → IsMap t → IsMap (learn_peer t real vsrc)
unfolding learn_peer
learn_peer-IsMap t real vsrc m = elim (Option-cases (update_peer real vsrc t.peers)) [
  | inl n ↦ ground (arith, length-set t.peers t.peer_next (record { real = real; vsrc = vsrc }))
  | inr (ps, h) ↦ ground (arith, update_peer-some real vsrc 0 t.peers h)
]

-- In a map of 16 entries whose next one is in range: after LearnPeer accepts a pair, LookupVsrc
-- finds it, whatever was stored before.
pub lookup_vsrc-learn_peer :
    (t : Transport) (real vsrc : ℕ)
    → IsMap t
    → learnable t real vsrc ≡ true
    → lookup_vsrc (learn_peer t real vsrc) real ≡ vsrc
unfolding learn_peer
lookup_vsrc-learn_peer t real vsrc m ok = elim (Option-cases (update_peer real vsrc t.peers)) [
  | inl n ↦ ground (
    arith,
    find_vsrc-set real vsrc t.peer_next t.peers (update_peer-Absent real vsrc t.peers n)
        (omega arith),
  )
  | inr (ps, h) ↦ ground (arith, (update_peer-some real vsrc real t.peers h).0)
]

-- The address of a peer other than the one learned changes only if the peer was the entry whose
-- turn it was to be given up.
pub lookup_vsrc-learn_peer_ne :
    (t : Transport) (real vsrc other : ℕ)
    → real ≢ other
    → (get_or t.peers t.peer_next blank_peer).real ≢ other
    → lookup_vsrc (learn_peer t real vsrc) other ≡ lookup_vsrc t other
unfolding learn_peer
lookup_vsrc-learn_peer_ne t real vsrc other n g =
    elim (Option-cases (update_peer real vsrc t.peers)) [
      | inl e ↦ ground (arith, find_vsrc-set_ne real vsrc other t.peer_next t.peers n g)
      | inr (ps, h) ↦ ground (arith, (update_peer-some real vsrc other t.peers h).1 n)
    ]
