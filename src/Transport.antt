-- ===== src/Transport.antt =====
-- RelayTransport of ldn_mitm/source/relay_client.cpp: its state, peer map and path liveness. The
-- system calls (nifm, socket, send) are outside; a send is the bytes that are given to it.
pub mod Peers
pub mod Wrap
pub mod Receive
use ldn_mitm.Base.{
  ℕ, zero, suc, ◌+◌, ◌*◌, ◌/◌, ◌%◌, ◌^◌, List, [], ◌∷◌, Bool, true, false, not, ◌&&◌, ◌||◌, Option,
  none, some, if◌then◌else◌, ◌==◌, leb, replicate, set, get_or, u32,
}

abbrev pub peer_map_max : ℕ
peer_map_max = 16

abbrev pub frag_slots : ℕ
frag_slots = 4

abbrev pub ping_max_misses : ℕ
ping_max_misses = 4

pub record PeerAddr : Type 0 where
  pub real : ℕ
  pub vsrc : ℕ

abbrev pub blank_peer : PeerAddr
blank_peer = record { real = 0; vsrc = 0 }

-- FragSlot; `buffer` is the array of 1600 bytes.
pub record FragSlot : Type 0 where
  pub used : Bool
  pub id : ℕ
  pub src : ℕ
  pub mask : ℕ
  pub total_len : ℕ
  pub buffer : List ℕ

abbrev pub frag_buffer_size : ℕ
frag_buffer_size = 1600

abbrev pub blank_slot : FragSlot
blank_slot = record {
  used = false;
  id = 0;
  src = 0;
  mask = 0;
  total_len = 0;
  buffer = replicate frag_buffer_size 0;
}

-- `is_open` is m_fd >= 0; `m_vsrc` is our address at the relay, `m_rsrc` our real one.
pub record Transport : Type 0 where
  pub is_open : Bool
  pub frag_send_id : ℕ
  pub vsrc : ℕ
  pub rsrc : ℕ
  pub peers : List PeerAddr
  pub peer_next : ℕ
  pub ping_misses : ℕ
  pub ping_supported : Bool
  pub frags : List FragSlot
  pub frag_evict : ℕ

-- The slot search of LearnPeer: an entry with this real address takes the new one.
unfoldable pub update_peer : ℕ → ℕ → List PeerAddr → Option (List PeerAddr)
update_peer real vsrc [] = none
update_peer real vsrc (p ∷ ps) =
    if p.real == real
    then some (record p { vsrc = vsrc } ∷ ps)
    else elim (update_peer real vsrc ps) [ none ↦ none | some ps' ↦ some (p ∷ ps') ]

-- The guard of LearnPeer: a client of the relay, and not ourselves.
abbrev pub learnable : Transport → ℕ → ℕ → Bool
learnable t real vsrc =
    not (real == 0 || real == t.rsrc || vsrc == 0 || vsrc == t.vsrc || not (vsrc / 65536 == 0x0A0D))

-- LearnPeer: a full map gives up its entries in turn.
unfoldable pub learn_peer : Transport → ℕ → ℕ → Transport
learn_peer t real vsrc =
    if learnable t real vsrc
    then elim (update_peer real vsrc t.peers) [
      | some peers ↦ record t { peers = peers }
      | none ↦ record t {
        peers = set t.peers t.peer_next (record { real = real; vsrc = vsrc });
        peer_next = (t.peer_next + 1) % peer_map_max;
      }
    ]
    else t

-- LookupVsrc: 0 if the address is not known.
unfoldable pub find_vsrc : ℕ → List PeerAddr → ℕ
find_vsrc real [] = 0
find_vsrc real (p ∷ ps) = if p.real == real then p.vsrc else find_vsrc real ps

abbrev pub lookup_vsrc : Transport → ℕ → ℕ
lookup_vsrc t real = find_vsrc real t.peers

-- SendKeepalive and SendPing: the bytes sent, `none` for the return value -1.
unfoldable pub send_keepalive : Transport → Option (List ℕ)
send_keepalive t = if t.is_open then some (0 ∷ []) else none

unfoldable pub send_ping : Transport → Transport × Option (List ℕ)
send_ping t =
    if t.is_open
    then (record t { ping_misses = u32 (t.ping_misses + 1) }, some (2 ∷ 0x6c ∷ 0x64 ∷ 0x6e ∷ []))
    else (t, none)

-- PathDead
unfoldable pub path_dead : Transport → Bool
path_dead t = not t.is_open || (t.ping_supported && leb ping_max_misses t.ping_misses)

-- SendScope
unfoldable pub send_scope : Transport → ℕ → Option (List ℕ)
send_scope t token =
    if t.is_open
    then some
        (0x20 ∷ token / 16777216 % 256 ∷ token / 65536 % 256 ∷ token / 256 % 256 ∷ token % 256 ∷ [])
    else none
