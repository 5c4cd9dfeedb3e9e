-- ===== src/Transport/Receive.antt =====
-- The receiving side of RelayTransport: one datagram from the relay server, its fragments, and
-- where its packet goes: to discovery, to the game's queue or to the TCP tunnel.
pub mod Delivery
pub mod Fragments
use ldn_mitm.Base.{
  ℕ, zero, suc, ◌+◌, ◌-◌, ◌*◌, ◌/◌, ◌%◌, ◌^◌, List, [], ◌∷◌, ◌++◌, Bool, true, false, not, ◌&&◌,
  ◌||◌, Option, none, some, if◌then◌else◌, ◌==◌, ltb, leb, length, take, drop, set, get_or, u8, u16,
  byte_at, be16_at, be32_at,
}
use ldn_mitm.Registry.{Snapshot, is_session_peer}
use ldn_mitm.GameRx.{GameRx, Entry, push}
use ldn_mitm.Transport.{Transport, FragSlot, blank_slot, frag_slots, frag_buffer_size}
use ldn_mitm.Transport.Wrap.{
  ip_id_game_v2, game_shim_len, max_wrap_payload, type_ipv4, type_ipv4_frag,
}

-- What RecvBroadcast returns: 0, -1, or a LAN packet and its source; and the tunnel's frame that it
-- hands to tcprelay::OnTunnelFrame, returning 0.
pub data Received : Type 0 where
  nothing recv_failed : Received
  lan_packet tunnel_frame : ℕ → List ℕ → Received

-- (ip[0] & 0x0f) * 4
abbrev pub header_length : List ℕ → ℕ
header_length ip = byte_at ip 0 % 16 * 4

abbrev pub ip_src : List ℕ → ℕ
ip_src ip = be32_at ip 12

-- The sender and the bytes of a frame: those of an IpIdGameV2 frame come from its shim, unless it is
-- too short or our own.
unfoldable pub unshim : Transport → List ℕ → List ℕ → Option (ℕ × List ℕ)
unshim t ip payload =
    if be16_at ip 4 == ip_id_game_v2
    then (if not (ltb game_shim_len (length payload)) || ip_src ip == t.vsrc
        then none
        else some (be32_at payload 0, drop game_shim_len payload))
    else some (ip_src ip, payload)

-- InjectGameFrame from the payload's bounds on
unfoldable pub inject_from : Transport → Snapshot → GameRx → ℕ → ℕ → Option (ℕ × List ℕ) → GameRx
inject_from t snap g sport dport none = g
inject_from t snap g sport dport (some (src, payload)) =
    if length payload == 0 || ltb max_wrap_payload (length payload)
    then g
    else if src == t.rsrc || not (is_session_peer snap src)
    then g
    else push g (record { src_ip = src; sport = sport; dport = dport; payload = payload })

-- InjectGameFrame
unfoldable pub inject_game_frame : Transport → Snapshot → GameRx → List ℕ → GameRx
inject_game_frame t snap g ip =
    let ihl = header_length ip in
    let udp = drop ihl ip in
    if t.rsrc == 0 || ltb ihl 20 || ltb (length ip) (ihl + 8)
    then g
    else inject_from t snap g (be16_at udp 0) (be16_at udp 2) (unshim t ip (drop 8 udp))

abbrev pub tcp_tunnel_port : ℕ
tcp_tunnel_port = 11453

abbrev pub default_port : ℕ
default_port = 11452

-- The gate of a tunnel frame: from another console of our session
unfoldable pub tunnel_from : Transport → Snapshot → Option (ℕ × List ℕ) → Received
tunnel_from t snap none = Received.nothing
tunnel_from t snap (some (src, bytes)) =
    if ltb 0 (length bytes) && not (src == t.rsrc) && is_session_peer snap src
    then Received.tunnel_frame src bytes
    else Received.nothing

-- ProcessIpv4: `max_size` is the room in the caller's buffer.
unfoldable pub process_ipv4 : Transport → Snapshot → GameRx → ℕ → List ℕ → GameRx × Received
process_ipv4 t snap g max_size ip =
    let ihl = header_length ip in
    let udp = drop ihl ip in
    let dport = be16_at udp 2 in
    let payload = drop 8 udp in
    if ltb (length ip) 20
      || ltb ihl 20
      || ltb (length ip) ihl
      || not (byte_at ip 9 == 17)
      || ltb (length ip) (ihl + 8)
    then (g, Received.nothing)
    else if dport == tcp_tunnel_port
    then (g, tunnel_from t snap (unshim t ip payload))
    else if not (dport == default_port)
    then (inject_game_frame t snap g ip, Received.nothing)
    else if length payload == 0 || ltb max_size (length payload)
    then (g, Received.nothing)
    else (g, Received.lan_packet (ip_src ip) payload)

-- The slot searches of ReassembleFrag: the first of this packet, and the first that is free.
unfoldable pub find_slot : ℕ → ℕ → List FragSlot → ℕ → Option ℕ
find_slot id src [] i = none
find_slot id src (f ∷ fs) i =
    if f.used && f.id == id && f.src == src then some i else find_slot id src fs (i + 1)

unfoldable pub find_free : List FragSlot → ℕ → Option ℕ
find_free [] i = none
find_free (f ∷ fs) i = if f.used then find_free fs (i + 1) else some i

-- A slot taken for a new packet keeps its old bytes.
unfoldable pub take_slot : ℕ → ℕ → FragSlot → FragSlot
take_slot id src f = record f { used = true; id = id; src = src; mask = 0; total_len = 0 }

-- The transport, and the slot that the fragment belongs to: all slots in use are recycled in turn.
unfoldable pub choose_slot : Transport → ℕ → ℕ → Option ℕ → Option ℕ → Transport × ℕ × FragSlot
choose_slot t id src (some i) free = (t, i, get_or t.frags i blank_slot)
choose_slot t id src none (some i) = (t, i, take_slot id src (get_or t.frags i blank_slot))
choose_slot t id src none none =
    let i = t.frag_evict % frag_slots in
    (
      record t { frag_evict = u8 (t.frag_evict + 1) },
      i,
      take_slot id src (get_or t.frags i blank_slot),
    )

-- mask | 1 << part
abbrev pub set_bit : ℕ → ℕ → ℕ
set_bit mask part = if mask / 2 ^ part % 2 == 1 then mask else mask + 2 ^ part

-- memcpy(buffer + off, bytes)
abbrev pub write_at : List ℕ → ℕ → List ℕ → List ℕ
write_at buffer off bytes = take off buffer ++ bytes ++ drop (off + length bytes) buffer

-- The fragment's bytes in its slot.
unfoldable pub fill_slot : FragSlot → ℕ → ℕ → ℕ → List ℕ → FragSlot
fill_slot f part total off bytes = record f {
  mask = set_bit f.mask part;
  buffer = write_at f.buffer off bytes;
  total_len = if part + 1 == total then u16 (off + length bytes) else f.total_len;
}

-- The slot goes back into its place; a complete packet frees it and is returned.
unfoldable pub close_slot : Transport → ℕ → FragSlot → ℕ → Transport × Option (List ℕ)
close_slot t i f total =
    if f.mask == 2 ^ total - 1
    then (
      record t { frags = set t.frags i (record f { used = false }) },
      some (take f.total_len f.buffer),
    )
    else (record t { frags = set t.frags i f }, none)

-- ReassembleFrag
unfoldable pub reassemble_frag : Transport → List ℕ → Transport × Option (List ℕ)
reassemble_frag t p =
    let src = be32_at p 0 in
    let id = be16_at p 8 in
    let part = byte_at p 10 in
    let total = byte_at p 11 in
    let len = be16_at p 12 in
    let off = be16_at p 14 * part in
    let (t', i, f) = choose_slot t id src (find_slot id src t.frags 0) (find_free t.frags 0) in
    if ltb (length p) 16
      || total == 0
      || ltb 8 total
      || leb total part
      || ltb (length p - 16) len
      || ltb frag_buffer_size (off + len)
    then (t, none)
    else close_slot t' i (fill_slot f part total off (take len (drop 16 p))) total

-- RecvBroadcast once the datagram is there: its first byte says what it is.
unfoldable pub receive_frame :
    Transport → Snapshot → GameRx → ℕ → ℕ → List ℕ → Transport × GameRx × Received
receive_frame t snap g max_size kind rest =
    if kind % 128 == 2
    then (record t { ping_supported = true }, g, Received.nothing)
    else if kind % 128 == type_ipv4_frag
    then (let (t', whole) = reassemble_frag t rest in
        elim whole [
          | none ↦ (t', g, Received.nothing)
          | some ip ↦ let (g', r) = process_ipv4 t' snap g max_size ip in (t', g', r)
        ])
    else if kind % 128 == type_ipv4
    then (let (g', r) = process_ipv4 t snap g max_size rest in (t, g', r))
    else (t, g, Received.nothing)

-- RecvBroadcast: `some` is the datagram that recv() reads, the empty one for its 0; `none` its failure.
unfoldable pub recv_broadcast :
    Transport → Snapshot → GameRx → ℕ → Option (List ℕ) → Transport × GameRx × Received
recv_broadcast t snap g max_size none = (t, g, Received.recv_failed)
recv_broadcast t snap g max_size (some []) =
    (t, g, if t.is_open then Received.nothing else Received.recv_failed)
recv_broadcast t snap g max_size (some (kind ∷ rest)) =
    if t.is_open
    then receive_frame (record t { ping_misses = 0 }) snap g max_size kind (take 2047 rest)
    else (t, g, Received.recv_failed)
