-- ===== src/Transport/Wrap.antt =====
-- The sending side of RelayTransport: IP and UDP headers around a payload, lan-play's fragments, and
-- the game's datagrams with their shim. `sends k` is whether the k-th send of the call succeeds.
pub mod Checksum
use ldn_mitm.Base.{
  ℕ, zero, suc, ◌+◌, ◌-◌, ◌*◌, ◌/◌, ◌%◌, List, [], ◌∷◌, ◌++◌, Bool, true, false, not, ◌||◌,
  if◌then◌else◌, ◌==◌, ltb, length, take, drop, set, u8, u16, u32,
}
use ldn_mitm.Transport.{Transport, lookup_vsrc}

abbrev pub be16 : ℕ → List ℕ
be16 n = n / 256 % 256 ∷ n % 256 ∷ []

abbrev pub be32 : ℕ → List ℕ
be32 n = n / 16777216 % 256 ∷ n / 65536 % 256 ∷ n / 256 % 256 ∷ n % 256 ∷ []

-- IpChecksum: the sum of the big-endian words, an odd last byte as a high one
abbrev pub sum_words : List ℕ → ℕ
sum_words [] = 0
sum_words (x ∷ []) = x * 256
sum_words (x ∷ y ∷ rest) = x * 256 + y + sum_words rest

-- `while (s >> 16)`, at most `fuel` rounds
unfoldable pub fold_carries : ℕ → ℕ → ℕ
fold_carries zero s = s
fold_carries (suc fuel) s =
    let rest = fold_carries fuel (s % 65536 + s / 65536) in if s / 65536 == 0 then s else rest

-- Three rounds are enough for a u32.
unfoldable pub ip_checksum : List ℕ → ℕ
ip_checksum d = 65535 - fold_carries 3 (u32 (sum_words d))

abbrev pub type_ipv4 : ℕ
type_ipv4 = 1

abbrev pub type_ipv4_frag : ℕ
type_ipv4_frag = 3

abbrev pub ip_id_control : ℕ
ip_id_control = 0x4243

abbrev pub ip_id_game : ℕ
ip_id_game = 0x474D

abbrev pub ip_id_game_v2 : ℕ
ip_id_game_v2 = 0x474E

abbrev pub game_shim_len : ℕ
game_shim_len = 8

abbrev pub max_wrap_payload : ℕ
max_wrap_payload = 1472

abbrev pub single_frame_max : ℕ
single_frame_max = 1500

-- the 20 bytes of the IP header, with this checksum
unfoldable pub ip_header : ℕ → ℕ → ℕ → ℕ → ℕ → List ℕ
ip_header src dst ip_id total cs =
    0x45
    ∷ 0
    ∷ total / 256 % 256
    ∷ total % 256
    ∷ ip_id / 256 % 256
    ∷ ip_id % 256
    ∷ 0x40
    ∷ 0
    ∷ 64
    ∷ 17
    ∷ cs / 256 % 256
    ∷ cs % 256
    ∷ src / 16777216 % 256
    ∷ src / 65536 % 256
    ∷ src / 256 % 256
    ∷ src % 256
    ∷ dst / 16777216 % 256
    ∷ dst / 65536 % 256
    ∷ dst / 256 % 256
    ∷ dst % 256
    ∷ []

unfoldable pub udp_header : ℕ → ℕ → ℕ → List ℕ
udp_header sport dport udplen =
    sport / 256 % 256
    ∷ sport % 256
    ∷ dport / 256 % 256
    ∷ dport % 256
    ∷ udplen / 256 % 256
    ∷ udplen % 256
    ∷ 0
    ∷ 0
    ∷ []

-- The packet that SendWrapped builds in `ip`: the checksum is taken over a header whose own is 0.
unfoldable pub wrap : ℕ → ℕ → ℕ → ℕ → ℕ → List ℕ → List ℕ
wrap src dst sport dport ip_id payload =
    let udplen = u16 (8 + length payload) in
    let total = u16 (20 + udplen) in
    ip_header src dst ip_id total (ip_checksum (ip_header src dst ip_id total 0))
    ++ udp_header sport dport udplen
    ++ payload

abbrev pub pmtu : ℕ
pmtu = 1024

-- One IPV4_FRAG frame: src dst id part total_part len pmtu, and the chunk.
unfoldable pub fragment : ℕ → ℕ → ℕ → ℕ → ℕ → List ℕ → List ℕ
fragment src dst id part parts chunk =
    type_ipv4_frag ∷ be32 src
    ++ be32 dst
    ++ be16 id
    ++ (part ∷ parts ∷ be16 (length chunk))
    ++ be16 pmtu
    ++ chunk

-- What a send gives: the transport, the frames that were given to send(), and whether the call
-- returned a number of bytes rather than -1.
abbrev pub SendResult : Type 0
SendResult = Transport × List (List ℕ) × Bool

-- The loop of SendFragmented from `part` on, `left` parts to go: a send that fails ends it.
unfoldable pub send_parts : (ℕ → Bool) → ℕ → ℕ → ℕ → ℕ → ℕ → ℕ → List ℕ → List (List ℕ) × Bool
send_parts sends src dst id parts part zero packet = ([], true)
send_parts sends src dst id parts part (suc left) packet =
    let (frames, ok) = send_parts sends src dst id parts (part + 1) left (drop pmtu packet) in
    let frame = fragment src dst id part parts (take pmtu packet) in
    if sends part then (frame ∷ frames, ok) else (frame ∷ [], false)

-- SendFragmented
unfoldable pub send_fragmented : (ℕ → Bool) → Transport → ℕ → ℕ → List ℕ → SendResult
send_fragmented sends t src dst packet =
    let parts = u8 ((length packet + pmtu - 1) / pmtu) in
    if parts == 0 || ltb 8 parts
    then (t, [], false)
    else (let (frames, ok) = send_parts sends src dst t.frag_send_id parts 0 parts packet in
        (record t { frag_send_id = u16 (t.frag_send_id + 1) }, frames, ok))

-- SendWrapped
unfoldable pub send_wrapped : (ℕ → Bool) → Transport → ℕ → ℕ → ℕ → ℕ → ℕ → List ℕ → SendResult
send_wrapped sends t src dst sport dport ip_id payload =
    let packet = wrap src dst sport dport ip_id payload in
    if ltb single_frame_max (length packet + 1)
    then send_fragmented sends t src dst packet
    else (t, (type_ipv4 ∷ packet) ∷ [], sends 0)

-- SendBroadcast: a LAN packet to 10.13.255.255:11452
unfoldable pub send_broadcast : (ℕ → Bool) → Transport → List ℕ → SendResult
send_broadcast sends t lan_packet =
    if not t.is_open || ltb max_wrap_payload (length lan_packet)
    then (t, [], false)
    else send_wrapped sends t t.vsrc 0x0A0DFFFF 11452 11452 ip_id_control lan_packet

abbrev pub broadcast_dst : ℕ
broadcast_dst = 0xFFFFFFFF

-- the virtual destination: 0 if the peer is not known yet
abbrev pub virtual_dst : Transport → ℕ → ℕ
virtual_dst t dst_ip = if dst_ip == broadcast_dst then broadcast_dst else lookup_vsrc t dst_ip

-- SendGameUnicast: by virtual addresses, with the real ones in a shim, or the legacy real-IP frame.
unfoldable pub send_game_unicast : (ℕ → Bool) → Transport → List ℕ → ℕ → ℕ → SendResult
send_game_unicast sends t payload dport dst_ip =
    if not t.is_open || t.rsrc == 0 || length payload == 0 || ltb max_wrap_payload (length payload)
    then (t, [], false)
    else if not (virtual_dst t dst_ip == 0)
    then send_wrapped sends t t.vsrc (virtual_dst t dst_ip) dport dport ip_id_game_v2
        (be32 t.rsrc ++ be32 dst_ip ++ payload)
    else send_wrapped sends t t.rsrc dst_ip dport dport ip_id_game payload

-- SendGameBroadcast
unfoldable pub send_game_broadcast : (ℕ → Bool) → Transport → List ℕ → ℕ → SendResult
send_game_broadcast sends t payload dport = send_game_unicast sends t payload dport broadcast_dst
