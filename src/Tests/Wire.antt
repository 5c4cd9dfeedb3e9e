-- ===== src/Tests/Wire.antt =====
-- Packets, frames and datagrams.
use Prim.{tt}
use mathlib.Core.List.{flatten}
use ldn_mitm.Base.{ℕ, ◌≡◌, refl, ◌<◌, ◌≤◌, List, [], ◌∷◌, ◌++◌, true, some, length, arith}
use ldn_mitm.Protocol.Header.{
  Header, scan, scan_resp, connect, lan_magic, header_bytes, read_header, prepare_header, next_seq,
  next_seq_bounds, read_header-header_bytes,
}
use ldn_mitm.Protocol.Compress.{compress, decompress}
use ldn_mitm.Protocol.Compress.Laws.{decompress-compress}
use ldn_mitm.Protocol.Socket.{
  LanSocket, arrived, receive_all, send_packet, deliver, recv_packet, buffer_size, frame,
  recv_part_packet, take_packet, open_packet, packet_body,
}
use ldn_mitm.Protocol.Socket.Framing.{receive_all-send_packet}
use ldn_mitm.Protocol.Socket.Bounds.{HasRoom, recv_packet-HasRoom, recv_packet-le}
use ldn_mitm.Transport.{learn_peer, lookup_vsrc, find_vsrc}
use ldn_mitm.Registry.{has_peer, is_session_peer}
use ldn_mitm.Transport.Peers.{
  IsMap, learn_peer-IsMap, lookup_vsrc-learn_peer, lookup_vsrc-learn_peer_ne,
}
use ldn_mitm.Transport.Wrap.{ip_checksum, ip_header, send_game_unicast}
use ldn_mitm.Transport.Wrap.Checksum.{ip_checksum-ip_header}
use ldn_mitm.Transport.Receive.{Received, recv_broadcast}
use ldn_mitm.Transport.Receive.Delivery.{send_game_unicast-recv_broadcast}
use ldn_mitm.GameRx.{initial, push}
use ldn_mitm.Tests.Fixtures.{host_ip, guest_ip, host_transport, guest_transport, guest_session}

abbrev sender : LanSocket
sender = record { buffer = []; tx_seq = 65535; rx_seq = 0 }

abbrev receiver : LanSocket
receiver = record { buffer = []; tx_seq = 0; rx_seq = 9 }

abbrev body : List ℕ
body = 5 ∷ 0 ∷ 0 ∷ 0 ∷ 0 ∷ 6 ∷ []

-- The packet that leaves: the zeros are packed, and the counter has gone from 65535 to 1.
packet_bytes :
    (send_packet sender connect body).1
    ≡ 0 ∷ 0x14 ∷ 0x45 ∷ 0x11 ∷ 2 ∷ 1 ∷ 4 ∷ 0 ∷ 6 ∷ 0 ∷ 1 ∷ 0 ∷ 5 ∷ 0 ∷ 3 ∷ 6 ∷ []
unfolding send_packet frame compress header_bytes prepare_header
packet_bytes = refl

-- Two reads, the first of which ends within the header.
receive_all-send_packet_example :
    receive_all receiver
      ((0 ∷ 0x14 ∷ 0x45 ∷ 0x11 ∷ 2 ∷ []) ∷ (1 ∷ 4 ∷ 0 ∷ 6 ∷ 0 ∷ 1 ∷ 0 ∷ 5 ∷ 0 ∷ 3 ∷ 6 ∷ []) ∷ [])
    ≡ (
      record receiver { buffer = []; rx_seq = (send_packet sender connect body).0.tx_seq },
      deliver connect body ∷ [],
    )
unfolding send_packet frame compress header_bytes prepare_header next_seq flatten
receive_all-send_packet_example =
    receive_all-send_packet sender receiver connect body
      ((0 ∷ 0x14 ∷ 0x45 ∷ 0x11 ∷ 2 ∷ []) ∷ (1 ∷ 4 ∷ 0 ∷ 6 ∷ 0 ∷ 1 ∷ 0 ∷ 5 ∷ 0 ∷ 3 ∷ 6 ∷ []) ∷ []) tt
      (omega arith) refl (omega arith, (omega arith, tt)) refl

decompress-compress_example : decompress 6 (5 ∷ 0 ∷ 3 ∷ 6 ∷ []) ≡ some body
unfolding compress
decompress-compress_example = decompress-compress 6 body 6 refl (omega arith)

recv_packet-HasRoom_example : HasRoom (recv_packet receiver (arrived (0 ∷ 0x14 ∷ []))).0
recv_packet-HasRoom_example =
    recv_packet-HasRoom receiver (arrived (0 ∷ 0x14 ∷ [])) (omega arith) (omega arith)

recv_packet-le_example : length {A = ℕ} (7 ∷ []) ≤ buffer_size
unfolding recv_packet recv_part_packet take_packet open_packet packet_body read_header
recv_packet-le_example =
    recv_packet-le receiver
      (arrived (0 ∷ 0x14 ∷ 0x45 ∷ 0x11 ∷ 0 ∷ 0 ∷ 1 ∷ 0 ∷ 0 ∷ 0 ∷ 1 ∷ 0 ∷ 7 ∷ [])) {kind = scan}
      {body = 7 ∷ []} refl

abbrev header : Header
header = record {
  magic = lan_magic;
  kind = scan_resp;
  compressed = true;
  body_length = 900;
  decompress_length = 1152;
  seq = 300;
}

read_header-header_bytes_example : read_header (header_bytes header ++ 1 ∷ []) ≡ header
read_header-header_bytes_example = read_header-header_bytes header (1 ∷ []) (record {
  magic_fits = omega arith;
  kind_named = tt;
  length_fits = omega arith;
  decompress_length_fits = omega arith;
  seq_fits = omega arith;
})

next_seq_bounds_example : (0 < next_seq 65535) × (next_seq 65535 < 65536)
next_seq_bounds_example = next_seq_bounds 65535

ip_checksum-ip_header_example :
    ip_checksum (
      ip_header host_ip guest_ip 0x474E 100 (ip_checksum (ip_header host_ip guest_ip 0x474E 100 0)))
    ≡ 0
ip_checksum-ip_header_example = ip_checksum-ip_header host_ip guest_ip 0x474E 100

learn_peer-IsMap_example : IsMap (learn_peer host_transport 5 0x0A0D0009)
learn_peer-IsMap_example =
    learn_peer-IsMap host_transport 5 0x0A0D0009
      (record { full_length = refl; next_in = omega arith })

lookup_vsrc-learn_peer_example : lookup_vsrc (learn_peer host_transport 5 0x0A0D0009) 5 ≡ 0x0A0D0009
lookup_vsrc-learn_peer_example =
    lookup_vsrc-learn_peer host_transport 5 0x0A0D0009
      (record { full_length = refl; next_in = omega arith }) refl

lookup_vsrc-learn_peer_ne_example :
    lookup_vsrc (learn_peer host_transport 5 0x0A0D0009) guest_ip
    ≡ lookup_vsrc host_transport guest_ip
lookup_vsrc-learn_peer_ne_example =
    lookup_vsrc-learn_peer_ne host_transport 5 0x0A0D0009 guest_ip (omega arith) (omega arith)

-- The host's game sends three bytes to the guest's port 12345.
send_game_unicast-recv_broadcast_example :
    (f : List ℕ) × (send_game_unicast (λ k. true) host_transport (1 ∷ 2 ∷ 3 ∷ []) 12345 guest_ip
      ≡ (host_transport, f ∷ [], true))
    × (recv_broadcast guest_transport guest_session initial 2048 (some f) ≡ (
      record guest_transport { ping_misses = 0 },
      push initial
          (record { src_ip = host_ip; sport = 12345; dport = 12345; payload = 1 ∷ 2 ∷ 3 ∷ [] }),
      Received.nothing,
    ))
unfolding find_vsrc has_peer is_session_peer
send_game_unicast-recv_broadcast_example =
    send_game_unicast-recv_broadcast host_transport guest_transport guest_session initial 2048
      guest_ip 12345 (1 ∷ 2 ∷ 3 ∷ []) refl refl (omega arith) (omega arith) (omega arith)
      (omega arith) (omega arith) (omega arith) (omega arith) (omega arith) (omega arith)
      (omega arith) refl (omega arith) (omega arith)
