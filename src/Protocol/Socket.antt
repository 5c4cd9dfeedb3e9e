-- ===== src/Protocol/Socket.antt =====
-- LanSocket's state and its packet operations: recvPartPacket, recvPacket and sendPacket, with the
-- TCP reading of recvfrom. The system call is an argument: the bytes that it put into the buffer.
pub mod Framing
pub mod Bounds
use ldn_mitm.Base.{
  ℕ, ◌+◌, ◌-◌, ◌<◌, List, [], ◌∷◌, ◌++◌, Bool, true, false, Option, none, some, u16, length, take,
  drop, ltb, ◌==◌, not, if◌then◌else◌,
}
use ldn_mitm.Protocol.Compress.{compress, decompress}
use ldn_mitm.Protocol.Header.{
  PacketType, Header, header_size, lan_magic, header_bytes, read_header, prepare_header, next_seq,
}

abbrev pub buffer_size : ℕ
buffer_size = 2048

-- `buffer` holds the first `recvSize` bytes of the array.
pub record LanSocket : Type 0 where
  pub buffer : List ℕ
  pub tx_seq : ℕ
  pub rx_seq : ℕ

-- What `recvfrom` reports: a negative number, given by its size, or the bytes that it stored.
pub data Incoming : Type 0 where
  failed : ℕ → Incoming
  arrived : List ℕ → Incoming

abbrev pub lan_socket_peer_closed : ℕ
lan_socket_peer_closed = 0xFD23

-- TcpLanSocketBase::recvfrom: an orderly shutdown, 0 bytes, becomes an error of its own.
unfoldable pub tcp_recvfrom : Incoming → Incoming
tcp_recvfrom (failed n) = failed n
tcp_recvfrom (arrived []) = failed lan_socket_peer_closed
tcp_recvfrom (arrived (b ∷ bs)) = arrived (b ∷ bs)

-- The result of a read: a negative return value, 0 with nothing to deliver, or a whole packet.
pub data Part : Type 0 where
  error : ℕ → Part
  pending : Part
  packet : List ℕ → Part

-- The checks on what the buffer holds, made after each read.
unfoldable pub take_packet : LanSocket → LanSocket × Part
take_packet s =
    let header = read_header s.buffer in
    let total = header_size + header.body_length in
    if ltb (length s.buffer) header_size
    then (s, pending)
    else if not (header.magic == lan_magic)
    then (record s { buffer = [] }, pending)
    else if ltb buffer_size total
    then (record s { buffer = [] }, pending)
    else if ltb (length s.buffer) total
    then (s, pending)
    else (record s { buffer = drop total s.buffer }, packet (take total s.buffer))

unfoldable pub recv_part_packet : LanSocket → Incoming → LanSocket × Part
recv_part_packet s (failed n) = (s, error n)
recv_part_packet s (arrived []) = (s, pending)
recv_part_packet s (arrived (b ∷ bs)) = take_packet (record s { buffer = s.buffer ++ b ∷ bs })

-- What `recvPacket` hands to the callback, or its return value without one.
pub data Delivery : Type 0 where
  refused : ℕ → Delivery
  nothing : Delivery
  deliver : PacketType → List ℕ → Delivery

-- The body of a packet, expanded if its header says so; `none` is the return value -1.
unfoldable pub packet_body : Header → List ℕ → Option (List ℕ)
packet_body header body =
    if header.compressed
    then elim (decompress buffer_size body) [
      | none ↦ none
      | some out ↦ if length out == header.decompress_length then some out else none
    ]
    else some body

unfoldable pub open_packet : LanSocket → Part → LanSocket × Delivery
open_packet s (error n) = (s, refused n)
open_packet s pending = (s, nothing)
open_packet s (packet bytes) =
    let header = read_header bytes in
    (
      record s { rx_seq = header.seq },
      elim (packet_body header (drop header_size bytes)) [
        | none ↦ refused 1
        | some body ↦ deliver header.kind body
      ],
    )

unfoldable pub recv_packet : LanSocket → Incoming → LanSocket × Delivery
recv_packet s incoming = let (s', part) = recv_part_packet s incoming in open_packet s' part

-- A delivery that says nothing leaves no trace.
abbrev pub record_delivery : Delivery → List Delivery → List Delivery
record_delivery nothing ds = ds
record_delivery d ds = d ∷ ds

-- One read for each chunk that the network hands over, as Pollable::Poll makes them.
unfoldable pub receive_all : LanSocket → List (List ℕ) → LanSocket × List Delivery
receive_all s [] = (s, [])
receive_all s (chunk ∷ chunks) =
    let (s', delivery) = recv_packet s (arrived chunk) in
    let (s'', deliveries) = receive_all s' chunks in (s'', record_delivery delivery deliveries)

-- The bytes that `sendPacket` gives to `sendto`; the payload is packed where that does not make it
-- longer. No payload (a null pointer) is the empty list.
unfoldable pub frame : Header → List ℕ → List ℕ
frame header [] = header_bytes (record header { body_length = 0 })
frame header (b ∷ body) =
    let size = length (b ∷ body) in
    elim (compress size (b ∷ body)) [
      | some out ↦
          header_bytes (record header {
            body_length = u16 (length out);
            decompress_length = u16 size;
            compressed = true;
          })
          ++ out
      | none ↦ header_bytes (record header { body_length = u16 size }) ++ b ∷ body
    ]

unfoldable pub send_packet : LanSocket → PacketType → List ℕ → LanSocket × List ℕ
send_packet s kind body =
    (record s { tx_seq = next_seq s.tx_seq }, frame (prepare_header s.tx_seq kind) body)
