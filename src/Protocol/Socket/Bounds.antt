-- ===== src/Protocol/Socket/Bounds.antt =====
-- The receive buffer of LanSocket between reads, and the size of what is unpacked.
use ldn_mitm.Base.{
  ℕ, zero, suc, ◌+◌, ◌-◌, ◌≤◌, ◌<◌, ◌≡◌, refl, inl, inr, List, [], ◌∷◌, ◌++◌, some, length,
  length-append, length-drop, length-take, length-replicate, drop, replicate, min, Option-cases,
  arith,
}
use ldn_mitm.Protocol.Compress.{decompress}
use ldn_mitm.Protocol.Header.{Header, PacketType, header_size, read_header}
use ldn_mitm.Protocol.Socket.{
  LanSocket, Incoming, failed, arrived, Part, error, pending, packet, deliver, buffer_size,
  take_packet, recv_part_packet, packet_body, open_packet, recv_packet,
}

-- The expanded data fits its buffer.
length-decompress :
    (room : ℕ) (xs : List ℕ) {out : List ℕ} → decompress room xs ≡ some out → length out ≤ room
unfolding decompress
length-decompress room [] e = ground arith
length-decompress zero (c ∷ xs) e = ground arith
length-decompress (suc room) (suc c ∷ xs) {out} e = elim (Option-cases (decompress room xs)) [
  | inl p ↦ ground arith
  | inr (o, p) ↦ ground (arith, length-decompress room xs p)
]
length-decompress (suc room) (zero ∷ []) e = ground arith
length-decompress (suc room) (zero ∷ count ∷ xs) {out} e =
    let run = min count room in
    elim (Option-cases (decompress (room - run) xs)) [
      | inl p ↦ ground arith
      | inr (o, p) ↦ ground (
        arith,
        length-decompress (room - run) xs p,
        length-append (replicate run 0) o,
        length-replicate {A = ℕ} run 0,
      )
    ]

-- What `recvfrom` may store: it is given the free part of the array.
abbrev pub Fits : LanSocket → Incoming → Type 0
Fits s (failed n) = Unit {0}
Fits s (arrived bs) = length s.buffer + length bs ≤ buffer_size

abbrev pub HasRoom : LanSocket → Type 0
HasRoom s = length s.buffer < buffer_size

take_packet-HasRoom : (s : LanSocket) → length s.buffer ≤ buffer_size → HasRoom (take_packet s).0
unfolding take_packet
take_packet-HasRoom s h =
    ground (arith, length-drop (header_size + (read_header s.buffer).body_length) s.buffer)

open_packet-buffer : (s : LanSocket) (p : Part) → (open_packet s p).0.buffer ≡ s.buffer
unfolding open_packet
open_packet-buffer s (error n) = refl
open_packet-buffer s pending = refl
open_packet-buffer s (packet bs) = refl

-- A read that had room, and brings no more bytes than that, leaves room for the next one, so `recvfrom` is never asked for zero bytes, whose
-- answer 0 a TCP socket would take for the peer's shutdown.
pub recv_packet-HasRoom :
    (s : LanSocket) (incoming : Incoming)
    → HasRoom s
    → Fits s incoming
    → HasRoom (recv_packet s incoming).0
unfolding recv_packet recv_part_packet
recv_packet-HasRoom s (failed n) h f = rw (open_packet-buffer s (error n)) h
recv_packet-HasRoom s (arrived []) h f = rw (open_packet-buffer s pending) h
recv_packet-HasRoom s (arrived (b ∷ bs)) h f =
    let s' = record s { buffer = s.buffer ++ b ∷ bs } in
    rw (open_packet-buffer (take_packet s').0 (take_packet s').1)
      (take_packet-HasRoom s' (omega (arith, length-append s.buffer (b ∷ bs))))

length-take_packet :
    (s : LanSocket) {bs : List ℕ} → (take_packet s).1 ≡ packet bs → length bs ≤ buffer_size
unfolding take_packet
length-take_packet s {bs} e =
    ground (arith, length-take (header_size + (read_header s.buffer).body_length) s.buffer)

packet_body-le :
    (h : Header) (payload : List ℕ) {body : List ℕ}
    → length payload ≤ buffer_size
    → packet_body h payload ≡ some body
    → length body ≤ buffer_size
unfolding packet_body
packet_body-le h payload {body} small e = elim (Option-cases (decompress buffer_size payload)) [
  | inl p ↦ ground arith
  | inr (o, p) ↦ ground (arith, length-decompress buffer_size payload p)
]

open_packet-le :
    (s : LanSocket) (p : Part) {kind : PacketType} {body : List ℕ}
    → ((bs : List ℕ) → p ≡ packet bs → length bs ≤ buffer_size)
    → (open_packet s p).1 ≡ deliver kind body
    → length body ≤ buffer_size
unfolding open_packet
open_packet-le s (error n) small e = ground arith
open_packet-le s pending small e = ground arith
open_packet-le s (packet bs) small e =
    elim (Option-cases (packet_body (read_header bs) (drop header_size bs))) [
      | inl p ↦ ground arith
      | inr (o, p) ↦ ground (
        arith,
        packet_body-le (read_header bs) (drop header_size bs)
            (omega (arith, small bs refl, length-drop header_size bs)) p,
      )
    ]

-- Whatever arrives, the body that a read delivers fits the 2048 bytes that it is unpacked into.
pub recv_packet-le :
    (s : LanSocket) (incoming : Incoming) {kind : PacketType} {body : List ℕ}
    → (recv_packet s incoming).1 ≡ deliver kind body
    → length body ≤ buffer_size
unfolding recv_packet recv_part_packet
recv_packet-le s (failed n) e = open_packet-le s (error n) (λ bs p. cc) e
recv_packet-le s (arrived []) e = open_packet-le s pending (λ bs p. cc) e
recv_packet-le s (arrived (b ∷ bs)) e =
    let s' = record s { buffer = s.buffer ++ b ∷ bs } in
    open_packet-le (take_packet s').0 (take_packet s').1 (λ cs p. length-take_packet s' p) e
