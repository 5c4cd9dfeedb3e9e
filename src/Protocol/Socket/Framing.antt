-- ===== src/Protocol/Socket/Framing.antt =====
-- sendPacket of one socket against recvPacket of another, over reads of any size.
use ldn_mitm.Base.{
  ℕ, ◌+◌, ◌≤◌, ◌<◌, ◌≡◌, refl, sym, ap, ◌∙◌, inl, inr, List, [], ◌∷◌, ◌++◌, true, some, u16, length,
  length-append, drop, take-append, drop-append, append-nil, append_assoc, Option-cases, lt→ltb,
  dec_lt, arith,
}
use mathlib.Core.List.{flatten}
use ldn_mitm.Protocol.Compress.{compress}
use ldn_mitm.Protocol.Compress.Laws.{length-compress, decompress-compress}
use ldn_mitm.Protocol.Header.{
  PacketType, Header, IsWire, IsNamed, header_size, lan_magic, header_bytes, read_header,
  read_header-append, read_header-header_bytes, prepare_header, next_seq, next_seq_bounds,
}
use ldn_mitm.Protocol.Socket.{
  LanSocket, arrived, pending, packet, nothing, deliver, buffer_size, take_packet, recv_part_packet,
  packet_body, open_packet, recv_packet, frame, send_packet, receive_all,
}

abbrev pub max_body : ℕ
max_body = 2036

-- A frame is a header that is fit for the wire, and as many bytes as it says, which the receiver
-- turns into the given body.
pub record IsFrame (header : Header) (payload body : List ℕ) : Type 0 where
  pub wire : IsWire header
  pub magic_right : header.magic ≡ lan_magic
  pub length_right : header.body_length ≡ length payload
  pub small : length payload ≤ max_body
  pub opens : packet_body header payload ≡ some body

-- The packed form opens.
packet_body-compress :
    (h : Header) (body out : List ℕ)
    → h.compressed ≡ true
    → h.decompress_length ≡ length body
    → length body ≤ buffer_size
    → compress (length body) body ≡ some out
    → packet_body h out ≡ some body
unfolding packet_body
packet_body-compress h body out c d small e =
    ground (arith, decompress-compress (length body) body buffer_size e small)

frame-nil : (h : Header) → frame h [] ≡ header_bytes (record h { body_length = 0 }) ++ []
unfolding frame
frame-nil h = sym (append-nil _)

-- The frame that a body is sent in.
frame-IsFrame :
    (tx : ℕ) (kind : PacketType) (body : List ℕ)
    → IsNamed kind
    → length body ≤ max_body
    → (h : Header) × (payload : List ℕ) × (frame (prepare_header tx kind) body
        ≡ header_bytes h ++ payload)
      × IsFrame h payload body
      × (h.kind ≡ kind)
      × (h.seq ≡ next_seq tx)
unfolding frame prepare_header
frame-IsFrame tx kind [] n h = (
  record (prepare_header tx kind) { body_length = 0 },
  [],
  frame-nil (prepare_header tx kind),
  raw,
  refl,
  refl,
)
  where
    raw : IsFrame (record (prepare_header tx kind) { body_length = 0 }) [] []
    raw = unfold packet_body in ground (arith, next_seq_bounds tx)
frame-IsFrame tx kind (b ∷ body) n h = elim (Option-cases (compress size (b ∷ body))) [
  | inl e ↦ (plain, b ∷ body, rw (e, frame), raw, refl, refl)
  | inr (out, e) ↦ (packed out, out, rw (e, frame), squeezed out e, refl, refl)
]
  where
    size : ℕ
    size = length (b ∷ body)

    plain : Header
    plain = record (prepare_header tx kind) { body_length = u16 size }

    packed : List ℕ → Header
    packed out = record (prepare_header tx kind) {
      body_length = u16 (length out);
      decompress_length = u16 size;
      compressed = true;
    }

    raw : IsFrame plain (b ∷ body) (b ∷ body)
    raw = unfold packet_body in ground (arith, next_seq_bounds tx)

    squeezed :
        (out : List ℕ) → compress size (b ∷ body) ≡ some out → IsFrame (packed out) out (b ∷ body)
    squeezed out e = ground (
      arith,
      next_seq_bounds tx,
      length-compress size (b ∷ body) e,
      packet_body-compress (packed out) (b ∷ body) out refl (omega arith) (omega arith) e,
    )

length-header_bytes : (h : Header) → length (header_bytes h) ≡ header_size
unfolding header_bytes
length-header_bytes h = refl

drop-header_bytes : (h : Header) (rest : List ℕ) → drop header_size (header_bytes h ++ rest) ≡ rest
unfolding header_bytes
drop-header_bytes h rest = refl

-- A buffer that begins with a frame yields it, and keeps what follows.
take_packet-frame :
    (s : LanSocket) (h : Header) (payload body rest : List ℕ)
    → IsFrame h payload body
    → s.buffer ≡ (header_bytes h ++ payload) ++ rest
    → take_packet s ≡ (record s { buffer = rest }, packet (header_bytes h ++ payload))
unfolding take_packet
take_packet-frame s h payload body rest f e = ground (
  arith,
  f,
  length-append (header_bytes h) payload,
  length-append (header_bytes h ++ payload) rest,
  length-header_bytes h,
  read_header-header_bytes h (payload ++ rest) f.wire,
  append_assoc (header_bytes h) payload rest,
  take-append (header_size + h.body_length) (header_bytes h ++ payload) rest,
  drop-append (header_size + h.body_length) (header_bytes h ++ payload) rest,
)

-- A buffer that holds only a part of a frame waits for the rest.
take_packet-partial :
    (s : LanSocket) (h : Header) (payload body more : List ℕ)
    → IsFrame h payload body
    → s.buffer ++ more ≡ header_bytes h ++ payload
    → 0 < length more
    → take_packet s ≡ (s, pending)
unfolding take_packet
take_packet-partial s h payload body more f e m = elim (dec_lt (length s.buffer) header_size) [
  | yes short ↦ rw (lt→ltb _ _ short)
  | no long ↦ ground (
    arith,
    f,
    length-append (header_bytes h) payload,
    length-append s.buffer more,
    ap length e,
    length-header_bytes h,
    read_header-header_bytes h payload f.wire,
    read_header-append s.buffer more,
    ap read_header e,
  )
]

recv_packet-frame :
    (r : LanSocket) (h : Header) (b : ℕ) (bs payload body rest : List ℕ)
    → IsFrame h payload body
    → r.buffer ++ b ∷ bs ≡ (header_bytes h ++ payload) ++ rest
    → recv_packet r (arrived (b ∷ bs))
      ≡ (record r { buffer = rest; rx_seq = h.seq }, deliver h.kind body)
unfolding recv_packet recv_part_packet open_packet
recv_packet-frame r h b bs payload body rest f e =
    rw
      (
        take_packet-frame (record r { buffer = r.buffer ++ b ∷ bs }) h payload body rest f e,
        read_header-header_bytes h payload f.wire,
        drop-header_bytes,
        f.opens,
      )
      (rw (read_header-header_bytes h payload f.wire))

recv_packet-partial :
    (r : LanSocket) (h : Header) (b : ℕ) (bs payload body more : List ℕ)
    → IsFrame h payload body
    → (r.buffer ++ b ∷ bs) ++ more ≡ header_bytes h ++ payload
    → 0 < length more
    → recv_packet r (arrived (b ∷ bs)) ≡ (record r { buffer = r.buffer ++ b ∷ bs }, nothing)
unfolding recv_packet recv_part_packet open_packet
recv_packet-partial r h b bs payload body more f e m =
    rw (take_packet-partial (record r { buffer = r.buffer ++ b ∷ bs }) h payload body more f e m)

-- No chunk is empty.
abbrev pub AllNonempty : List (List ℕ) → Type 0
AllNonempty [] = Unit {0}
AllNonempty (c ∷ cs) = (0 < length c) × AllNonempty cs

receive_all-frame :
    (r : LanSocket) (h : Header) (payload body : List ℕ) (chunks : List (List ℕ))
    → IsFrame h payload body
    → AllNonempty chunks
    → length r.buffer < header_size + length payload
    → r.buffer ++ flatten chunks ≡ header_bytes h ++ payload
    → receive_all r chunks ≡ (record r { buffer = []; rx_seq = h.seq }, deliver h.kind body ∷ [])
unfolding receive_all flatten
receive_all-frame r h payload body [] f n l e = absurd (
    omega (
      arith,
      ap length e,
      length-append r.buffer [],
      length-append (header_bytes h) payload,
      length-header_bytes h,
    ))
receive_all-frame r h payload body ([] ∷ cs) f n l e = absurd (omega arith)
receive_all-frame r h payload body ((b ∷ bs) ∷ []) f n l e = rw (
    recv_packet-frame r h b bs payload body [] f
      (ap (λ c. r.buffer ++ b ∷ c) (sym (append-nil bs)) ∙ e ∙ sym (append-nil _)))
receive_all-frame r h payload body ((b ∷ bs) ∷ c ∷ cs) f n l e =
    rw
      (recv_packet-partial r h b bs payload body (flatten (c ∷ cs)) f joined
        (omega (arith, length-append c (flatten cs))))
      (rw (
        receive_all-frame (record r { buffer = r.buffer ++ b ∷ bs }) h payload body (c ∷ cs) f n.1
          shorter joined))
  where
    joined : (r.buffer ++ b ∷ bs) ++ flatten (c ∷ cs) ≡ header_bytes h ++ payload
    joined = append_assoc r.buffer (b ∷ bs) (flatten (c ∷ cs)) ∙ e

    shorter : length (r.buffer ++ b ∷ bs) < header_size + length payload
    shorter = omega (
      arith,
      ap length joined,
      length-append (r.buffer ++ b ∷ bs) (flatten (c ∷ cs)),
      length-append c (flatten cs),
      length-append (header_bytes h) payload,
      length-header_bytes h,
    )

-- Whatever socket sends a packet of a named type whose body has at most 2036 bytes, and however
-- the network cuts its bytes into non-empty reads, a socket with an empty buffer delivers exactly
-- that type and body, once, ends with an empty buffer, and records the sender's counter.
pub receive_all-send_packet :
    (s r : LanSocket) (kind : PacketType) (body : List ℕ) (chunks : List (List ℕ))
    → IsNamed kind
    → length body ≤ max_body
    → r.buffer ≡ []
    → AllNonempty chunks
    → flatten chunks ≡ (send_packet s kind body).1
    → receive_all r chunks ≡ (
      record r { buffer = []; rx_seq = (send_packet s kind body).0.tx_seq },
      deliver kind body ∷ [],
    )
unfolding send_packet
receive_all-send_packet s r kind body chunks n small empty parts e =
    let (h, payload, shape, f, hk, hs) = frame-IsFrame s.tx_seq kind body n small in
    rw (← hk, ← hs)
      (receive_all-frame r h payload body chunks f parts (rw empty (omega arith))
        (rw empty (e ∙ shape)))
