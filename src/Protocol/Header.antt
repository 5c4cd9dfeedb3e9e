-- ===== src/Protocol/Header.antt =====
-- LANPacketType, LANPacketHeader and LanSocket::prepareHeader. The struct is sent as it lies in
-- memory: twelve bytes, little-endian, with no padding.
use ldn_mitm.Base.{
  ℕ, ◌+◌, ◌/◌, ◌%◌, ◌^◌, ◌<◌, ◌≤◌, ◌≡◌, refl, List, [], ◌∷◌, ◌++◌, Bool, true, false, ◌==◌,
  if◌then◌else◌, u16, byte_at, le16_at, le32_at, length, get_or-append, arith,
}

pub data PacketType : Type 0 where
  scan scan_resp connect sync_network relay_heartbeat relay_bye : PacketType
  other : ℕ → PacketType

-- The byte on the wire. `other n` is a type byte that the enum does not name.
abbrev pub type_byte : PacketType → ℕ
type_byte scan = 0
type_byte scan_resp = 1
type_byte connect = 2
type_byte sync_network = 3
type_byte relay_heartbeat = 4
type_byte relay_bye = 5
type_byte (other n) = n

abbrev pub packet_type : ℕ → PacketType
packet_type n =
    if n == 0
    then scan
    else if n == 1
    then scan_resp
    else if n == 2
    then connect
    else if n == 3
    then sync_network
    else if n == 4
    then relay_heartbeat
    else if n == 5
    then relay_bye
    else other n

-- The types of the enum, which are all that the code sends.
abbrev pub IsNamed : PacketType → Type 0
IsNamed (other n) = ⊥
IsNamed _ = Unit {0}

packet_type-type_byte : (t : PacketType) → IsNamed t → packet_type (type_byte t) ≡ t
packet_type-type_byte scan h = refl
packet_type-type_byte scan_resp h = refl
packet_type-type_byte connect h = refl
packet_type-type_byte sync_network h = refl
packet_type-type_byte relay_heartbeat h = refl
packet_type-type_byte relay_bye h = refl
packet_type-type_byte (other n) h = absurd h

abbrev pub header_size : ℕ
header_size = 12

abbrev pub lan_magic : ℕ
lan_magic = 0x11451400

-- `body_length` is the source's `length`.
pub record Header : Type 0 where
  pub magic : ℕ
  pub kind : PacketType
  pub compressed : Bool
  pub body_length : ℕ
  pub decompress_length : ℕ
  pub seq : ℕ

abbrev pub flag_byte : Bool → ℕ
flag_byte true = 1
flag_byte false = 0

-- memcpy(buf, &header, sizeof(header))
unfoldable pub header_bytes : Header → List ℕ
header_bytes h =
    h.magic % 256
    ∷ h.magic / 256 % 256
    ∷ h.magic / 65536 % 256
    ∷ h.magic / 16777216 % 256
    ∷ type_byte h.kind
    ∷ flag_byte h.compressed
    ∷ h.body_length % 256
    ∷ h.body_length / 256 % 256
    ∷ h.decompress_length % 256
    ∷ h.decompress_length / 256 % 256
    ∷ h.seq % 256
    ∷ h.seq / 256 % 256
    ∷ []

-- (LANPacketHeader *)buffer
unfoldable pub read_header : List ℕ → Header
read_header b = record {
  magic = le32_at b 0;
  kind = packet_type (byte_at b 4);
  compressed = if byte_at b 5 == 0 then false else true;
  body_length = le16_at b 6;
  decompress_length = le16_at b 8;
  seq = le16_at b 10;
}

-- `++txSeq`, and once more where it wrapped to 0.
unfoldable pub next_seq : ℕ → ℕ
next_seq tx = let s = u16 (tx + 1) in if s == 0 then u16 (s + 1) else s

-- The header of a new packet of the given type, with the socket's counter moved on.
unfoldable pub prepare_header : ℕ → PacketType → Header
unfolding next_seq
prepare_header tx kind = record {
  magic = lan_magic;
  kind = kind;
  compressed = false;
  body_length = 0;
  decompress_length = 0;
  seq = next_seq tx;
}

pub record IsWire (h : Header) : Type 0 where
  pub magic_fits : h.magic < 2 ^ 32
  pub kind_named : IsNamed h.kind
  pub length_fits : h.body_length < 2 ^ 16
  pub decompress_length_fits : h.decompress_length < 2 ^ 16
  pub seq_fits : h.seq < 2 ^ 16

flag_byte_lem : (b : Bool) → (if flag_byte b == 0 then false else true) ≡ b
flag_byte_lem true = refl
flag_byte_lem false = refl

-- A header survives the wire, whatever follows it.
pub read_header-header_bytes :
    (h : Header) (rest : List ℕ) → IsWire h → read_header (header_bytes h ++ rest) ≡ h
unfolding read_header header_bytes
read_header-header_bytes h rest w = λ i. record {
  magic = magic_eq i;
  kind = packet_type-type_byte h.kind w.kind_named i;
  compressed = flag_byte_lem h.compressed i;
  body_length = length_eq i;
  decompress_length = decompress_length_eq i;
  seq = seq_eq i;
}
  where
    magic_eq : le32_at (header_bytes h ++ rest) 0 ≡ h.magic
    magic_eq = omega arith

    length_eq : le16_at (header_bytes h ++ rest) 6 ≡ h.body_length
    length_eq = omega arith

    decompress_length_eq : le16_at (header_bytes h ++ rest) 8 ≡ h.decompress_length
    decompress_length_eq = omega arith

    seq_eq : le16_at (header_bytes h ++ rest) 10 ≡ h.seq
    seq_eq = omega arith

-- The counter that goes into a packet is never 0, which means "not stamped", and fits 16 bits.
pub next_seq_bounds : (tx : ℕ) → (0 < next_seq tx) × (next_seq tx < 2 ^ 16)
unfolding next_seq
next_seq_bounds tx = ground arith

-- A header is read from the first twelve bytes alone.
pub read_header-append :
    (b more : List ℕ) → header_size ≤ length b → read_header (b ++ more) ≡ read_header b
unfolding read_header
read_header-append b more h = simp (
  byte 0 (omega arith),
  byte 1 (omega arith),
  byte 2 (omega arith),
  byte 3 (omega arith),
  byte 4 (omega arith),
  byte 5 (omega arith),
  byte 6 (omega arith),
  byte 7 (omega arith),
  byte 8 (omega arith),
  byte 9 (omega arith),
  byte 10 (omega arith),
  byte 11 (omega arith),
)
  where
    byte : (i : ℕ) → i < header_size → byte_at (b ++ more) i ≡ byte_at b i
    byte i k = get_or-append b more i 0 (omega arith)
