-- ===== src/Base/Bytes.antt =====
-- Bytes in memory and on the wire: structs are copied in little-endian order (the console's), the
-- relay's headers are written in big-endian order. A byte is a number below 256.
use Prim.Native.Nat.{ℕ, ◌+◌, ◌*◌, ◌%◌, ◌^◌}
use mathlib.Core.List.{List}
use ldn_mitm.Base.Lists.{get_or}

abbrev pub u8 : ℕ → ℕ
u8 n = n % 2 ^ 8

abbrev pub u16 : ℕ → ℕ
u16 n = n % 2 ^ 16

abbrev pub u32 : ℕ → ℕ
u32 n = n % 2 ^ 32

abbrev pub byte_at : List ℕ → ℕ → ℕ
byte_at b i = get_or b i 0

abbrev pub le16_at : List ℕ → ℕ → ℕ
le16_at b i = byte_at b i + byte_at b (i + 1) * 256

abbrev pub le32_at : List ℕ → ℕ → ℕ
le32_at b i = le16_at b i + le16_at b (i + 2) * 65536

-- `(b[i] << 8) | b[i + 1]` and the like
abbrev pub be16_at : List ℕ → ℕ → ℕ
be16_at b i = byte_at b i * 256 + byte_at b (i + 1)

abbrev pub be32_at : List ℕ → ℕ → ℕ
be32_at b i = be16_at b i * 65536 + be16_at b (i + 2)
