-- ===== src/Utils/ByteOrder.antt =====
-- internal/utils/byteorder.go, byteorder_little_endian.go and byteorder_big_endian.go: how numbers
-- are read and written.
pub mod RoundTrip
use Prim.Native.Nat.{bit_xor}
use mpquic_latency.Base.{
  ℕ, zero, suc, ◌+◌, ◌-◌, ◌*◌, ◌/◌, ◌%◌, ◌^◌, ltb, leb, if◌then◌else◌, u64, List, [], ◌∷◌, ℤ, pos,
  negsuc,
}
use mpquic_latency.Utils.Buffer.{Reader, ◌>>=◌, give, read_byte, Written, written, overflowed}

pub data ByteOrder : Type 0 where
  little_endian : ByteOrder
  big_endian : ByteOrder

-- GetByteOrder, of a VersionNumber.
unfoldable pub get_byte_order : ℤ → ByteOrder
get_byte_order (negsuc n) = little_endian
get_byte_order (pos v) = if ltb v 39 then little_endian else big_endian

-- Where the i-th of so many bytes stands in the number, in bits (an uint8).
unfoldable pub shift : ByteOrder → ℕ → ℕ → ℕ
shift little_endian len i = i * 8 % 256
shift big_endian len i = (len - 1 - i) * 8 % 256

-- The loop of ReadUintN: n bytes are to be read, i were.
unfoldable pub read_bytes : ByteOrder → ℕ → ℕ → ℕ → ℕ → Reader ℕ
unfolding shift
read_bytes o len zero i res = give res
read_bytes o len (suc n) i res = do
  bt ← read_byte
  read_bytes o len n (suc i) (bit_xor res (u64 (bt * 2 ^ shift o len i)))

unfoldable pub read_uint_n : ByteOrder → ℕ → Reader ℕ
unfolding read_bytes
read_uint_n o len = read_bytes o len len 0 0

abbrev pub of_bytes : ℕ → ℕ → ℕ → ℕ → ℕ → ℕ → ℕ → ℕ → ℕ
of_bytes b1 b2 b3 b4 b5 b6 b7 b8 = u64 (
    b1
    + b2 * 2 ^ 8
    + b3 * 2 ^ 16
    + b4 * 2 ^ 24
    + b5 * 2 ^ 32
    + b6 * 2 ^ 40
    + b7 * 2 ^ 48
    + b8 * 2 ^ 56)

unfoldable pub read_uint64 : ByteOrder → Reader ℕ
read_uint64 little_endian = do
  b1 ← read_byte
  b2 ← read_byte
  b3 ← read_byte
  b4 ← read_byte
  b5 ← read_byte
  b6 ← read_byte
  b7 ← read_byte
  b8 ← read_byte
  give (of_bytes b1 b2 b3 b4 b5 b6 b7 b8)
read_uint64 big_endian = do
  b8 ← read_byte
  b7 ← read_byte
  b6 ← read_byte
  b5 ← read_byte
  b4 ← read_byte
  b3 ← read_byte
  b2 ← read_byte
  b1 ← read_byte
  give (of_bytes b1 b2 b3 b4 b5 b6 b7 b8)

unfoldable pub read_uint32 : ByteOrder → Reader ℕ
read_uint32 little_endian = do
  b1 ← read_byte
  b2 ← read_byte
  b3 ← read_byte
  b4 ← read_byte
  give ((b1 + b2 * 2 ^ 8 + b3 * 2 ^ 16 + b4 * 2 ^ 24) % 2 ^ 32)
read_uint32 big_endian = do
  b4 ← read_byte
  b3 ← read_byte
  b2 ← read_byte
  b1 ← read_byte
  give ((b1 + b2 * 2 ^ 8 + b3 * 2 ^ 16 + b4 * 2 ^ 24) % 2 ^ 32)

unfoldable pub read_uint16 : ByteOrder → Reader ℕ
read_uint16 little_endian = do b1 ← read_byte; b2 ← read_byte; give ((b1 + b2 * 2 ^ 8) % 2 ^ 16)
read_uint16 big_endian = do b2 ← read_byte; b1 ← read_byte; give ((b1 + b2 * 2 ^ 8) % 2 ^ 16)

-- uint8(i >> n).
abbrev pub byte_at : ℕ → ℕ → ℕ
byte_at n i = i / 2 ^ n % 2 ^ 8

unfoldable pub write_uint64 : ByteOrder → ℕ → Written
write_uint64 little_endian i = written (
    byte_at 0 i
    ∷ byte_at 8 i
    ∷ byte_at 16 i
    ∷ byte_at 24 i
    ∷ byte_at 32 i
    ∷ byte_at 40 i
    ∷ byte_at 48 i
    ∷ byte_at 56 i
    ∷ [])
write_uint64 big_endian i = written (
    byte_at 56 i
    ∷ byte_at 48 i
    ∷ byte_at 40 i
    ∷ byte_at 32 i
    ∷ byte_at 24 i
    ∷ byte_at 16 i
    ∷ byte_at 8 i
    ∷ byte_at 0 i
    ∷ [])

-- WriteUint56, WriteUint48, WriteUint40 and WriteUint24 panic when the number does not fit.
unfoldable pub write_uint56 : ByteOrder → ℕ → Written
write_uint56 little_endian i =
    if leb (2 ^ 56) i
    then overflowed []
    else written (
        byte_at 0 i
        ∷ byte_at 8 i
        ∷ byte_at 16 i
        ∷ byte_at 24 i
        ∷ byte_at 32 i
        ∷ byte_at 40 i
        ∷ byte_at 48 i
        ∷ [])
write_uint56 big_endian i =
    if leb (2 ^ 56) i
    then overflowed []
    else written (
        byte_at 48 i
        ∷ byte_at 40 i
        ∷ byte_at 32 i
        ∷ byte_at 24 i
        ∷ byte_at 16 i
        ∷ byte_at 8 i
        ∷ byte_at 0 i
        ∷ [])

unfoldable pub write_uint48 : ByteOrder → ℕ → Written
write_uint48 little_endian i =
    if leb (2 ^ 48) i
    then overflowed []
    else written
        (byte_at 0 i ∷ byte_at 8 i ∷ byte_at 16 i ∷ byte_at 24 i ∷ byte_at 32 i ∷ byte_at 40 i ∷ [])
write_uint48 big_endian i =
    if leb (2 ^ 48) i
    then overflowed []
    else written
        (byte_at 40 i ∷ byte_at 32 i ∷ byte_at 24 i ∷ byte_at 16 i ∷ byte_at 8 i ∷ byte_at 0 i ∷ [])

unfoldable pub write_uint40 : ByteOrder → ℕ → Written
write_uint40 little_endian i =
    if leb (2 ^ 40) i
    then overflowed []
    else written (byte_at 0 i ∷ byte_at 8 i ∷ byte_at 16 i ∷ byte_at 24 i ∷ byte_at 32 i ∷ [])
write_uint40 big_endian i =
    if leb (2 ^ 40) i
    then overflowed []
    else written (byte_at 32 i ∷ byte_at 24 i ∷ byte_at 16 i ∷ byte_at 8 i ∷ byte_at 0 i ∷ [])

unfoldable pub write_uint32 : ByteOrder → ℕ → Written
write_uint32 little_endian i =
    written (byte_at 0 i ∷ byte_at 8 i ∷ byte_at 16 i ∷ byte_at 24 i ∷ [])
write_uint32 big_endian i = written (byte_at 24 i ∷ byte_at 16 i ∷ byte_at 8 i ∷ byte_at 0 i ∷ [])

unfoldable pub write_uint24 : ByteOrder → ℕ → Written
write_uint24 little_endian i =
    if leb (2 ^ 24) i
    then overflowed []
    else written (byte_at 0 i ∷ byte_at 8 i ∷ byte_at 16 i ∷ [])
write_uint24 big_endian i =
    if leb (2 ^ 24) i
    then overflowed []
    else written (byte_at 16 i ∷ byte_at 8 i ∷ byte_at 0 i ∷ [])

unfoldable pub write_uint16 : ByteOrder → ℕ → Written
write_uint16 little_endian i = written (byte_at 0 i ∷ byte_at 8 i ∷ [])
write_uint16 big_endian i = written (byte_at 8 i ∷ byte_at 0 i ∷ [])
