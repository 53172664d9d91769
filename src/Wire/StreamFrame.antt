-- ===== src/Wire/StreamFrame.antt =====
-- internal/wire/stream_frame.go: the STREAM frame and its bytes. A stream id is an uint32, an
-- offset an uint64.
mod TypeByte
pub mod Bytes
pub mod RoundTrip
use Prim.Native.Nat.{bit_and, bit_xor}
use mpquic_latency.Base.{
  ℕ, ◌+◌, ◌-◌, ◌*◌, ◌/◌, ◌%◌, ◌^◌, Bool, true, false, not, ◌&&◌, ltb, ◌==◌, if◌then◌else◌, u64,
  List, [], ◌∷◌, length, ℤ,
}
use mpquic_latency.Wire.Frame.{StreamFrame}
use mpquic_latency.Utils.Buffer.{
  Reader, ◌>>=◌, give, throw, read_byte, read_full, bytes_left, Written, written, refused,
  ◌then_write◌, WireError,
}
use mpquic_latency.Utils.ByteOrder.{
  ByteOrder, get_byte_order, read_uint_n, read_uint16, write_uint64, write_uint56, write_uint48,
  write_uint40, write_uint32, write_uint24, write_uint16,
}

-- protocol.MaxPacketSize.
abbrev pub max_packet_size : ℕ
max_packet_size = 1350

-- What the type byte says: FinBit, DataLenPresent, and the lengths of the offset and of the id.
unfoldable pub has_fin_bit : ℕ → Bool
has_fin_bit type_byte = ltb 0 (bit_and type_byte 0x40)

unfoldable pub has_data_len : ℕ → Bool
has_data_len type_byte = ltb 0 (bit_and type_byte 0x20)

unfoldable pub offset_len : ℕ → ℕ
offset_len type_byte = let n = bit_and type_byte 0x1c / 2 ^ 2 in if n == 0 then 0 else n + 1

unfoldable pub stream_id_len : ℕ → ℕ
stream_id_len type_byte = bit_and type_byte 0x3 + 1

abbrev pub read_data_len : ByteOrder → Bool → Reader ℕ
read_data_len o true = read_uint16 o
read_data_len o false = give 0

-- With no length the rest of the packet is data.
abbrev pub the_data_len : Bool → ℕ → Reader ℕ
the_data_len true data_len = give data_len
the_data_len false data_len = do n ← bytes_left; give (n % 2 ^ 16)

abbrev pub read_data : ℕ → Reader (List ℕ)
read_data data_len = if data_len == 0 then give [] else read_full data_len

-- The frame that was read, unless its data goes beyond the largest offset or is missing.
unfoldable pub checked : StreamFrame → Reader StreamFrame
checked f =
    if ltb (u64 (f.offset + length f.payload)) f.offset
    then throw WireError.invalid_stream_data_overflow
    else if not f.fin_bit && (length f.payload == 0)
    then throw WireError.empty_stream_frame_no_fin
    else give f

-- What follows the type byte, the id, the offset and the length.
unfoldable pub parse_data : ℕ → ℕ → ℕ → ℕ → Reader StreamFrame
unfolding checked
parse_data type_byte sid offset data_len =
    if ltb max_packet_size data_len then throw WireError.invalid_stream_data_len_too_large else do
      n ← the_data_len (has_data_len type_byte) data_len
      payload ← read_data n
      checked (record {
        stream_id = sid % 2 ^ 32;
        fin_bit = has_fin_bit type_byte;
        data_len_present = has_data_len type_byte;
        offset = offset;
        payload = payload;
      })

unfoldable pub parse_stream_frame : ℤ → Reader StreamFrame
unfolding parse_data
parse_stream_frame version = do
  type_byte ← read_byte
  sid ← read_uint_n (get_byte_order version) (stream_id_len type_byte)
  offset ← read_uint_n (get_byte_order version) (offset_len type_byte)
  data_len ← read_data_len (get_byte_order version) (has_data_len type_byte)
  parse_data type_byte sid offset data_len

unfoldable pub calculate_stream_id_length : StreamFrame → ℕ
calculate_stream_id_length f =
    if ltb f.stream_id (2 ^ 8)
    then 1
    else if ltb f.stream_id (2 ^ 16)
    then 2
    else if ltb f.stream_id (2 ^ 24)
    then 3
    else 4

unfoldable pub get_offset_length : StreamFrame → ℕ
get_offset_length f =
    if f.offset == 0
    then 0
    else if ltb f.offset (2 ^ 16)
    then 2
    else if ltb f.offset (2 ^ 24)
    then 3
    else if ltb f.offset (2 ^ 32)
    then 4
    else if ltb f.offset (2 ^ 40)
    then 5
    else if ltb f.offset (2 ^ 48)
    then 6
    else if ltb f.offset (2 ^ 56)
    then 7
    else 8

-- The type byte that is written, of the two flags and the two lengths.
unfoldable pub type_byte_of : Bool → Bool → ℕ → ℕ → ℕ
type_byte_of fin data_len_present offset_length id_len =
    let a = if fin then bit_xor 0x80 0x40 else 0x80 in
    let b = if data_len_present then bit_xor a 0x20 else a in
    let c =
      if ltb 0 offset_length then bit_xor b ((offset_length % 256 - 1) * 2 ^ 2 % 256) else b in
    bit_xor c (id_len - 1)

unfoldable pub write_stream_id : ByteOrder → ℕ → ℕ → Written
write_stream_id o id_len id =
    if id_len == 1
    then written (id % 2 ^ 8 ∷ [])
    else if id_len == 2
    then write_uint16 o (id % 2 ^ 16)
    else if id_len == 3
    then write_uint24 o (id % 2 ^ 32)
    else if id_len == 4
    then write_uint32 o (id % 2 ^ 32)
    else refused WireError.invalid_stream_id_len []

unfoldable pub write_offset : ByteOrder → ℕ → ℕ → Written
write_offset o offset_length offset =
    if offset_length == 0
    then written []
    else if offset_length == 2
    then write_uint16 o (offset % 2 ^ 16)
    else if offset_length == 3
    then write_uint24 o (offset % 2 ^ 32)
    else if offset_length == 4
    then write_uint32 o (offset % 2 ^ 32)
    else if offset_length == 5
    then write_uint40 o offset
    else if offset_length == 6
    then write_uint48 o offset
    else if offset_length == 7
    then write_uint56 o offset
    else if offset_length == 8
    then write_uint64 o offset
    else refused WireError.invalid_offset_len []

abbrev pub write_data_len : ByteOrder → Bool → ℕ → Written
write_data_len o true n = write_uint16 o (n % 2 ^ 16)
write_data_len o false n = written []

unfoldable pub write_stream_frame : StreamFrame → ℤ → Written
write_stream_frame f version =
    let id_len = calculate_stream_id_length f in
    let offset_length = get_offset_length f in
    if (length f.payload == 0) && not f.fin_bit
    then refused WireError.writing_empty_stream_frame_no_fin []
    else written (type_byte_of f.fin_bit f.data_len_present offset_length id_len ∷ [])
      then_write write_stream_id (get_byte_order version) id_len f.stream_id
      then_write write_offset (get_byte_order version) offset_length f.offset
      then_write write_data_len (get_byte_order version) f.data_len_present (length f.payload)
      then_write written f.payload

-- MinLength: the length of the header.
unfoldable pub stream_frame_min_length : StreamFrame → ℕ
stream_frame_min_length f =
    let n = 1 + calculate_stream_id_length f + get_offset_length f in
    if f.data_len_present then n + 2 else n
