-- ===== src/Wire/AckBytes.antt =====
-- internal/wire/ack_frame.go and close_path_frame.go: reading the bytes of the frames that report
-- packets. (Writing them is not modelled.)
use Prim.Native.Nat.{bit_and}
use mpquic_latency.Base.{
  ℕ, zero, suc, ◌+◌, ◌*◌, ◌/◌, ◌^◌, Bool, true, false, not, ◌&&◌, ltb, ◌==◌, if◌then◌else◌, u64,
  sub64, List, [], ◌∷◌, reverse, none, ℤ,
}
use mpquic_latency.Wire.AckFrame.{AckRange, AckFrame, ClosePathFrame, validate_ack_ranges}
use mpquic_latency.Utils.Buffer.{Reader, ◌>>=◌, ◌>>◌, give, throw, read_byte, WireError}
use mpquic_latency.Utils.ByteOrder.{
  ByteOrder, get_byte_order, read_uint_n, read_uint16, read_uint32,
}
use mpquic_latency.Utils.Ufloat16.{read_ufloat16}

abbrev pub check : Bool → WireError → Reader (Unit {0})
check ok e = if ok then give tt else throw e

-- The two lengths that the type byte, or the flags, hold: twice two bits, or one.
abbrev pub coded_length : ℕ → ℕ
coded_length n = if 2 * n == 0 then 1 else 2 * n

abbrev pub largest_acked_len : ℕ → ℕ
largest_acked_len type_byte = coded_length (bit_and type_byte 0x0c / 2 ^ 2)

abbrev pub block_length_len : ℕ → ℕ
block_length_len type_byte = coded_length (bit_and type_byte 0x03)

-- The ranges that were read, the lowest one first.
pub record Blocks : Type 0 where
  pub ranges : List AckRange
  pub in_long_block : Bool
  pub last_range_complete : Bool

-- A block of a long gap moves the last range, any other one begins a new range.
abbrev pub next_ranges : Bool → ℕ → ℕ → List AckRange → List AckRange
next_ranges in_long gap n [] = []
next_ranges in_long gap n (r ∷ ranges) =
    if in_long
    then record { first = sub64 r.first (u64 (gap + n)); last = sub64 r.last gap } ∷ ranges
    else record {
      first = u64 (sub64 (sub64 (sub64 r.first gap) 1) n + 1);
      last = sub64 (sub64 r.first gap) 1;
    }
      ∷ r
      ∷ ranges

unfoldable pub add_block : ℕ → ℕ → Blocks → Blocks
add_block gap n b = record {
  ranges = next_ranges b.in_long_block gap n b.ranges;
  in_long_block = n == 0;
  last_range_complete = if ltb 0 n then true else b.in_long_block && b.last_range_complete;
}

unfoldable pub read_blocks : ByteOrder → ℕ → ℕ → Blocks → Reader Blocks
unfolding add_block
read_blocks o len zero b = give b
read_blocks o len (suc n) b = do
  gap ← read_byte
  block_length ← read_uint_n o len
  read_blocks o len n (add_block gap block_length b)

-- A range that was not completed is taken off; the first range of all is never taken off.
abbrev pub without_last : List AckRange → List AckRange
without_last [] = []
without_last (r ∷ ranges) = ranges

abbrev pub complete_ranges : Blocks → List AckRange
complete_ranges b = if b.last_range_complete then b.ranges else without_last b.ranges

abbrev pub lowest_of : List AckRange → ℕ
lowest_of [] = 0
lowest_of (r ∷ ranges) = r.first

-- LowestAcked and AckRanges.
abbrev pub Acked : Type 0
Acked = ℕ × List AckRange

abbrev pub acked_of : List AckRange → Acked
acked_of ranges = (lowest_of ranges, reverse ranges)

abbrev pub read_ranges : ByteOrder → ℕ → Bool → ℕ → ℕ → ℕ → Reader Acked
read_ranges o len true num largest block_length = do
  b ← read_blocks o len num (record {
    ranges = record { first = u64 (sub64 largest block_length + 1); last = largest } ∷ [];
    in_long_block = false;
    last_range_complete = false;
  })
  give (acked_of (complete_ranges b))
read_ranges o len false num largest block_length =
    give (if largest == 0 then 0 else sub64 (u64 (largest + 1)) block_length, [])

-- The number of blocks, which is not 0 if there are any.
abbrev pub read_num_blocks : Bool → Reader ℕ
read_num_blocks true = read_byte
read_num_blocks false = give 0

-- What follows the number of blocks and the largest packet number, in both frames.
unfoldable pub read_acked : ByteOrder → ℕ → Bool → ℕ → ℕ → Reader Acked
unfolding read_blocks
read_acked o len missing num largest = do
  block_length ← read_uint_n o len
  check (not (ltb 0 largest && ltb block_length 1)) WireError.invalid_first_ack_range
  check (not (ltb largest block_length)) WireError.invalid_ack_ranges
  acked ← read_ranges o len missing num largest block_length
  check (validate_ack_ranges largest acked.1) WireError.invalid_ack_ranges
  give acked

abbrev pub read_delay : ByteOrder → Reader ℕ
read_delay o = do v ← read_uint16 o; give (read_ufloat16 v)

abbrev pub read_path_id : Bool → Reader ℕ
read_path_id true = read_byte
read_path_id false = give 0

-- Timestamps are read and dropped.
unfoldable pub read_more_timestamps : ByteOrder → ℕ → Reader (Unit {0})
read_more_timestamps o zero = give tt
read_more_timestamps o (suc n) = do read_byte; read_uint16 o; read_more_timestamps o n

abbrev pub read_timestamps : ByteOrder → ℕ → Reader (Unit {0})
read_timestamps o zero = give tt
read_timestamps o (suc n) = do read_byte; read_uint32 o; read_more_timestamps o n

unfoldable pub parse_ack_frame : ℤ → Reader AckFrame
unfolding read_acked read_more_timestamps
parse_ack_frame version = do
  type_byte ← read_byte
  let missing = bit_and type_byte 0x20 == 0x20
  path ← read_path_id (bit_and type_byte 0x10 == 0x10)
  largest ← read_uint_n (get_byte_order version) (largest_acked_len type_byte)
  delay ← read_delay (get_byte_order version)
  num ← read_num_blocks missing
  check (not (missing && (num == 0))) WireError.invalid_ack_ranges
  acked ← read_acked (get_byte_order version) (block_length_len type_byte) missing num largest
  num_timestamp ← read_byte
  read_timestamps (get_byte_order version) num_timestamp
  give (record {
    path_id = path;
    largest_acked = largest;
    lowest_acked = acked.0;
    ack_ranges = acked.1;
    packet_received_time = none;
    delay_time = delay * 1000;
  })

unfoldable pub parse_close_path_frame : ℤ → Reader ClosePathFrame
unfolding read_acked
parse_close_path_frame version = do
  read_byte
  path ← read_byte
  flags ← read_byte
  let missing = bit_and flags 0x10 == 0x10
  num ← read_num_blocks missing
  check (not (missing && (num == 0))) WireError.invalid_ack_ranges
  largest ← read_uint_n (get_byte_order version) (largest_acked_len flags)
  acked ← read_acked (get_byte_order version) (block_length_len flags) missing num largest
  give (record {
    path_id = path;
    largest_acked = largest;
    lowest_acked = acked.0;
    ack_ranges = acked.1;
  })
