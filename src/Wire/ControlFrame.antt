-- ===== src/Wire/ControlFrame.antt =====
-- internal/wire: the bytes of the small frames (window_update_frame.go, rst_stream_frame.go,
-- blocked_frame.go, ping_frame.go, goaway_frame.go, connection_close_frame.go and
-- stop_waiting_frame.go). Stream ids and error codes are uint32, byte offsets uint64.
pub mod RoundTrip
use mpquic_latency.Base.{
  ℕ, ◌+◌, ◌-◌, ◌%◌, ◌^◌, Bool, ltb, leb, ◌==◌, if◌then◌else◌, u64, sub64, List, [], ◌∷◌, length, ℤ,
  Option, none, some,
}
use mpquic_latency.Wire.Frame.{
  RstStreamFrame, WindowUpdateFrame, BlockedFrame, GoawayFrame, ConnectionCloseFrame,
  StopWaitingFrame,
}
use mpquic_latency.Wire.StreamFrame.{max_packet_size}
use mpquic_latency.Utils.Buffer.{
  Reader, ◌>>=◌, ◌>>◌, give, throw, read_byte, read_full, Written, written, refused, ◌then_write◌,
  WireError,
}
use mpquic_latency.Utils.ByteOrder.{
  ByteOrder, get_byte_order, read_uint_n, read_uint16, read_uint32, read_uint64, write_uint64,
  write_uint48, write_uint32, write_uint16,
}

unfoldable pub write_window_update_frame : WindowUpdateFrame → ℤ → Written
write_window_update_frame f version =
    written (0x4 ∷ [])
    then_write write_uint32 (get_byte_order version) (f.stream_id % 2 ^ 32)
    then_write write_uint64 (get_byte_order version) f.byte_offset

unfoldable pub parse_window_update_frame : ℤ → Reader WindowUpdateFrame
parse_window_update_frame version = do
  read_byte
  sid ← read_uint32 (get_byte_order version)
  byte_offset ← read_uint64 (get_byte_order version)
  give (record { stream_id = sid; byte_offset = byte_offset })

unfoldable pub write_rst_stream_frame : RstStreamFrame → ℤ → Written
write_rst_stream_frame f version =
    written (0x01 ∷ [])
    then_write write_uint32 (get_byte_order version) (f.stream_id % 2 ^ 32)
    then_write write_uint64 (get_byte_order version) f.byte_offset
    then_write write_uint32 (get_byte_order version) f.error_code

unfoldable pub parse_rst_stream_frame : ℤ → Reader RstStreamFrame
parse_rst_stream_frame version = do
  read_byte
  sid ← read_uint32 (get_byte_order version)
  byte_offset ← read_uint64 (get_byte_order version)
  error_code ← read_uint32 (get_byte_order version)
  give (record { stream_id = sid; error_code = error_code; byte_offset = byte_offset })

unfoldable pub write_blocked_frame : BlockedFrame → ℤ → Written
write_blocked_frame f version =
    written (0x05 ∷ []) then_write write_uint32 (get_byte_order version) (f.stream_id % 2 ^ 32)

unfoldable pub parse_blocked_frame : ℤ → Reader BlockedFrame
parse_blocked_frame version = do
  read_byte
  sid ← read_uint32 (get_byte_order version)
  give (record { stream_id = sid })

abbrev pub write_ping_frame : ℤ → Written
write_ping_frame version = written (0x07 ∷ [])

abbrev pub parse_ping_frame : ℤ → Reader (Unit {0})
parse_ping_frame version = do read_byte; give tt

unfoldable pub write_goaway_frame : GoawayFrame → ℤ → Written
write_goaway_frame f version =
    written (0x03 ∷ [])
    then_write write_uint32 (get_byte_order version) (f.error_code % 2 ^ 32)
    then_write write_uint32 (get_byte_order version) (f.last_good_stream % 2 ^ 32)
    then_write write_uint16 (get_byte_order version) (length f.reason_phrase % 2 ^ 16)
    then_write written f.reason_phrase

unfoldable pub parse_goaway_frame : ℤ → Reader GoawayFrame
parse_goaway_frame version = do
  read_byte
  error_code ← read_uint32 (get_byte_order version)
  last_good_stream ← read_uint32 (get_byte_order version)
  reason_phrase_len ← read_uint16 (get_byte_order version)
  if ltb max_packet_size reason_phrase_len then throw WireError.invalid_goaway_data else do
    reason_phrase ← read_full reason_phrase_len
    give (record {
      error_code = error_code;
      last_good_stream = last_good_stream;
      reason_phrase = reason_phrase;
    })

-- The error code is written before the length of the reason phrase is looked at.
unfoldable pub write_connection_close_frame : ConnectionCloseFrame → ℤ → Written
write_connection_close_frame f version =
    written (0x02 ∷ [])
    then_write write_uint32 (get_byte_order version) (f.error_code % 2 ^ 32)
    then_write (if ltb (2 ^ 16 - 1) (length f.reason_phrase)
        then refused WireError.connection_close_reason_phrase_too_long []
        else write_uint16 (get_byte_order version) (length f.reason_phrase % 2 ^ 16)
          then_write written f.reason_phrase)

unfoldable pub parse_connection_close_frame : ℤ → Reader ConnectionCloseFrame
parse_connection_close_frame version = do
  read_byte
  error_code ← read_uint32 (get_byte_order version)
  reason_phrase_len ← read_uint16 (get_byte_order version)
  if ltb max_packet_size reason_phrase_len
      then throw WireError.invalid_connection_close_data
      else do
        reason_phrase ← read_full reason_phrase_len
        give (record { error_code = error_code; reason_phrase = reason_phrase })

-- The distance to the least unacked packet, in as many bytes as the packet number has.
unfoldable pub write_least_unacked_delta : ByteOrder → ℕ → ℕ → Written
write_least_unacked_delta o packet_number_len delta =
    if packet_number_len == 1
    then written (delta % 2 ^ 8 ∷ [])
    else if packet_number_len == 2
    then write_uint16 o (delta % 2 ^ 16)
    else if packet_number_len == 4
    then write_uint32 o (delta % 2 ^ 32)
    else if packet_number_len == 6
    then write_uint48 o (delta % 2 ^ 48)
    else refused WireError.packet_number_len_not_set []

unfoldable pub write_stop_waiting_frame : StopWaitingFrame → ℤ → Written
write_stop_waiting_frame f version =
    if f.packet_number == 0
    then refused WireError.packet_number_not_set []
    else if ltb f.packet_number f.least_unacked
    then refused WireError.least_unacked_higher_than_packet_number []
    else written (0x06 ∷ [])
      then_write write_least_unacked_delta (get_byte_order version) f.packet_number_len
          (sub64 f.packet_number f.least_unacked)

-- The packet number and its length are those of the packet that the frame came in.
unfoldable pub parse_stop_waiting_frame : ℕ → ℕ → ℤ → Reader StopWaitingFrame
parse_stop_waiting_frame packet_number packet_number_len version = do
  read_byte
  delta ← read_uint_n (get_byte_order version) packet_number_len
  if leb packet_number delta
      then throw WireError.invalid_stop_waiting_data
      else give (record {
        least_unacked = sub64 packet_number delta;
        packet_number_len = 0;
        packet_number = 0;
      })

-- MinLength of each frame: the length that it is written in.
abbrev pub window_update_min_length : ℕ
window_update_min_length = 1 + 4 + 8

abbrev pub rst_stream_min_length : ℕ
rst_stream_min_length = 1 + 4 + 8 + 4

abbrev pub blocked_min_length : ℕ
blocked_min_length = 1 + 4

abbrev pub ping_min_length : ℕ
ping_min_length = 1

abbrev pub goaway_min_length : GoawayFrame → ℕ
goaway_min_length f = 1 + 4 + 4 + 2 + length f.reason_phrase

abbrev pub connection_close_min_length : ConnectionCloseFrame → ℕ
connection_close_min_length f = 1 + 4 + 2 + length f.reason_phrase

-- The packet number length 0 stands for an invalid one.
abbrev pub stop_waiting_min_length : StopWaitingFrame → ℕ × Option WireError
stop_waiting_min_length f =
    if f.packet_number_len == 0
    then (0, some WireError.packet_number_len_not_set)
    else (1 + f.packet_number_len, none)
