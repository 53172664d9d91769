-- ===== src/Session/PacketUnpacker.antt =====
-- packet_unpacker.go: the frames of a packet. Decryption is the function that is handed in, from the
-- data to the plain text and its encryption level, and `ipv4` is net.IPv4.
pub mod Consumes
pub mod Frames
pub mod Ends
mod Examples
use Prim.Native.Nat.{bit_and}
use mpquic_latency.Base.{
  ℕ, zero, suc, ◌+◌, ltb, leb, ◌==◌, not, ◌&&◌, if◌then◌else◌, Option, none, some, List, [], ◌∷◌,
  length, ℤ,
}
use mpquic_latency.Wire.Frame.{StreamFrame, Frame}
use mpquic_latency.Utils.Buffer.{WireError, Parsed, parsed, failed}
use mpquic_latency.Wire.StreamFrame.{parse_stream_frame}
use mpquic_latency.Wire.AckBytes.{parse_ack_frame, parse_close_path_frame}
use mpquic_latency.Wire.PathFrame.{parse_add_address_frame, parse_paths_frame}
use mpquic_latency.Wire.ControlFrame.{
  parse_rst_stream_frame, parse_connection_close_frame, parse_goaway_frame,
  parse_window_update_frame, parse_blocked_frame, parse_stop_waiting_frame, parse_ping_frame,
}

-- The encryption levels, in their order.
abbrev pub encryption_unencrypted : ℕ
encryption_unencrypted = 1

-- The errors of Unpack, the qerr codes with the error of the frame where it is wrapped.
pub data UnpackError : Type 0 where
  decryption_failure : UnpackError
  missing_payload : UnpackError
  invalid_stream_data : WireError → UnpackError
  unencrypted_stream_data : ℕ → UnpackError
  invalid_ack_data : WireError → UnpackError
  unimplemented_congestion_feedback : UnpackError
  invalid_rst_stream_data : WireError → UnpackError
  invalid_connection_close_data : WireError → UnpackError
  invalid_goaway_data : WireError → UnpackError
  invalid_window_update_data : WireError → UnpackError
  invalid_blocked_data : WireError → UnpackError
  invalid_stop_waiting_data : WireError → UnpackError
  unwrapped : WireError → UnpackError
  invalid_frame_data : ℕ → UnpackError

-- A frame that was read, with the bytes that follow it.
pub data NextFrame : Type 0 where
  got : Frame → List ℕ → NextFrame
  rejected : UnpackError → NextFrame

abbrev pub as_frame : {A : Type 0} → (A → Frame) → (WireError → UnpackError) → Parsed A → NextFrame
as_frame to_frame wrap (parsed a rest) = got (to_frame a) rest
as_frame to_frame wrap (failed e) = rejected (wrap e)

-- Only the crypto stream may be unencrypted.
abbrev pub as_stream_frame : ℕ → Parsed StreamFrame → NextFrame
as_stream_frame level (parsed f rest) =
    if not (f.stream_id == 1) && leb level encryption_unencrypted
    then rejected (unencrypted_stream_data f.stream_id)
    else got (Frame.stream f) rest
as_stream_frame level (failed e) = rejected (invalid_stream_data e)

module _ (ipv4 : ℕ → ℕ → ℕ → ℕ → List ℕ) (version : ℤ) (packet_number packet_number_len : ℕ) where
  -- The switch over the type bytes of the frames that carry no flags in it.
  unfoldable pub parse_control_frame : ℕ → List ℕ → NextFrame
  parse_control_frame type_byte bytes =
      if type_byte == 0x01
      then as_frame Frame.rst_stream invalid_rst_stream_data (parse_rst_stream_frame version bytes)
      else if type_byte == 0x02
      then as_frame Frame.connection_close invalid_connection_close_data
          (parse_connection_close_frame version bytes)
      else if type_byte == 0x03
      then as_frame Frame.goaway invalid_goaway_data (parse_goaway_frame version bytes)
      else if type_byte == 0x04
      then as_frame Frame.window_update invalid_window_update_data
          (parse_window_update_frame version bytes)
      else if type_byte == 0x05
      then as_frame Frame.blocked invalid_blocked_data (parse_blocked_frame version bytes)
      else if type_byte == 0x06
      then as_frame Frame.stop_waiting invalid_stop_waiting_data
          (parse_stop_waiting_frame packet_number packet_number_len version bytes)
      else if type_byte == 0x07
      then as_frame (λ _. Frame.ping) unwrapped (parse_ping_frame version bytes)
      else if type_byte == 0x10
      then as_frame Frame.add_address unwrapped (parse_add_address_frame ipv4 version bytes)
      else if type_byte == 0x11
      then as_frame Frame.close_path unwrapped (parse_close_path_frame version bytes)
      else if type_byte == 0x12
      then as_frame Frame.paths unwrapped (parse_paths_frame version bytes)
      else rejected (invalid_frame_data type_byte)

  unfoldable pub parse_next_frame : ℕ → ℕ → List ℕ → NextFrame
  unfolding parse_control_frame
  parse_next_frame level type_byte bytes =
      if bit_and type_byte 0x80 == 0x80
      then as_stream_frame level (parse_stream_frame version bytes)
      else if bit_and type_byte 0xc0 == 0x40
      then as_frame Frame.ack invalid_ack_data (parse_ack_frame version bytes)
      else if bit_and type_byte 0xe0 == 0x20
      then rejected unimplemented_congestion_feedback
      else parse_control_frame type_byte bytes

-- What Unpack returns; the model alone may run out of fuel.
pub data Unpacked : Type 0 where
  unpacked : List Frame → Unpacked
  refused : UnpackError → Unpacked
  out_of_fuel : Unpacked

abbrev pub with_frame : Frame → Unpacked → Unpacked
with_frame f (unpacked fs) = unpacked (f ∷ fs)
with_frame f (refused e) = refused e
with_frame f out_of_fuel = out_of_fuel

module _ (ipv4 : ℕ → ℕ → ℕ → ℕ → List ℕ) (version : ℤ)
    (packet_number packet_number_len level : ℕ) where
  abbrev pub after_frame : (List ℕ → Unpacked) → NextFrame → Unpacked
  after_frame continue (got f rest) = with_frame f (continue rest)
  after_frame continue (rejected e) = refused e

  -- The loop over the frames; a type byte 0 is padding.
  unfoldable pub read_frames : ℕ → List ℕ → Unpacked
  unfolding parse_next_frame
  read_frames zero bytes = out_of_fuel
  read_frames (suc fuel) [] = unpacked []
  read_frames (suc fuel) (type_byte ∷ bytes) =
      let padding = read_frames fuel bytes in
      let frame =
        after_frame (λ rest. read_frames fuel rest)
          (parse_next_frame ipv4 version packet_number packet_number_len level type_byte
            (type_byte ∷ bytes)) in
      if type_byte == 0x0 then padding else frame

-- One round for each byte, and one that finds no byte left.
abbrev pub read_all_frames : (ℕ → ℕ → ℕ → ℕ → List ℕ) → ℤ → ℕ → ℕ → ℕ → List ℕ → Unpacked
read_all_frames ipv4 version packet_number packet_number_len level bytes =
    if length bytes == 0
    then refused missing_payload
    else read_frames ipv4 version packet_number packet_number_len level (length bytes + 1) bytes

abbrev pub unpack_decrypted : (ℕ → ℕ → ℕ → ℕ → List ℕ) → ℤ → ℕ → ℕ → Option (List ℕ × ℕ) → Unpacked
unpack_decrypted ipv4 version packet_number packet_number_len none = refused decryption_failure
unpack_decrypted ipv4 version packet_number packet_number_len (some (bytes, level)) =
    read_all_frames ipv4 version packet_number packet_number_len level bytes

unfoldable pub unpack :
    (ℕ → ℕ → ℕ → ℕ → List ℕ) → (List ℕ → Option (List ℕ × ℕ)) → ℤ → ℕ → ℕ → List ℕ → Unpacked
unfolding read_frames
unpack ipv4 open_aead version packet_number packet_number_len encrypted =
    unpack_decrypted ipv4 version packet_number packet_number_len (open_aead encrypted)
