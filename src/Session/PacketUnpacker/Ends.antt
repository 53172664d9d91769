-- ===== src/Session/PacketUnpacker/Ends.antt =====
-- The loop over the frames of a packet ends.
use Prim.Native.Nat.{bit_and}
use mpquic_latency.Base.{
  ℕ, zero, suc, ◌+◌, ◌≤◌, ◌<◌, Bool, true, false, ◌==◌, leb, not, ◌&&◌, if◌then◌else◌, Option, none,
  some, List, [], ◌∷◌, length, ℤ, arith,
}
use mpquic_latency.Wire.Frame.{Frame, StreamFrame}
use mpquic_latency.Utils.Buffer.{Parsed, parsed, failed, WireError}
use mpquic_latency.Session.PacketUnpacker.{
  UnpackError, encryption_unencrypted, unencrypted_stream_data, unwrapped, NextFrame, got, rejected,
  as_frame, as_stream_frame, parse_control_frame, parse_next_frame, Unpacked, unpacked, refused,
  out_of_fuel, with_frame, after_frame, read_frames, unpack_decrypted, unpack,
}
use mpquic_latency.Wire.ControlFrame.{parse_ping_frame}
use mpquic_latency.Session.PacketUnpacker.Consumes.{Within}
use mpquic_latency.Session.PacketUnpacker.Frames.{
  parse_stream_frame-Consumes, parse_window_update_frame-Consumes, parse_rst_stream_frame-Consumes,
  parse_blocked_frame-Consumes, parse_ping_frame-Consumes, parse_goaway_frame-Consumes,
  parse_connection_close_frame-Consumes, parse_stop_waiting_frame-Consumes,
  parse_ack_frame-Consumes, parse_close_path_frame-Consumes, parse_add_address_frame-Consumes,
  parse_paths_frame-Consumes,
}

abbrev LeavesWithin : ℕ → NextFrame → Type 0
LeavesWithin n (got f rest) = length rest ≤ n
LeavesWithin n (rejected e) = Unit

as_frame-Within :
    {A : Type 0} (to_frame : A → Frame) (wrap : WireError → UnpackError) (n : ℕ) (p : Parsed A)
    → Within n p
    → LeavesWithin n (as_frame to_frame wrap p)
as_frame-Within to_frame wrap n (parsed a rest) w = w
as_frame-Within to_frame wrap n (failed e) w = tt

if-Within :
    (test : Bool) (n : ℕ) (x y : NextFrame)
    → LeavesWithin n x
    → LeavesWithin n y
    → LeavesWithin n (if test then x else y)
if-Within true n x y p q = p
if-Within false n x y p q = q

as_stream_frame-Within :
    (level n : ℕ) (p : Parsed StreamFrame) → Within n p → LeavesWithin n (as_stream_frame level p)
as_stream_frame-Within level n (parsed f rest) w =
    if-Within (not (f.stream_id == 1) && leb level encryption_unencrypted) n
      (rejected (unencrypted_stream_data f.stream_id)) (got (Frame.stream f) rest) tt w
as_stream_frame-Within level n (failed e) w = tt

module _ (ipv4 : ℕ → ℕ → ℕ → ℕ → List ℕ) (version : ℤ) (packet_number packet_number_len : ℕ) where
  control_frame-Within :
      (type_byte : ℕ) (bytes : List ℕ)
      → LeavesWithin (length bytes) (
          parse_control_frame ipv4 version packet_number packet_number_len type_byte
            (type_byte ∷ bytes))
  unfolding parse_control_frame
  control_frame-Within b bytes =
      let n = length bytes in
      if-Within (b == 0x01) n _ _
        (as_frame-Within _ _ n _ (parse_rst_stream_frame-Consumes version b bytes))
        (if-Within (b == 0x02) n _ _
          (as_frame-Within _ _ n _ (parse_connection_close_frame-Consumes version b bytes))
          (if-Within (b == 0x03) n _ _
            (as_frame-Within _ _ n _ (parse_goaway_frame-Consumes version b bytes))
            (if-Within (b == 0x04) n _ _
              (as_frame-Within _ _ n _ (parse_window_update_frame-Consumes version b bytes))
              (if-Within (b == 0x05) n _ _
                (as_frame-Within _ _ n _ (parse_blocked_frame-Consumes version b bytes))
                (if-Within (b == 0x06) n _ _
                  (as_frame-Within _ _ n _ (
                    parse_stop_waiting_frame-Consumes packet_number packet_number_len version b
                      bytes))
                  (if-Within (b == 0x07) n _ _
                    (as_frame-Within {A = Unit {0}} (λ _. Frame.ping) unwrapped n
                      (parse_ping_frame version (b ∷ bytes))
                      (parse_ping_frame-Consumes version b bytes))
                    (if-Within (b == 0x10) n _ _
                      (as_frame-Within _ _ n _
                        (parse_add_address_frame-Consumes ipv4 version b bytes))
                      (if-Within (b == 0x11) n _ _
                        (as_frame-Within _ _ n _ (parse_close_path_frame-Consumes version b bytes))
                        (if-Within (b == 0x12) n _ _
                          (as_frame-Within _ _ n _ (parse_paths_frame-Consumes version b bytes))
                          tt)))))))))

  next_frame-Within :
      (level type_byte : ℕ) (bytes : List ℕ)
      → LeavesWithin (length bytes) (
          parse_next_frame ipv4 version packet_number packet_number_len level type_byte
            (type_byte ∷ bytes))
  unfolding parse_next_frame
  next_frame-Within level b bytes =
      let n = length bytes in
      if-Within (bit_and b 0x80 == 0x80) n _ _
        (as_stream_frame-Within level n _ (parse_stream_frame-Consumes version b bytes))
        (if-Within (bit_and b 0xc0 == 0x40) n _ _
          (as_frame-Within _ _ n _ (parse_ack_frame-Consumes version b bytes))
          (if-Within (bit_and b 0xe0 == 0x20) n _ _ tt (control_frame-Within b bytes)))

-- The frames of the packet, or an error.
abbrev pub IsAnswer : Unpacked → Type 0
IsAnswer (unpacked fs) = Unit
IsAnswer (refused e) = Unit
IsAnswer out_of_fuel = ⊥

with_frame-IsAnswer : (f : Frame) (u : Unpacked) → IsAnswer u → IsAnswer (with_frame f u)
with_frame-IsAnswer f (unpacked fs) a = tt
with_frame-IsAnswer f (refused e) a = tt
with_frame-IsAnswer f out_of_fuel a = a

module _ (ipv4 : ℕ → ℕ → ℕ → ℕ → List ℕ) (version : ℤ)
    (packet_number packet_number_len level : ℕ) where
  after_frame-IsAnswer :
      (n : ℕ) (continue : List ℕ → Unpacked) (next : NextFrame)
      → LeavesWithin n next
      → ((rest : List ℕ) → length rest ≤ n → IsAnswer (continue rest))
      → IsAnswer (after_frame ipv4 version packet_number packet_number_len level continue next)
  after_frame-IsAnswer n continue (got f rest) w h =
      with_frame-IsAnswer f (continue rest) (h rest w)
  after_frame-IsAnswer n continue (rejected e) w h = tt

  if-IsAnswer :
      (test : Bool) (u v : Unpacked) → IsAnswer u → IsAnswer v → IsAnswer (if test then u else v)
  if-IsAnswer true u v a b = a
  if-IsAnswer false u v a b = b

  read_frames-IsAnswer :
      (fuel : ℕ) (bytes : List ℕ)
      → length bytes < fuel
      → IsAnswer (read_frames ipv4 version packet_number packet_number_len level fuel bytes)
  unfolding read_frames
  read_frames-IsAnswer zero bytes lt = absurd (omega arith)
  read_frames-IsAnswer (suc fuel) [] lt = tt
  read_frames-IsAnswer (suc fuel) (b ∷ bytes) lt =
      if-IsAnswer (b == 0x0) _ _ (read_frames-IsAnswer fuel bytes (omega arith)) (
        after_frame-IsAnswer (length bytes)
          (λ rest. read_frames ipv4 version packet_number packet_number_len level fuel rest)
          (parse_next_frame ipv4 version packet_number packet_number_len level b (b ∷ bytes))
          (next_frame-Within ipv4 version packet_number packet_number_len level b bytes)
          (λ rest le. read_frames-IsAnswer fuel rest (omega arith)))

unpack_decrypted-IsAnswer :
    (ipv4 : ℕ → ℕ → ℕ → ℕ → List ℕ) (version : ℤ) (packet_number packet_number_len : ℕ)
    (plain : Option (List ℕ × ℕ))
    → IsAnswer (unpack_decrypted ipv4 version packet_number packet_number_len plain)
unpack_decrypted-IsAnswer ipv4 version packet_number packet_number_len none = tt
unpack_decrypted-IsAnswer ipv4 version packet_number packet_number_len (some (bytes, level)) =
    if-IsAnswer ipv4 version packet_number packet_number_len level (length bytes == 0) _ _ tt (
      read_frames-IsAnswer ipv4 version packet_number packet_number_len level (length bytes + 1)
        bytes (omega arith))

-- Unpack ends on every packet, with the frames or an error, however the packet decrypts: the loop
-- makes at most one round for each byte and one more, since every parser reads a byte.
pub unpack_ends :
    (ipv4 : ℕ → ℕ → ℕ → ℕ → List ℕ) (open_aead : List ℕ → Option (List ℕ × ℕ)) (version : ℤ)
    (packet_number packet_number_len : ℕ) (encrypted : List ℕ)
    → IsAnswer (unpack ipv4 open_aead version packet_number packet_number_len encrypted)
unfolding unpack
unpack_ends ipv4 open_aead version packet_number packet_number_len encrypted =
    unpack_decrypted-IsAnswer ipv4 version packet_number packet_number_len (open_aead encrypted)
