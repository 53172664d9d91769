-- ===== src/Session/PacketUnpacker/Examples.antt =====
-- Concrete packets.
use mpquic_latency.Base.{ℕ, ◌≡◌, refl, Option, some, List, [], ◌∷◌, pos}
use mpquic_latency.Wire.Frame.{Frame}
use mpquic_latency.Utils.Buffer.{WireError}
use mpquic_latency.Utils.ByteOrder.{get_byte_order, read_uint32}
use mpquic_latency.Wire.ControlFrame.{parse_blocked_frame}
use mpquic_latency.Session.PacketUnpacker.{unpacked, refused, unpack, invalid_blocked_data}
use mpquic_latency.Session.PacketUnpacker.Ends.{IsAnswer, unpack_ends}

abbrev four_bytes : ℕ → ℕ → ℕ → ℕ → List ℕ
four_bytes a b c d = a ∷ b ∷ c ∷ d ∷ []

-- No encryption: the plain text, with the level of forward security.
abbrev plain : List ℕ → Option (List ℕ × ℕ)
plain bytes = some (bytes, 3)

-- A PING, padding, and a BLOCKED frame for stream 5.
ping_and_blocked :
    unpack four_bytes plain (pos 39) 7 1 (0x07 ∷ 0x00 ∷ 0x05 ∷ 0 ∷ 0 ∷ 0 ∷ 5 ∷ [])
    ≡ unpacked (Frame.ping ∷ Frame.blocked (record { stream_id = 5 }) ∷ [])
unfolding unpack parse_blocked_frame read_uint32 get_byte_order
ping_and_blocked = refl

cut_off :
    unpack four_bytes plain (pos 39) 7 1 (0x07 ∷ 0x05 ∷ 0 ∷ 0 ∷ [])
    ≡ refused (invalid_blocked_data WireError.eof)
unfolding unpack parse_blocked_frame read_uint32 get_byte_order
cut_off = refl

unpack_ends_example : IsAnswer (unpack four_bytes plain (pos 39) 7 1 (0x07 ∷ 0x05 ∷ 0 ∷ 0 ∷ []))
unpack_ends_example = unpack_ends four_bytes plain (pos 39) 7 1 (0x07 ∷ 0x05 ∷ 0 ∷ 0 ∷ [])
