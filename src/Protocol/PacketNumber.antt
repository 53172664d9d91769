-- ===== src/Protocol/PacketNumber.antt =====
-- internal/protocol/packet_number.go: the truncated packet numbers of the public header.
pub mod Infer
use mpquic_latency.Base.{ℕ, ◌+◌, ◌-◌, ◌*◌, ◌/◌, ◌^◌, ltb, if◌then◌else◌, u64, sub64}

pub data PacketNumberLen : Type 0 where
  packet_number_len1 : PacketNumberLen
  packet_number_len2 : PacketNumberLen
  packet_number_len4 : PacketNumberLen
  packet_number_len6 : PacketNumberLen

-- `1 << (length * 8)`.
unfoldable pub epoch_delta : PacketNumberLen → ℕ
epoch_delta packet_number_len1 = 2 ^ 8
epoch_delta packet_number_len2 = 2 ^ 16
epoch_delta packet_number_len4 = 2 ^ 32
epoch_delta packet_number_len6 = 2 ^ 48

unfoldable pub delta : ℕ → ℕ → ℕ
delta a b = if ltb a b then b - a else a - b

unfoldable pub closest_to : ℕ → ℕ → ℕ → ℕ
unfolding delta
closest_to target a b = if ltb (delta target a) (delta target b) then a else b

-- The three candidates, of the epoch of the last packet number and of its neighbours.
unfoldable pub infer_in_epoch : ℕ → ℕ → ℕ → ℕ → ℕ
unfolding closest_to
infer_in_epoch d epoch last wire =
    closest_to (u64 (last + 1)) (u64 (epoch + wire))
      (closest_to (u64 (last + 1)) (u64 (sub64 epoch d + wire)) (u64 (u64 (epoch + d) + wire)))

-- Masking the low bits of a number is taking away its remainder.
unfoldable pub infer_packet_number : PacketNumberLen → ℕ → ℕ → ℕ
unfolding infer_in_epoch epoch_delta
infer_packet_number l last wire =
    infer_in_epoch (epoch_delta l) (epoch_delta l * (last / epoch_delta l)) last wire

unfoldable pub get_packet_number_length_for_public_header : ℕ → ℕ → PacketNumberLen
get_packet_number_length_for_public_header packet_number least_unacked =
    if ltb (sub64 packet_number least_unacked) (2 ^ 15)
    then packet_number_len2
    else if ltb (sub64 packet_number least_unacked) (2 ^ 31)
    then packet_number_len4
    else packet_number_len6

unfoldable pub get_packet_number_length : ℕ → PacketNumberLen
get_packet_number_length packet_number =
    if ltb packet_number (2 ^ 8)
    then packet_number_len1
    else if ltb packet_number (2 ^ 16)
    then packet_number_len2
    else if ltb packet_number (2 ^ 32)
    then packet_number_len4
    else packet_number_len6
