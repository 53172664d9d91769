-- ===== src/Protocol/PacketNumber/Infer.antt =====
-- A truncated packet number is restored.
use mpquic_latency.Base.{ℕ, ◌+◌, ◌-◌, ◌*◌, ◌/◌, ◌%◌, ◌^◌, ◌<◌, ◌≤◌, ◌≡◌, ◌⊎◌, inl, inr, arith}
use mpquic_latency.Protocol.PacketNumber.{
  PacketNumberLen, packet_number_len1, packet_number_len2, packet_number_len4, packet_number_len6,
  epoch_delta, infer_in_epoch, infer_packet_number, get_packet_number_length_for_public_header,
  closest_to, delta,
}

-- The number lies in the epoch of the last one, in the one before, or in the one after.
data Near (d e w pn : ℕ) : Type 0 where
  same : pn ≡ e + w → Near d e w pn
  previous : pn + d ≡ e + w → Near d e w pn
  next : pn ≡ e + d + w → Near d e w pn

Near-infer_in_epoch :
    (d e last w pn : ℕ)
    → 0 < d
    → d ≤ 2 ^ 48
    → last < 2 ^ 61
    → e ≤ last
    → last < e + d
    → w < d
    → 2 * pn < 2 * (last + 1) + d
    → 2 * (last + 1) < 2 * pn + d
    → Near d e w pn
    → infer_in_epoch d e last w ≡ pn
unfolding infer_in_epoch closest_to delta
Near-infer_in_epoch d e last w pn p b q i j k x y (same h) = ground arith
Near-infer_in_epoch d e last w pn p b q i j k x y (previous h) = ground arith
Near-infer_in_epoch d e last w pn p b q i j k x y (next h) = ground arith

one_byte_epochs :
    (last pn : ℕ)
    → 2 * pn < 2 * (last + 1) + 2 ^ 8
    → 2 * (last + 1) < 2 * pn + 2 ^ 8
    → Near (2 ^ 8) ((2 ^ 8) * (last / (2 ^ 8))) (pn % (2 ^ 8)) pn
one_byte_epochs last pn x y = ground arith

two_byte_epochs :
    (last pn : ℕ)
    → 2 * pn < 2 * (last + 1) + 2 ^ 16
    → 2 * (last + 1) < 2 * pn + 2 ^ 16
    → Near (2 ^ 16) ((2 ^ 16) * (last / (2 ^ 16))) (pn % (2 ^ 16)) pn
two_byte_epochs last pn x y = ground arith

four_byte_epochs :
    (last pn : ℕ)
    → 2 * pn < 2 * (last + 1) + 2 ^ 32
    → 2 * (last + 1) < 2 * pn + 2 ^ 32
    → Near (2 ^ 32) ((2 ^ 32) * (last / (2 ^ 32))) (pn % (2 ^ 32)) pn
four_byte_epochs last pn x y = ground arith

six_byte_epochs :
    (last pn : ℕ)
    → 2 * pn < 2 * (last + 1) + 2 ^ 48
    → 2 * (last + 1) < 2 * pn + 2 ^ 48
    → Near (2 ^ 48) ((2 ^ 48) * (last / (2 ^ 48))) (pn % (2 ^ 48)) pn
six_byte_epochs last pn x y = ground arith

-- A packet number that is less than half an epoch away from the number expected next is restored
-- from its low bytes, for each of the four lengths, across the borders of the epochs too.
pub infer_packet_number_restores :
    (l : PacketNumberLen) (last pn : ℕ)
    → last < 2 ^ 61
    → 2 * pn < 2 * (last + 1) + epoch_delta l
    → 2 * (last + 1) < 2 * pn + epoch_delta l
    → infer_packet_number l last (pn % epoch_delta l) ≡ pn
unfolding infer_packet_number epoch_delta
infer_packet_number_restores packet_number_len1 last pn b x y =
    Near-infer_in_epoch (2 ^ 8) ((2 ^ 8) * (last / (2 ^ 8))) last (pn % (2 ^ 8)) pn (omega arith)
      (omega arith) b (omega arith) (omega arith) (omega arith) x y (one_byte_epochs last pn x y)
infer_packet_number_restores packet_number_len2 last pn b x y =
    Near-infer_in_epoch (2 ^ 16) ((2 ^ 16) * (last / (2 ^ 16))) last (pn % (2 ^ 16)) pn
      (omega arith) (omega arith) b (omega arith) (omega arith) (omega arith) x y
      (two_byte_epochs last pn x y)
infer_packet_number_restores packet_number_len4 last pn b x y =
    Near-infer_in_epoch (2 ^ 32) ((2 ^ 32) * (last / (2 ^ 32))) last (pn % (2 ^ 32)) pn
      (omega arith) (omega arith) b (omega arith) (omega arith) (omega arith) x y
      (four_byte_epochs last pn x y)
infer_packet_number_restores packet_number_len6 last pn b x y =
    Near-infer_in_epoch (2 ^ 48) ((2 ^ 48) * (last / (2 ^ 48))) last (pn % (2 ^ 48)) pn
      (omega arith) (omega arith) b (omega arith) (omega arith) (omega arith) x y
      (six_byte_epochs last pn x y)

suffices_below :
    (last pn least_unacked : ℕ)
    → last < 2 ^ 61
    → (least_unacked ≤ last + 1) ⊎ (pn < last + 1 + 2 ^ 15)
    → least_unacked ≤ pn
    → pn - least_unacked < 2 ^ 47
    → 2 * pn
      < 2 * (last + 1) + epoch_delta (get_packet_number_length_for_public_header pn least_unacked)
unfolding get_packet_number_length_for_public_header epoch_delta
suffices_below last pn least_unacked b (inl u) v w = ground arith
suffices_below last pn least_unacked b (inr u) v w = ground arith

suffices_above :
    (last pn least_unacked : ℕ)
    → last + 1 < pn + 2 ^ 15
    → 2 * (last + 1)
      < 2 * pn + epoch_delta (get_packet_number_length_for_public_header pn least_unacked)
unfolding get_packet_number_length_for_public_header epoch_delta
suffices_above last pn least_unacked x = ground arith

-- The length that the sender chooses for the public header is enough: a receiver restores the
-- packet's number if its largest packet number so far is below 2 ^ 61, not 2 ^ 15 - 1 or more ahead of
-- the packet, and either at least the one before the least unacked, or at most 2 ^ 15 behind
-- the packet, as when packets that count as lost never came; and if the least unacked is at most the
-- packet's number and fewer than 2 ^ 47 below it.
pub get_packet_number_length_for_public_header_suffices :
    (last pn least_unacked : ℕ)
    → last < 2 ^ 61
    → (least_unacked ≤ last + 1) ⊎ (pn < last + 1 + 2 ^ 15)
    → least_unacked ≤ pn
    → pn - least_unacked < 2 ^ 47
    → last + 1 < pn + 2 ^ 15
    → let l = get_packet_number_length_for_public_header pn least_unacked in
      infer_packet_number l last (pn % epoch_delta l) ≡ pn
get_packet_number_length_for_public_header_suffices last pn least_unacked b u v w x =
    infer_packet_number_restores (get_packet_number_length_for_public_header pn least_unacked) last
      pn b (suffices_below last pn least_unacked b u v w) (suffices_above last pn least_unacked x)
