-- ===== src/Protocol/Examples.antt =====
-- Concrete packet numbers.
use mpquic_latency.Base.{◌%◌, ◌≡◌, arith, inr}
use mpquic_latency.Protocol.PacketNumber.{
  packet_number_len2, epoch_delta, infer_packet_number, get_packet_number_length_for_public_header,
}
use mpquic_latency.Protocol.PacketNumber.Infer.{
  infer_packet_number_restores, get_packet_number_length_for_public_header_suffices,
}

infer_packet_number_restores_example :
    infer_packet_number packet_number_len2 65530 (65540 % epoch_delta packet_number_len2) ≡ 65540
unfolding epoch_delta
infer_packet_number_restores_example =
    infer_packet_number_restores packet_number_len2 65530 65540 (omega arith) (omega arith)
      (omega arith)

-- The packets from 60001 to 69989 never came and count as lost.
get_packet_number_length_for_public_header_suffices_example :
    let l = get_packet_number_length_for_public_header 70000 69990 in
    infer_packet_number l 60000 (70000 % epoch_delta l) ≡ 70000
get_packet_number_length_for_public_header_suffices_example =
    get_packet_number_length_for_public_header_suffices 60000 70000 69990 (omega arith)
      (inr (omega arith)) (omega arith) (omega arith) (omega arith)
