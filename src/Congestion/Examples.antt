-- ===== src/Congestion/Examples.antt =====
-- Concrete runs of the parts of congestion control.
use mpquic_latency.Base.{
  ◌≡◌, ℕ, false, List, [], ◌∷◌, ltb, min, max, ◌/◌, ◌+◌, ◌*◌, ◌≤◌, refl, arith,
}
use mpquic_latency.Congestion.HybridSlowStart.{HybridSlowStart, start_receive_round}
use mpquic_latency.Congestion.HybridSlowStart.Detection.{round, smallest, round_detects}
use mpquic_latency.Congestion.Prr.{
  PrrSender, default_tcp_mss, on_packet_sent, on_packet_lost, on_packet_acked, time_until_send,
}
use mpquic_latency.Congestion.Prr.Bound.{send, ack, Recovery, loss, next, Recovery-limits}

abbrev quiet : PrrSender
quiet = record {
  bytes_sent_since_loss = 9;
  bytes_delivered_since_loss = 9;
  ack_count_since_loss = 9;
  bytes_in_flight_before_loss = 9;
}

abbrev acked_once : PrrSender
acked_once = on_packet_acked 1000 (on_packet_sent 1400 (on_packet_lost 20_000 quiet))

recovery : Recovery 20_000 (on_packet_sent 1400 acked_once)
unfolding on_packet_acked on_packet_sent on_packet_lost time_until_send
recovery =
    next
      (next
        (next (loss quiet)
          (send 1400 30_000 20_000 9000 (omega arith) (omega arith) (omega arith) refl))
        (ack 1000 (omega arith) (omega arith)))
      (send 1400 30_000 20_000 9000 (omega arith) (omega arith) (omega arith) refl)

Recovery-limits_example :
    (on_packet_sent 1400 acked_once).bytes_sent_since_loss
    ≤ (on_packet_sent 1400 acked_once).bytes_delivered_since_loss
      + ((on_packet_sent 1400 acked_once).ack_count_since_loss + 1) * default_tcp_mss
Recovery-limits_example = Recovery-limits recovery

abbrev unstarted : HybridSlowStart
unstarted = record {
  end_packet_number = 0;
  last_sent_packet_number = 40;
  started = false;
  current_min_rtt = 0;
  rtt_sample_count = 0;
  hystart_found = false;
}

abbrev later_samples : List ℕ
later_samples =
    70_000_000 ∷ 66_000_000 ∷ 65_000_000 ∷ 68_000_000 ∷ 71_000_000 ∷ 69_000_000 ∷ 70_000_000 ∷ []

round_detects_example :
    (round 50_000_000 20
      (67_000_000 ∷ later_samples)
      (start_receive_round 40 unstarted)).hystart_found
    ≡ ltb
        (50_000_000 + max (min (50_000_000 / 1000 / 8) 16000) 4000 * 1000)
        (smallest 67_000_000 later_samples)
round_detects_example =
    round_detects 50_000_000 20 40 67_000_000 later_samples unstarted refl refl (omega arith) (
      omega arith,
      (omega arith, (omega arith, (omega arith, (omega arith, (omega arith, (omega arith, tt)))))),
    )
