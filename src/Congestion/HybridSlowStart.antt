-- ===== src/Congestion/HybridSlowStart.antt =====
-- congestion/hybrid_slow_start.go: leaving slow start when the delay grows. Durations are not
-- negative, and are nanoseconds.
pub mod Detection
use mpquic_latency.Base.{
  ℕ, ◌+◌, ◌*◌, ◌/◌, ◌%◌, ◌^◌, Bool, true, false, ◌||◌, ◌&&◌, ltb, leb, ◌==◌, if◌then◌else◌, min,
  max,
}

pub record HybridSlowStart : Type 0 where
  pub end_packet_number : ℕ
  pub last_sent_packet_number : ℕ
  pub started : Bool
  pub current_min_rtt : ℕ
  pub rtt_sample_count : ℕ
  pub hystart_found : Bool

abbrev pub hybrid_start_low_window : ℕ
hybrid_start_low_window = 16

abbrev pub hybrid_start_min_samples : ℕ
hybrid_start_min_samples = 8

abbrev pub hybrid_start_delay_min_threshold_us : ℕ
hybrid_start_delay_min_threshold_us = 4000

abbrev pub hybrid_start_delay_max_threshold_us : ℕ
hybrid_start_delay_max_threshold_us = 16000

unfoldable pub start_receive_round : ℕ → HybridSlowStart → HybridSlowStart
start_receive_round last_sent s = record s {
  end_packet_number = last_sent;
  current_min_rtt = 0;
  rtt_sample_count = 0;
  started = true;
}

unfoldable pub is_end_of_round : ℕ → HybridSlowStart → Bool
is_end_of_round ack s = ltb s.end_packet_number ack

-- `minRTTincreaseThreshold`
unfoldable pub increase_threshold : ℕ → ℕ
increase_threshold min_rtt =
    max (min (min_rtt / 1000 / 8) hybrid_start_delay_max_threshold_us)
      hybrid_start_delay_min_threshold_us
    * 1000

-- The part of ShouldExitSlowStart behind its two first tests: the new sample.
unfoldable pub sample : ℕ → ℕ → HybridSlowStart → HybridSlowStart
unfolding increase_threshold
sample latest_rtt min_rtt s =
    let count = (s.rtt_sample_count + 1) % 2 ^ 32 in
    let current =
      if leb count hybrid_start_min_samples
        && (s.current_min_rtt == 0 || ltb latest_rtt s.current_min_rtt)
      then latest_rtt
      else s.current_min_rtt in
    record s {
      rtt_sample_count = count;
      current_min_rtt = current;
      hystart_found =
          s.hystart_found
          || (count == hybrid_start_min_samples
              && ltb (min_rtt + increase_threshold min_rtt) current);
    }

unfoldable pub should_exit_slow_start : ℕ → ℕ → ℕ → HybridSlowStart → Bool × HybridSlowStart
unfolding start_receive_round sample
should_exit_slow_start latest_rtt min_rtt congestion_window s =
    let begun = if s.started then s else start_receive_round s.last_sent_packet_number s in
    if begun.hystart_found then (true, begun) else (
      leb hybrid_start_low_window congestion_window
          && (sample latest_rtt min_rtt begun).hystart_found,
      sample latest_rtt min_rtt begun,
    )

unfoldable pub sent : ℕ → HybridSlowStart → HybridSlowStart
sent packet_number s = record s { last_sent_packet_number = packet_number }

unfoldable pub acked : ℕ → HybridSlowStart → HybridSlowStart
unfolding is_end_of_round
acked acked_packet_number s =
    if is_end_of_round acked_packet_number s then record s { started = false } else s

unfoldable pub restart : HybridSlowStart → HybridSlowStart
restart s = record s { started = false; hystart_found = false }
