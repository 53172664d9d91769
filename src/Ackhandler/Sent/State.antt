-- ===== src/Ackhandler/Sent/State.antt =====
-- ackhandler/sent_packet_handler.go: the state, the interface to congestion control and RTT
-- estimation, and the times of the alarm. Times and durations are nanoseconds; durations are far
-- below 2 ^ 62, and only the shift of the RTO is written with int64's wrap-around.
use mpquic_latency.Base
use mpquic_latency.Base.{
  ℕ, ◌+◌, ◌*◌, ◌/◌, ◌^◌, ◌%◌, Bool, true, false, ◌&&◌, ◌||◌, not, List, [], ◌∷◌, ltb, leb, ◌==◌,
  max, if◌then◌else◌, Option, none, some, u64, sub64, ℤ, pos, negsuc, ltb_ℤ, signed64, any, is_none,
}
use mpquic_latency.Ackhandler.Packet.{Packet}
use mpquic_latency.Ackhandler.StopWaiting.{StopWaitingManager, new_stop_waiting_manager}

-- congestion.SendAlgorithm, congestion.RTTStats and the two callbacks, over a state of their own.
-- onAckCallback is the scheduler's, and may change other paths.
pub record Environment (E : Type 0) : Type 0 where
  pub on_packet_sent : ℕ → ℕ → ℕ → ℕ → Bool → E → E
  pub get_congestion_window : E → ℕ
  pub maybe_exit_slow_start : E → E
  pub on_packet_acked : ℕ → ℕ → ℕ → E → E
  pub on_packet_lost : ℕ → ℕ → ℕ → E → E
  pub on_retransmission_timeout : Bool → E → E
  pub retransmission_delay : E → ℕ
  pub congestion_smoothed_rtt : E → ℕ
  pub smoothed_rtt : E → ℕ
  pub latest_rtt : E → ℕ
  pub update_rtt : ℕ → ℕ → ℕ → ℕ → E → E
  pub on_ack_callback : ℕ → ℕ → E → E
  pub on_rto_callback : Option (ℕ → E → Bool × E)

pub record SentPacketHandler (E : Type 0) : Type 0 where
  pub last_sent_packet_number : ℕ
  pub skipped_packets : List ℕ
  pub num_non_retransmittable_packets : ℕ
  pub largest_acked : ℕ
  pub largest_received_packet_with_ack : ℕ
  pub packet_history : List Packet
  pub stop_waiting_manager : StopWaitingManager
  pub retransmission_queue : List Packet
  pub bytes_in_flight : ℕ
  pub env : E
  pub rto_count : ℕ
  pub tlp_count : ℕ
  pub loss_time : Option ℕ
  pub last_sent_time : ℕ
  pub alarm : Option ℕ
  pub path_id : ℕ
  pub packets : ℕ
  pub retransmissions : ℕ
  pub losses : ℕ
  pub sent_stream_frame_bytes : ℕ

pub data SentError : Type 0 where
  duplicate_or_out_of_order_ack too_many_tracked_sent_packets ack_for_skipped_packet : SentError
  ack_for_unsent_packet packet_number_not_increasing would_have_acked_wrong_packet : SentError

abbrev pub default_rto_timeout : ℕ
default_rto_timeout = 500_000_000

abbrev pub min_rto_timeout : ℕ
min_rto_timeout = 200_000_000

abbrev pub max_rto_timeout : ℕ
max_rto_timeout = 60_000_000_000

abbrev pub max_tail_loss_probes : ℕ
max_tail_loss_probes = 2

abbrev pub min_retransmission_time : ℕ
min_retransmission_time = 200_000_000

abbrev pub min_tail_loss_probe_timeout : ℕ
min_tail_loss_probe_timeout = 10_000_000

abbrev pub max_tracked_sent_packets : ℕ
max_tracked_sent_packets = 5000

abbrev pub max_tracked_skipped_packets : ℕ
max_tracked_skipped_packets = 10

abbrev pub max_non_retransmittable_packets : ℕ
max_non_retransmittable_packets = 19

abbrev pub min_ℤ : ℤ → ℤ → ℤ
min_ℤ a b = if ltb_ℤ a b then a else b

-- utils.MaxDuration of an int64 and a duration that is not negative.
abbrev pub max_duration : ℤ → ℕ → ℕ
max_duration (pos a) b = max a b
max_duration (negsuc a) b = b

module _ {E : Type 0} (c : Environment E) where
  unfoldable pub new_sent_packet_handler : E → ℕ → SentPacketHandler E
  unfolding new_stop_waiting_manager
  new_sent_packet_handler env path_id = record {
    last_sent_packet_number = 0;
    skipped_packets = [];
    num_non_retransmittable_packets = 0;
    largest_acked = 0;
    largest_received_packet_with_ack = 0;
    packet_history = [];
    stop_waiting_manager = new_stop_waiting_manager;
    retransmission_queue = [];
    bytes_in_flight = 0;
    env = env;
    rto_count = 0;
    tlp_count = 0;
    loss_time = none;
    last_sent_time = 0;
    alarm = none;
    path_id = path_id;
    packets = 0;
    retransmissions = 0;
    losses = 0;
    sent_stream_frame_bytes = 0;
  }

  -- `rto << rtoCount` is an int64, and turns negative where it overflows.
  unfoldable pub compute_rto_timeout : SentPacketHandler E → ℤ
  compute_rto_timeout h =
      let delay = c.retransmission_delay h.env in
      let rto = max (if delay == 0 then default_rto_timeout else delay) min_rto_timeout in
      min_ℤ (signed64 (u64 (rto * 2 ^ h.rto_count))) (pos max_rto_timeout)

  unfoldable pub has_multiple_outstanding_retransmittable_packets : List Packet → Bool
  has_multiple_outstanding_retransmittable_packets [] = false
  has_multiple_outstanding_retransmittable_packets (p ∷ []) = false
  has_multiple_outstanding_retransmittable_packets (p ∷ q ∷ rest) = true

  unfoldable pub compute_tlp_timeout : SentPacketHandler E → ℕ
  unfolding has_multiple_outstanding_retransmittable_packets
  compute_tlp_timeout h =
      let rtt = c.congestion_smoothed_rtt h.env in
      if has_multiple_outstanding_retransmittable_packets h.packet_history
      then max (2 * rtt) (rtt * 3 / 2 + min_retransmission_time / 2)
      else max (2 * rtt) min_tail_loss_probe_timeout

  -- The alarm while packets are outstanding.
  unfoldable pub alarm_time : SentPacketHandler E → ℕ
  unfolding compute_tlp_timeout compute_rto_timeout
  alarm_time h = elim h.loss_time [
    | some t ↦ t
    | none ↦
        if not (c.smoothed_rtt h.env == 0) && ltb h.tlp_count max_tail_loss_probes
        then h.last_sent_time + compute_tlp_timeout h
        else h.last_sent_time + max_duration (compute_rto_timeout h) min_retransmission_time
  ]

  unfoldable pub update_loss_detection_alarm : SentPacketHandler E → SentPacketHandler E
  unfolding alarm_time
  update_loss_detection_alarm h =
      if Base.length h.packet_history == 0
      then record h { alarm = none }
      else record h { alarm = some (alarm_time h) }
