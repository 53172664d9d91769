-- ===== src/Ackhandler/Examples/Sending.antt =====
-- Concrete runs of the sending side.
use mpquic_latency.Base.{
  ℕ, ◌+◌, ◌*◌, ◌≤◌, ◌≡◌, ◌≢◌, refl, sym, ◌∙◌, true, false, List, [], ◌∷◌, none, some, arith, All,
  ◌-◌, ◌==◌, length, not, min,
}
use mpquic_latency.Wire.AckFrame.{
  AckFrame, ClosePathFrame, acks_packet, acks_number, validate_ack_ranges,
}
use mpquic_latency.Wire.Frame.{StopWaitingFrame, ping, close_path}
use mpquic_latency.Ackhandler.Packet.{
  Packet, get_copy_frames, is_dup_dropable, is_retransmittable, get_copy_frames_agrees,
  has_retransmittable_frames, is_frame_retransmittable,
}
use mpquic_latency.Ackhandler.StopWaiting.{
  StopWaitingManager, get_stop_waiting_frame, get_stop_waiting_frame_forced,
}
use mpquic_latency.Ackhandler.StopWaiting
use mpquic_latency.Ackhandler.Sent.State.{
  Environment, SentPacketHandler, new_sent_packet_handler, update_loss_detection_alarm, alarm_time,
}
use mpquic_latency.Ackhandler.Sent.Acked.{skipped_packets_acked, determine_newly_acked_packets}
use mpquic_latency.Ackhandler.Sent.Loss.{
  on_alarm, has_outstanding_retransmittable_packet, on_rto, retransmit_oldest_two_packets,
  remove_packet,
}
use mpquic_latency.Ackhandler.Sent.Ops.{sent_packet, received_ack, largest_in_order_acked}
use mpquic_latency.Ackhandler.Sent.Flight.{Ascends, IsTracked}
use mpquic_latency.Ackhandler.Sent.Inv.{IsValid}
use mpquic_latency.Ackhandler.Sent.Walk.{select}
use mpquic_latency.Ackhandler.Sent.Validated.{determine_newly_acked_packets-select}
use mpquic_latency.Ackhandler.Sent.Settled.{received_ack_settles}
use mpquic_latency.Ackhandler.Sent.Trace.{Reach, start, next, send, ack, timer, Reach-IsValid}
use mpquic_latency.Ackhandler.Sent.Backoff.{
  rto_alarm_bounds, rto_alarm_overflow, on_alarm_backs_off,
}

-- Congestion control with a fixed window and fixed times.
abbrev fixed : Environment Unit
fixed = record {
  on_packet_sent = λ now flight n len retransmittable e. e;
  get_congestion_window = λ e. 40000;
  maybe_exit_slow_start = λ e. e;
  on_packet_acked = λ n len flight e. e;
  on_packet_lost = λ n len flight e. e;
  on_retransmission_timeout = λ retransmitted e. e;
  retransmission_delay = λ e. 0;
  congestion_smoothed_rtt = λ e. 50_000_000;
  smoothed_rtt = λ e. 50_000_000;
  latest_rtt = λ e. 60_000_000;
  update_rtt = λ sent delay rcv now e. e;
  on_ack_callback = λ path n e. e;
  on_rto_callback = none;
}

abbrev probe : ℕ → Packet
probe n = record {
  packet_number = n;
  frames = ping ∷ [];
  length = 1000;
  encryption_level = 3;
  send_time = 7;
}

abbrev first_ack : AckFrame
first_ack = record {
  path_id = 0;
  largest_acked = 4;
  lowest_acked = 1;
  ack_ranges = record { first = 4; last = 4 } ∷ record { first = 1; last = 2 } ∷ [];
  packet_received_time = none;
  delay_time = 0;
}

abbrev fresh : SentPacketHandler Unit
fresh = new_sent_packet_handler fixed tt 1

abbrev sent_two : SentPacketHandler Unit
sent_two = (sent_packet fixed 9 (probe 2) (sent_packet fixed 7 (probe 1) fresh).1).1

reached : Reach fixed tt 1 (on_alarm fixed 90 (received_ack fixed first_ack 1 50 50 50 sent_two).1)
reached =
    next
      (next (next (next start (send 7 (probe 1) (omega arith))) (send 9 (probe 2) (omega arith)))
        (ack first_ack 1 50 50 50))
      (timer 90)

Reach-IsValid_example :
    IsValid (on_alarm fixed 90 (received_ack fixed first_ack 1 50 50 50 sent_two).1)
Reach-IsValid_example = Reach-IsValid fixed reached

abbrev in_flight : List Packet
in_flight = probe 1 ∷ probe 2 ∷ probe 3 ∷ probe 4 ∷ probe 5 ∷ []

in_flight-Ascends : Ascends 0 in_flight
in_flight-Ascends = (omega arith, (omega arith, (omega arith, (omega arith, (omega arith, tt)))))

determine_newly_acked_packets-select_example :
    determine_newly_acked_packets 1 4 first_ack.ack_ranges in_flight
    ≡ some (select (acks_number 1 4 first_ack.ack_ranges) in_flight)
unfolding validate_ack_ranges
determine_newly_acked_packets-select_example =
    determine_newly_acked_packets-select 1 4 first_ack.ack_ranges in_flight
      (omega arith, (omega arith, tt)) refl in_flight-Ascends

abbrev busy : SentPacketHandler Unit
busy = record fresh {
  last_sent_packet_number = 5;
  packet_history = in_flight;
  bytes_in_flight = 5000;
}

sent_before : (n : ℕ) → n ≤ 5 → IsTracked 5 (probe n)
unfolding has_retransmittable_frames is_frame_retransmittable
sent_before n b = (b, omega arith, refl)

busy-IsValid : IsValid busy
unfolding has_retransmittable_frames is_frame_retransmittable new_sent_packet_handler
busy-IsValid = record {
  flight = record {
    ascends = in_flight-Ascends;
    tracked = (
      sent_before 1 (omega arith),
      (
        sent_before 2 (omega arith),
        (
          sent_before 3 (omega arith),
          (sent_before 4 (omega arith), (sent_before 5 (omega arith), tt)),
        ),
      ),
    );
    in_flight = refl;
  };
  acked_sent = omega arith;
}

received_ack_settles_example :
    All
      (λ p. acks_packet first_ack p.packet_number ≡ false)
      (received_ack fixed first_ack 1 50 50 50 busy).1.packet_history
unfolding validate_ack_ranges received_ack largest_in_order_acked new_sent_packet_handler
    skipped_packets_acked determine_newly_acked_packets
received_ack_settles_example =
    received_ack_settles fixed first_ack 1 50 50 50 busy busy-IsValid
      (omega arith, (omega arith, tt)) refl (omega arith) refl

abbrev late : SentPacketHandler Unit
late = record busy { rto_count = 3 }

abbrev very_late : SentPacketHandler Unit
very_late = record busy { rto_count = 35; tlp_count = 2 }

-- Two tail loss probes were sent, and three packets are left.
abbrev probed : SentPacketHandler Unit
probed = record late { tlp_count = 2 }

rto_alarm_bounds_example :
    (t : ℕ) × ((update_loss_detection_alarm fixed probed).alarm ≡ some t)
    × (probed.last_sent_time + 200_000_000 ≤ t)
    × (t ≤ probed.last_sent_time + 60_000_000_000)
unfolding new_sent_packet_handler
rto_alarm_bounds_example = rto_alarm_bounds fixed probed (λ e. ground arith) refl (omega arith)

cons_not_empty : (p : Packet) (ps : List Packet) → p ∷ ps ≢ []
cons_not_empty p ps e = ground arith

left_over : (on_alarm fixed 900 probed).packet_history ≡ probe 3 ∷ probe 4 ∷ probe 5 ∷ []
unfolding on_alarm has_outstanding_retransmittable_packet is_retransmittable on_rto
    retransmit_oldest_two_packets new_sent_packet_handler remove_packet
left_over = refl

on_alarm_backs_off_example :
    (on_alarm fixed 900 probed).alarm
    ≡ some (
        probed.last_sent_time
        + min (2 * (alarm_time fixed probed - probed.last_sent_time)) 60_000_000_000)
unfolding on_alarm has_outstanding_retransmittable_packet is_retransmittable new_sent_packet_handler
on_alarm_backs_off_example =
    on_alarm_backs_off fixed probed 900 refl refl (omega arith) (omega arith) (omega arith) refl
      (λ e. cons_not_empty (probe 3) (probe 4 ∷ probe 5 ∷ []) (sym left_over ∙ e))

rto_alarm_overflow_example :
    (update_loss_detection_alarm fixed very_late).alarm
    ≡ some (very_late.last_sent_time + 200_000_000)
unfolding new_sent_packet_handler
rto_alarm_overflow_example =
    rto_alarm_overflow fixed very_late (λ e. ground arith) refl (omega arith) (omega arith)

abbrev path_closed : ClosePathFrame
path_closed = record { path_id = 1; largest_acked = 4; lowest_acked = 1; ack_ranges = [] }

abbrev closing : Packet
closing = record (probe 1) { frames = close_path path_closed ∷ [] }

abbrev announcing : StopWaitingManager
announcing = record {
  largest_least_unacked_sent = 3;
  next_least_unacked = 5;
  last_stop_waiting_frame =
      some (record { least_unacked = 3; packet_number_len = 0; packet_number = 0 });
}

announcing-IsValid : StopWaiting.IsValid announcing
announcing-IsValid = record { announced = omega arith; last_announced = refl }

get_stop_waiting_frame_forced_example :
    (f : StopWaitingFrame) × ((get_stop_waiting_frame true announcing).0 ≡ some f)
    × (f.least_unacked ≡ 5)
get_stop_waiting_frame_forced_example =
    get_stop_waiting_frame_forced announcing announcing-IsValid (omega arith)

abbrev mixed : Packet
mixed = record (probe 1) { frames = ping ∷ close_path path_closed ∷ [] }

get_copy_frames_agrees_example :
    (is_dup_dropable mixed.frames ≡ (length (get_copy_frames mixed.frames) == length mixed.frames))
    × (is_retransmittable mixed ≡ not (length (get_copy_frames mixed.frames) == 0))
get_copy_frames_agrees_example = get_copy_frames_agrees mixed
