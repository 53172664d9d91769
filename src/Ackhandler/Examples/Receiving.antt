-- ===== src/Ackhandler/Examples/Receiving.antt =====
-- Concrete runs of the receiving side.
use mpquic_latency.Base.{
  none, ℕ, ◌≡◌, refl, true, List, [], ◌∷◌, some, arith, inl, returned, length, ◌==◌, ◌||◌, ◌&&◌,
  ltb, ◌≤◌, ◌<◌,
}
use mpquic_latency.Wire.AckFrame.{AckFrame, acks_packet}
use mpquic_latency.Ackhandler.History
use mpquic_latency.Ackhandler.History.{
  ReceivedPacketHistory, max_tracked_received_ack_ranges, too_many_outstanding_received_ack_ranges,
  delete_up_to, delete_step, merge_prev, new_received_packet_history, PacketInterval, IsDescending,
  contains, insert_range, delete_loop,
}
use mpquic_latency.Ackhandler.History.Calls.{received_packet_effects, delete_up_to_effects}
use mpquic_latency.Ackhandler.Received.{
  ReceivedPacketHandler, new_received_packet_handler, received_packet, set_lower_limit,
  get_close_path_frame, get_ack_frame, ack_sent, after_history, maybe_queue_ack, queue_at_once, arm,
  last_ack_wants_ack,
}
use mpquic_latency.Ackhandler.Received.Inv.{IsValid}
use mpquic_latency.Ackhandler.Received.Ack.{IsDue}
use mpquic_latency.Ackhandler.Received.ClosePath.{Closes, get_close_path_frame-Closes}
use mpquic_latency.Ackhandler.Received.Trace.{
  Call, packet, stop_waiting, receive, limit, Run, start, next, to_be_acked, Run-IsValid, Run-acks,
}

abbrev calls : List Call
calls = packet 5 true 10 300 ∷ stop_waiting 1 ∷ packet 1 true 10 200 ∷ packet 3 true 10 100 ∷ []

abbrev third : ReceivedPacketHandler
third =
    (received_packet 1 true 10 200
      (received_packet 3 true 10 100 (new_received_packet_handler 39)).1).1

abbrev fourth : ReceivedPacketHandler
fourth = (received_packet 5 true 10 300 (set_lower_limit 1 third)).1

run : Run 39 calls fourth
unfolding received_packet new_received_packet_handler after_history maybe_queue_ack queue_at_once
    arm set_lower_limit delete_up_to History.received_packet insert_range merge_prev delete_loop
    delete_step new_received_packet_history last_ack_wants_ack
run =
    next
      (next
        (next (next start (receive 3 true 10 100 (omega arith) refl))
          (receive 1 true 10 200 (omega arith) refl))
        (limit 1 (omega arith)))
      (receive 5 true 10 300 (omega arith) refl)

due : IsDue 300 fourth
unfolding received_packet new_received_packet_handler after_history maybe_queue_ack queue_at_once
    arm set_lower_limit delete_up_to History.received_packet insert_range merge_prev delete_loop
    delete_step new_received_packet_history last_ack_wants_ack
due = inl refl

Run-IsValid_example : IsValid fourth
Run-IsValid_example = Run-IsValid run

Run-acks_example :
    (frame : AckFrame) × (get_ack_frame 300 fourth ≡ returned (some frame, ack_sent frame fourth))
    × ((x : ℕ) → acks_packet frame x ≡ to_be_acked x calls)
Run-acks_example = Run-acks 300 run due

abbrev two_intervals : List PacketInterval
two_intervals = record { start = 7; end = 9 } ∷ record { start = 2; end = 4 } ∷ []

in_order : IsDescending two_intervals
in_order = (omega arith, omega arith, omega arith, (omega arith, omega arith, tt, tt))

abbrev history : ReceivedPacketHistory
history = record { ranges = two_intervals; lowest_in_received_packet_numbers = 2 }

received_packet_effects_example :
    (length two_intervals < max_tracked_received_ack_ranges
      → ((History.received_packet 5 history).0 ≡ none)
        × IsDescending (History.received_packet 5 history).1.ranges
        × ((x : ℕ)
            → contains x (History.received_packet 5 history).1.ranges
              ≡ (x == 5 || contains x two_intervals)))
    × (max_tracked_received_ack_ranges ≤ length two_intervals
        → History.received_packet 5 history
          ≡ (some too_many_outstanding_received_ack_ranges, history))
received_packet_effects_example = received_packet_effects 5 history (omega arith) in_order

delete_up_to_effects_example :
    IsDescending (delete_up_to 3 history).ranges
    × ((x : ℕ) → contains x (delete_up_to 3 history).ranges ≡ (contains x two_intervals && ltb 3 x))
    × (2 ≤ (delete_up_to 3 history).lowest_in_received_packet_numbers)
    × (3 < (delete_up_to 3 history).lowest_in_received_packet_numbers)
delete_up_to_effects_example = delete_up_to_effects 3 history (omega arith) in_order

get_close_path_frame-Closes_example : Closes fourth (get_close_path_frame fourth)
get_close_path_frame-Closes_example = get_close_path_frame-Closes fourth (Run-IsValid run)
