-- ===== src/Ackhandler/Received.antt =====
-- ackhandler/received_packet_handler.go: the receiving side of a path, which decides when a packet is
-- acknowledged and builds the frame. `now` is what time.Now() returns, and a time is `none` where
-- IsZero() holds.
pub mod Inv
pub mod Keeps
pub mod Ack
pub mod Trace
pub mod ClosePath
use mpquic_latency.Base.{
  ℕ, ◌+◌, Bool, true, false, ◌&&◌, ◌||◌, not, List, [], ◌∷◌, ltb, leb, ◌==◌, is_none, if◌then◌else◌,
  Option, none, some, u64, Outcome, returned, panicked,
}
use mpquic_latency.Wire.AckFrame.{AckRange, AckFrame, ClosePathFrame}
use mpquic_latency.Ackhandler.History
use mpquic_latency.Ackhandler.History.{
  HistoryError, ReceivedPacketHistory, new_received_packet_history, delete_up_to, get_ack_ranges,
  get_highest_ack_range,
}

pub record ReceivedPacketHandler : Type 0 where
  pub largest_observed : ℕ
  pub lower_limit : ℕ
  pub largest_observed_received_time : Option ℕ
  pub packet_history : ReceivedPacketHistory
  pub ack_send_delay : ℕ
  pub packets_received_since_last_ack : ℕ
  pub retransmittable_packets_received_since_last_ack : ℕ
  pub ack_queued : Bool
  pub ack_alarm : Option ℕ
  pub last_ack : Option AckFrame
  pub version : ℕ
  pub packets : ℕ
  pub recv_stream_frame_bytes : ℕ

pub data HandlerError : Type 0 where
  invalid_packet_number : HandlerError
  history_error : HistoryError → HandlerError

-- protocol.AckSendDelay is 25 ms, in nanoseconds.
abbrev pub ack_send_delay_default : ℕ
ack_send_delay_default = 25_000_000

abbrev pub version39 : ℕ
version39 = 39

abbrev pub max_packets_received_before_ack_send : ℕ
max_packets_received_before_ack_send = 20

abbrev pub retransmittable_packets_before_ack : ℕ
retransmittable_packets_before_ack = 2

unfoldable pub new_received_packet_handler : ℕ → ReceivedPacketHandler
unfolding new_received_packet_history
new_received_packet_handler version = record {
  largest_observed = 0;
  lower_limit = 0;
  largest_observed_received_time = none;
  packet_history = new_received_packet_history;
  ack_send_delay = ack_send_delay_default;
  packets_received_since_last_ack = 0;
  retransmittable_packets_received_since_last_ack = 0;
  ack_queued = false;
  ack_alarm = none;
  last_ack = none;
  version = version;
  packets = 0;
  recv_stream_frame_bytes = 0;
}

unfoldable pub get_statistics : ReceivedPacketHandler → ℕ × ℕ
get_statistics h = (h.packets, h.recv_stream_frame_bytes)

-- The tests of maybeQueueAck that look at the last ACK: a number that it reported missing, and a new
-- missing range above it.
unfoldable pub last_ack_wants_ack : Option AckFrame → ℕ → ReceivedPacketHistory → Bool
last_ack_wants_ack none packet_number history = false
last_ack_wants_ack (some ack) packet_number history =
    ltb packet_number ack.largest_acked
    || ltb ack.largest_acked (get_highest_ack_range history).first

-- Whether `ackQueued` is set when maybeQueueAck reaches the delayed ACKs, by the counters after they
-- were incremented.
unfoldable pub queue_at_once : ℕ → ReceivedPacketHandler → Bool
unfolding last_ack_wants_ack
queue_at_once packet_number h =
    h.ack_queued
    || is_none h.last_ack
    || (ltb h.version version39
        && leb max_packets_received_before_ack_send h.packets_received_since_last_ack)
    || last_ack_wants_ack h.last_ack packet_number h.packet_history

-- `if h.ackAlarm.IsZero() { h.ackAlarm = now + delay }`
unfoldable pub arm : Option ℕ → ℕ → Option ℕ
arm none deadline = some deadline
arm (some t) deadline = some t

unfoldable pub maybe_queue_ack : ℕ → Bool → ℕ → ReceivedPacketHandler → ReceivedPacketHandler
unfolding queue_at_once arm
maybe_queue_ack packet_number should_instigate_ack now h =
    let retransmittable =
      if should_instigate_ack
      then h.retransmittable_packets_received_since_last_ack + 1
      else h.retransmittable_packets_received_since_last_ack in
    let counted = record h {
      packets_received_since_last_ack = h.packets_received_since_last_ack + 1;
      retransmittable_packets_received_since_last_ack = retransmittable;
    } in
    if queue_at_once packet_number counted
    then record counted { ack_queued = true; ack_alarm = none }
    else if should_instigate_ack
    then (if leb retransmittable_packets_before_ack retransmittable
        then record counted { ack_queued = true; ack_alarm = none }
        else record counted { ack_alarm = arm h.ack_alarm (now + h.ack_send_delay) })
    else counted

-- The rest of ReceivedPacket, behind the packet history's answer.
unfoldable pub after_history :
    ℕ
    → Bool
    → ℕ
    → ReceivedPacketHandler
    → Option HistoryError × ReceivedPacketHistory
    → Option HandlerError × ReceivedPacketHandler
after_history packet_number should_instigate_ack now h (some e, history) =
    (some (history_error e), record h { packet_history = history })
after_history packet_number should_instigate_ack now h (none, history) = (
  none,
  maybe_queue_ack packet_number should_instigate_ack now (record h { packet_history = history }),
)

-- ReceivedPacket: the error, if any, and the new state.
unfoldable pub received_packet :
    ℕ → Bool → ℕ → ℕ → ReceivedPacketHandler → Option HandlerError × ReceivedPacketHandler
unfolding after_history
received_packet packet_number should_instigate_ack payload_length now h =
    if packet_number == 0
    then (some invalid_packet_number, h)
    else let counted = record h {
      packets = u64 (h.packets + 1);
      recv_stream_frame_bytes = u64 (h.recv_stream_frame_bytes + payload_length);
    } in
      let seen =
        if ltb h.largest_observed packet_number
        then record counted {
          largest_observed = packet_number;
          largest_observed_received_time = some now;
        }
        else counted in
      if leb packet_number h.lower_limit
      then (none, seen)
      else after_history packet_number should_instigate_ack now seen
          (History.received_packet packet_number h.packet_history)

unfoldable pub set_lower_limit : ℕ → ReceivedPacketHandler → ReceivedPacketHandler
set_lower_limit p h = record h { lower_limit = p; packet_history = delete_up_to p h.packet_history }

-- `ackRanges[len(ackRanges)-1].First`, which panics on an empty slice.
unfoldable pub lowest_first : List AckRange → Option ℕ
lowest_first [] = none
lowest_first (r ∷ []) = some r.first
lowest_first (r ∷ s ∷ rest) = lowest_first (s ∷ rest)

-- `if len(ackRanges) > 1 { ack.AckRanges = ackRanges }`
unfoldable pub reported : List AckRange → List AckRange
reported [] = []
reported (r ∷ []) = []
reported (r ∷ s ∷ rest) = r ∷ s ∷ rest

-- `h.ackAlarm.IsZero() || h.ackAlarm.After(now)`
unfoldable pub alarm_pending : Option ℕ → ℕ → Bool
alarm_pending none now = true
alarm_pending (some t) now = ltb now t

unfoldable pub build_ack : ReceivedPacketHandler → List AckRange → ℕ → AckFrame
unfolding reported
build_ack h ranges lowest = record {
  path_id = 0;
  largest_acked = h.largest_observed;
  lowest_acked = lowest;
  ack_ranges = reported ranges;
  packet_received_time = h.largest_observed_received_time;
  delay_time = 0;
}

unfoldable pub ack_sent : AckFrame → ReceivedPacketHandler → ReceivedPacketHandler
ack_sent ack h = record h {
  last_ack = some ack;
  ack_alarm = none;
  ack_queued = false;
  packets_received_since_last_ack = 0;
  retransmittable_packets_received_since_last_ack = 0;
}

unfoldable pub get_ack_frame :
    ℕ → ReceivedPacketHandler → Outcome (Option AckFrame × ReceivedPacketHandler)
unfolding lowest_first alarm_pending build_ack ack_sent
get_ack_frame now h =
    if not h.ack_queued && alarm_pending h.ack_alarm now
    then returned (none, h)
    else elim (lowest_first (get_ack_ranges h.packet_history)) [
      | none ↦ panicked
      | some lowest ↦
          let ack = build_ack h (get_ack_ranges h.packet_history) lowest in
          returned (some ack, ack_sent ack h)
    ]

unfoldable pub get_close_path_frame : ReceivedPacketHandler → Outcome ClosePathFrame
unfolding lowest_first reported
get_close_path_frame h = elim (lowest_first (get_ack_ranges h.packet_history)) [
  | none ↦ panicked
  | some lowest ↦ returned (record {
    path_id = 0;
    largest_acked = h.largest_observed;
    lowest_acked = lowest;
    ack_ranges = reported (get_ack_ranges h.packet_history);
  })
]

unfoldable pub get_alarm_timeout : ReceivedPacketHandler → Option ℕ
get_alarm_timeout h = h.ack_alarm
