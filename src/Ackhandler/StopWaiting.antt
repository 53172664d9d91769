-- ===== src/Ackhandler/StopWaiting.antt =====
-- ackhandler/stop_waiting_manager.go: when the sender tells its peer which packets it no longer waits
-- for.
use mpquic_latency.Base.{
  ℕ, ◌+◌, ◌<◌, ◌≤◌, ◌^◌, ◌≡◌, refl, Bool, true, ◌&&◌, ltb, leb, is_none, if◌then◌else◌, Option,
  none, some, u64, arith, Bool-cases, inl, inr,
}
use mpquic_latency.Wire.Frame.{StopWaitingFrame}

pub record StopWaitingManager : Type 0 where
  pub largest_least_unacked_sent : ℕ
  pub next_least_unacked : ℕ
  pub last_stop_waiting_frame : Option StopWaitingFrame

unfoldable pub new_stop_waiting_manager : StopWaitingManager
new_stop_waiting_manager = record {
  largest_least_unacked_sent = 0;
  next_least_unacked = 0;
  last_stop_waiting_frame = none;
}

abbrev pub frame_for : ℕ → StopWaitingFrame
frame_for n = record { least_unacked = n; packet_number_len = 0; packet_number = 0 }

unfoldable pub get_stop_waiting_frame :
    Bool → StopWaitingManager → Option StopWaitingFrame × StopWaitingManager
get_stop_waiting_frame force s =
    if leb s.next_least_unacked s.largest_least_unacked_sent
    then (if force
        then (if is_none s.last_stop_waiting_frame && ltb 0 s.largest_least_unacked_sent
            then (
              some (frame_for s.next_least_unacked),
              record s { last_stop_waiting_frame = some (frame_for s.next_least_unacked) },
            )
            else (s.last_stop_waiting_frame, s))
        else (none, s))
    else (
      some (frame_for s.next_least_unacked),
      record s {
        largest_least_unacked_sent = s.next_least_unacked;
        last_stop_waiting_frame = some (frame_for s.next_least_unacked);
      },
    )

-- ReceivedAck, of which only LargestAcked is read.
unfoldable pub received_ack : ℕ → StopWaitingManager → StopWaitingManager
received_ack largest_acked s =
    if leb s.next_least_unacked largest_acked
    then record s { next_least_unacked = u64 (largest_acked + 1) }
    else s

unfoldable pub queued_retransmission_for_packet_number : ℕ → StopWaitingManager → StopWaitingManager
queued_retransmission_for_packet_number p s =
    if leb s.next_least_unacked p then record s { next_least_unacked = u64 (p + 1) } else s

-- The last frame that was built, if any, announced `n`.
abbrev pub Announced : ℕ → Option StopWaitingFrame → Type 0
Announced n none = Unit
Announced n (some f) = f.least_unacked ≡ n

-- What was announced is the number that is due, or an earlier one.
pub record IsValid (s : StopWaitingManager) : Type 0 where
  pub announced : s.largest_least_unacked_sent ≤ s.next_least_unacked
  pub last_announced : Announced s.largest_least_unacked_sent s.last_stop_waiting_frame

forced :
    (s : StopWaitingManager) (last : Option StopWaitingFrame)
    → s.last_stop_waiting_frame ≡ last
    → s.largest_least_unacked_sent ≤ s.next_least_unacked
    → 0 < s.next_least_unacked
    → Announced s.largest_least_unacked_sent last
    → (f : StopWaitingFrame) × ((get_stop_waiting_frame true s).0 ≡ some f)
      × (f.least_unacked ≡ s.next_least_unacked)
unfolding get_stop_waiting_frame
forced s none e a p h = (frame_for s.next_least_unacked, ground arith, refl)
forced s (some f) e a p h =
    elim (Bool-cases (leb s.next_least_unacked s.largest_least_unacked_sent)) [
      | inl q ↦ (f, rw q (ground arith), ground arith)
      | inr q ↦ (frame_for s.next_least_unacked, rw q, refl)
    ]

-- Once a packet number is due to be announced, a forced call returns a frame, and the frame announces
-- that number, also where the frame is an old one.
pub get_stop_waiting_frame_forced :
    (s : StopWaitingManager)
    → IsValid s
    → 0 < s.next_least_unacked
    → (f : StopWaitingFrame) × ((get_stop_waiting_frame true s).0 ≡ some f)
      × (f.least_unacked ≡ s.next_least_unacked)
get_stop_waiting_frame_forced s v p =
    forced s s.last_stop_waiting_frame refl v.announced p v.last_announced

pub get_stop_waiting_frame-IsValid :
    (force : Bool) (s : StopWaitingManager) → IsValid s → IsValid (get_stop_waiting_frame force s).1
unfolding get_stop_waiting_frame
get_stop_waiting_frame-IsValid force s v = ground arith

pub received_ack-IsValid :
    (n : ℕ) (s : StopWaitingManager) → n + 1 < 2 ^ 64 → IsValid s → IsValid (received_ack n s)
unfolding received_ack
received_ack-IsValid n s b v = ground arith

pub queued_retransmission-IsValid :
    (n : ℕ) (s : StopWaitingManager)
    → n + 1 < 2 ^ 64
    → IsValid s
    → IsValid (queued_retransmission_for_packet_number n s)
unfolding queued_retransmission_for_packet_number
queued_retransmission-IsValid n s b v = ground arith
