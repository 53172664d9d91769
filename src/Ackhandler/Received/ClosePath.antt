-- ===== src/Ackhandler/Received/ClosePath.antt =====
-- The CLOSE_PATH frame that the receiving side builds, and when it cannot.
use mpquic_latency.Base.{
  ℕ, ◌<◌, true, arith, ◌≡◌, refl, List, [], ◌∷◌, map, Outcome, returned, panicked,
}
use mpquic_latency.Wire.AckFrame.{ClosePathFrame, acks_packet_close_path}
use mpquic_latency.Ackhandler.History.{PacketInterval, contains, IsDescending, get_ack_ranges}
use mpquic_latency.Ackhandler.Received.{
  ReceivedPacketHandler, get_close_path_frame, reported, lowest_first,
}
use mpquic_latency.Ackhandler.Received.Inv.{Top, IsValid}
use mpquic_latency.Ackhandler.Received.Ack.{
  to_range, lowest, lowest_first-lowest, acks_number-contains,
}

-- The two results of GetClosePathFrame.
pub data Closes (h : ReceivedPacketHandler) : Outcome ClosePathFrame → Type 0 where
  nothing_received : h.largest_observed ≡ 0 → Closes h panicked
  reports :
      (f : ClosePathFrame)
      → 0 < h.largest_observed
      → f.largest_acked ≡ h.largest_observed
      → ((x : ℕ) → acks_packet_close_path f x ≡ contains x h.packet_history.ranges)
      → Closes h (returned f)

frame_of : ReceivedPacketHandler → PacketInterval → List PacketInterval → ClosePathFrame
frame_of h r l = record {
  path_id = 0;
  largest_acked = h.largest_observed;
  lowest_acked = lowest r l;
  ack_ranges = reported (to_range r ∷ map to_range l);
}

get_close_path_frame_ranges :
    (h : ReceivedPacketHandler) (l : List PacketInterval)
    → h.packet_history.ranges ≡ l
    → IsDescending l
    → Top h.largest_observed l
    → ((x : ℕ) → contains x l ≡ true → h.lower_limit < x)
    → Closes h (get_close_path_frame h)
unfolding get_close_path_frame get_ack_ranges lowest_first acks_packet_close_path frame_of
get_close_path_frame_ranges h [] e d t p = rw e (nothing_received t)
get_close_path_frame_ranges h (r ∷ l) e d t p =
    rw (e, lowest_first-lowest r l)
      (reports (frame_of h r l) (ground (arith, p r.end)) refl
        (λ x. rw (← t) (acks_number-contains x r l d)))

-- GetClosePathFrame panics exactly where the path received no packet, and else returns a frame that reports
-- the largest packet number and acknowledges exactly the numbers that the history holds.
pub get_close_path_frame-Closes :
    (h : ReceivedPacketHandler) → IsValid h → Closes h (get_close_path_frame h)
get_close_path_frame-Closes h v =
    get_close_path_frame_ranges h h.packet_history.ranges refl v.ordered v.top v.limited
