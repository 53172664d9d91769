-- ===== src/Ackhandler/History/Calls.antt =====
-- The calls of the received packet history, as a set of packet numbers.
use mpquic_latency.Base.{
  ℕ, ◌+◌, ◌<◌, ◌≤◌, ◌^◌, ◌≡◌, refl, true, false, ◌&&◌, ◌||◌, ltb, leb, ◌==◌, length, none, some,
  arith,
}
use mpquic_latency.Ackhandler.History.{
  ReceivedPacketHistory, too_many_outstanding_received_ack_ranges, max_tracked_received_ack_ranges,
  received_packet, delete_up_to, contains, IsDescending,
}
use mpquic_latency.Ackhandler.History.Insert.{contains-insert_range, insert_range-IsDescending}
use mpquic_latency.Ackhandler.History.Delete.{contains-delete_loop, delete_loop-IsDescending}

-- Below the limit of intervals, ReceivedPacket registers the packet number and nothing else, and
-- keeps the intervals in order; at the limit, it returns the error and changes nothing.
pub received_packet_effects :
    (p : ℕ) (h : ReceivedPacketHistory)
    → p + 1 < 2 ^ 64
    → IsDescending h.ranges
    → (length h.ranges < max_tracked_received_ack_ranges
        → ((received_packet p h).0 ≡ none)
          × IsDescending (received_packet p h).1.ranges
          × ((x : ℕ) → contains x (received_packet p h).1.ranges ≡ (x == p || contains x h.ranges)))
      × (max_tracked_received_ack_ranges ≤ length h.ranges
          → received_packet p h ≡ (some too_many_outstanding_received_ack_ranges, h))
unfolding received_packet
received_packet_effects p h b d = (
  λ few.
      let e : leb max_tracked_received_ack_ranges (length h.ranges) ≡ false = ground arith in
      rw e (
        refl,
        insert_range-IsDescending p h.ranges b d,
        λ x. contains-insert_range x p h.ranges b d,
      ),
  λ many.
      let e : leb max_tracked_received_ack_ranges (length h.ranges) ≡ true = ground arith in
      rw e refl,
)

-- DeleteUpTo keeps exactly the packet numbers above its bound, in intervals that are in order, and
-- its lower limit never falls.
pub delete_up_to_effects :
    (p : ℕ) (h : ReceivedPacketHistory)
    → p + 1 < 2 ^ 64
    → IsDescending h.ranges
    → IsDescending (delete_up_to p h).ranges
      × ((x : ℕ) → contains x (delete_up_to p h).ranges ≡ (contains x h.ranges && ltb p x))
      × (h.lowest_in_received_packet_numbers ≤ (delete_up_to p h).lowest_in_received_packet_numbers)
      × (p < (delete_up_to p h).lowest_in_received_packet_numbers)
unfolding delete_up_to
delete_up_to_effects p h b d = (
  delete_loop-IsDescending p h.ranges b d,
  λ x. contains-delete_loop x p h.ranges b d,
  omega arith,
  omega arith,
)
