-- ===== src/Ackhandler/Received/Keeps.antt =====
-- Every call on the receiving side keeps its invariant.
use mpquic_latency.Base.{
  ℕ, ◌+◌, ◌<◌, ◌≤◌, ◌^◌, ◌≡◌, Bool, true, List, leb, if◌then◌else◌, none, arith, max, Bool-cases,
  inl, inr, leb→le,
}
use mpquic_latency.Ackhandler.History.{
  PacketInterval, insert_range, contains, IsDescending, delete_up_to,
}
use mpquic_latency.Ackhandler.History.Insert.{insert_range-IsDescending, contains-insert_range}
use mpquic_latency.Ackhandler.History.Delete.{delete_loop-IsDescending, contains-delete_loop}
use mpquic_latency.Ackhandler.Received.{ReceivedPacketHandler, received_packet, set_lower_limit}
use mpquic_latency.Ackhandler.Received.Inv.{
  Top, IsValid, insert_range-Top, delete_loop-Top, received_packet_effect,
}

-- What inserting `n` above the limit keeps of the intervals.
record Ranges (largest limit : ℕ) (l : List PacketInterval) : Type 0 where
  ordered : IsDescending l
  top : Top largest l
  limited : (x : ℕ) → contains x l ≡ true → limit < x

insert_range-Ranges :
    (n largest limit : ℕ) (l : List PacketInterval)
    → n + 1 < 2 ^ 64
    → limit < n
    → Ranges largest limit l
    → Ranges (max largest n) limit (insert_range n l)
insert_range-Ranges n largest limit l b a r = record {
  ordered = insert_range-IsDescending n l b r.ordered;
  top = insert_range-Top largest n l b r.ordered r.top;
  limited = λ x h. ground (arith, contains-insert_range x n l b r.ordered, r.limited x);
}

received-Ranges :
    (n largest limit : ℕ) (l : List PacketInterval)
    → n + 1 < 2 ^ 64
    → limit ≤ largest
    → Ranges largest limit l
    → Ranges (max largest n) limit (if leb n limit then l else insert_range n l)
received-Ranges n largest limit l b a r = elim (Bool-cases (leb n limit)) [
  | inl e ↦ let same : max largest n ≡ largest = omega (arith, leb→le n limit e) in rw (e, same) r
  | inr e ↦ rw e (insert_range-Ranges n largest limit l b (ground arith) r)
]

-- A call that returns no error keeps the invariant.
pub received_packet-IsValid :
    (n : ℕ) (s : Bool) (len now : ℕ) (h : ReceivedPacketHandler)
    → n + 1 < 2 ^ 64
    → (received_packet n s len now h).0 ≡ none
    → IsValid h
    → IsValid (received_packet n s len now h).1
received_packet-IsValid n s len now h b e v =
    let (pos, largest, lower, ranges) = received_packet_effect n s len now h e in
    let old : Ranges h.largest_observed h.lower_limit h.packet_history.ranges = record {
      ordered = v.ordered;
      top = v.top;
      limited = v.limited;
    } in
    let r =
      received-Ranges n h.largest_observed h.lower_limit h.packet_history.ranges b v.limit_seen
        old in
    record {
      ordered = rw ranges r.ordered;
      top = rw (largest, ranges) r.top;
      limited = rw (lower, ranges) r.limited;
      limit_seen = omega (arith, v.limit_seen);
      queued_seen = λ q. omega arith;
      alarm_seen = λ q. omega arith;
      largest_fits = omega (arith, v.largest_fits);
    }

-- The peer moves the limit up to at most one below the highest number received.
pub set_lower_limit-IsValid :
    (p : ℕ) (h : ReceivedPacketHandler)
    → p < h.largest_observed
    → IsValid h
    → IsValid (set_lower_limit p h)
unfolding set_lower_limit delete_up_to
set_lower_limit-IsValid p h b v =
    let fits : p + 1 < 2 ^ 64 = omega (arith, v.largest_fits) in
    record {
      ordered = delete_loop-IsDescending p h.packet_history.ranges fits v.ordered;
      top = delete_loop-Top h.largest_observed p h.packet_history.ranges b v.top;
      limited =
          λ x q. ground (arith, contains-delete_loop x p h.packet_history.ranges fits v.ordered);
      limit_seen = omega arith;
      queued_seen = v.queued_seen;
      alarm_seen = v.alarm_seen;
      largest_fits = v.largest_fits;
    }
