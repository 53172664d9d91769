-- ===== src/Ackhandler/History.antt =====
-- ackhandler/received_packet_history.go: the packet numbers received so far, as intervals.
-- The source's linked list is kept from its Back() to its Front(), so highest interval first:
-- Prev() is the tail.
pub mod Insert
pub mod Delete
pub mod Calls
use mpquic_latency.Base.{
  ℕ, ◌+◌, ◌<◌, ◌≤◌, ◌≡◌, Bool, true, false, ◌&&◌, ◌||◌, List, [], ◌∷◌, map, length, ltb, leb, ◌==◌,
  if◌then◌else◌, any, u64, sub64, ◌^◌, Option, none, some, max,
}
use mpquic_latency.Wire.AckFrame.{AckRange}

-- utils.PacketInterval
pub record PacketInterval : Type 0 where
  pub start : ℕ
  pub end : ℕ

pub record ReceivedPacketHistory : Type 0 where
  pub ranges : List PacketInterval
  pub lowest_in_received_packet_numbers : ℕ

pub data HistoryError : Type 0 where
  too_many_outstanding_received_ack_ranges : HistoryError

abbrev pub max_tracked_received_ack_ranges : ℕ
max_tracked_received_ack_ranges = 2500

unfoldable pub new_received_packet_history : ReceivedPacketHistory
new_received_packet_history = record { ranges = []; lowest_in_received_packet_numbers = 0 }

-- `el` was extended; `prev` is the head of the rest. The two are merged if they have become adjacent.
unfoldable pub merge_prev : PacketInterval → List PacketInterval → List PacketInterval
merge_prev el [] = el ∷ []
merge_prev el (prev ∷ rest) =
    if u64 (prev.end + 1) == el.start then record prev { end = el.end } ∷ rest else el ∷ prev ∷ rest

-- The loop from Back() over Prev(), and the InsertBefore behind it.
unfoldable pub insert_range : ℕ → List PacketInterval → List PacketInterval
insert_range p [] = record { start = p; end = p } ∷ []
insert_range p (el ∷ rest) =
    let further = insert_range p rest in
    if leb el.start p && leb p el.end
    then el ∷ rest
    else if el.end == sub64 p 1
    then merge_prev (record el { end = p }) rest
    else if el.start == u64 (p + 1)
    then merge_prev (record el { start = p }) rest
    else if ltb el.end p
    then record { start = p; end = p } ∷ el ∷ rest
    else el ∷ further

-- History.ReceivedPacket: the error, if any, and the new state.
unfoldable pub received_packet :
    ℕ → ReceivedPacketHistory → Option HistoryError × ReceivedPacketHistory
received_packet p h =
    if leb max_tracked_received_ack_ranges (length h.ranges)
    then (some too_many_outstanding_received_ack_ranges, h)
    else (none, record h { ranges = insert_range p h.ranges })

-- One round at `el`.
unfoldable pub delete_step :
    ℕ → PacketInterval → Bool × List PacketInterval → Bool × List PacketInterval
delete_step p el (true, kept) = (true, el ∷ kept)
delete_step p el (false, kept) =
    if leb el.start p && ltb p el.end
    then (false, record el { start = u64 (p + 1) } ∷ kept)
    else if leb el.end p
    then (false, kept)
    else (true, el ∷ kept)

-- The loop of DeleteUpTo runs from Front() over Next(), so the rest of the list comes before its head.
-- The Boolean tells that the loop has returned, in its last branch.
unfoldable pub delete_loop : ℕ → List PacketInterval → Bool × List PacketInterval
delete_loop p [] = (false, [])
delete_loop p (el ∷ rest) = delete_step p el (delete_loop p rest)

unfoldable pub delete_up_to : ℕ → ReceivedPacketHistory → ReceivedPacketHistory
delete_up_to p h = record {
  ranges = (delete_loop p h.ranges).1;
  lowest_in_received_packet_numbers = max h.lowest_in_received_packet_numbers (u64 (p + 1));
}

unfoldable pub get_ack_ranges : ReceivedPacketHistory → List AckRange
get_ack_ranges h = map (λ el. record { first = el.start; last = el.end }) h.ranges

unfoldable pub get_highest_ack_range : ReceivedPacketHistory → AckRange
get_highest_ack_range h = highest h.ranges
  where
    highest : List PacketInterval → AckRange
    highest [] = record { first = 0; last = 0 }
    highest (r ∷ rest) = record { first = r.start; last = r.end }

-- The packet numbers that an interval, and a history, stand for.
abbrev pub in_interval : ℕ → PacketInterval → Bool
in_interval x r = leb r.start x && leb x r.end

abbrev pub contains : ℕ → List PacketInterval → Bool
contains x ranges = any (in_interval x) ranges

-- The next interval, below `n`, ends at least two before it.
abbrev pub Below : ℕ → List PacketInterval → Type 0
Below n [] = Unit
Below n (r ∷ rest) = r.end + 1 < n

-- Intervals from the highest down: none empty, all within uint64, and with a gap between two.
abbrev pub IsDescending : List PacketInterval → Type 0
IsDescending [] = Unit
IsDescending (r ∷ rest) =
    (r.start ≤ r.end) × (r.end + 1 < 2 ^ 64) × Below r.start rest × IsDescending rest
