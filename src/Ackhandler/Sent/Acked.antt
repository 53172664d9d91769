-- ===== src/Ackhandler/Sent/Acked.antt =====
-- ackhandler/sent_packet_handler.go: which packets of the history a frame acknowledges.
use mpquic_latency.Base.{
  ℕ, Bool, true, false, List, [], ◌∷◌, reverse, ltb, leb, if◌then◌else◌, Option, none, some, any,
}
use mpquic_latency.Wire.AckFrame.{AckRange, acks_number}
use mpquic_latency.Ackhandler.Packet.{Packet}

-- `ackRanges` from the one at `ackRangeIndex` on, lowest first. The inner loop moves on while the
-- packet lies above the range and there is another.
unfoldable pub advance : ℕ → List AckRange → List AckRange
advance n [] = []
advance n (r ∷ []) = r ∷ []
advance n (r ∷ s ∷ rest) =
    let further = advance n (s ∷ rest) in if ltb r.last n then further else r ∷ s ∷ rest

-- What the loop makes of a packet in the bounds: whether it is acked, or `none` for the BUG error.
unfoldable pub in_current_range : ℕ → List AckRange → Option Bool
in_current_range n [] = some true
in_current_range n (r ∷ rest) =
    if leb r.first n then (if ltb r.last n then none else some true) else some false

-- `some acked`, and what the loop returns for the packets behind.
unfoldable pub keep : Packet → Option Bool → Option (List Packet) → Option (List Packet)
keep p none others = none
keep p (some acked) none = none
keep p (some acked) (some others) = some (if acked then p ∷ others else others)

-- The outer loop. The cursor is empty where the frame has no missing ranges; `none` is the error.
unfoldable pub walk : ℕ → ℕ → List AckRange → List Packet → Option (List Packet)
unfolding advance in_current_range keep
walk lowest largest cursor [] = some []
walk lowest largest cursor (p ∷ rest) =
    let n = p.packet_number in
    let skip = walk lowest largest cursor rest in
    let cursor' = advance n cursor in
    let others = walk lowest largest cursor' rest in
    if ltb n lowest
    then skip
    else if ltb largest n
    then some []
    else keep p (in_current_range n cursor') others

-- determineNewlyAckedPackets, and its copy for CLOSE_PATH frames.
unfoldable pub determine_newly_acked_packets :
    ℕ → ℕ → List AckRange → List Packet → Option (List Packet)
unfolding walk
determine_newly_acked_packets lowest largest ranges history =
    walk lowest largest (reverse ranges) history

-- skippedPacketsAcked, and its copy for CLOSE_PATH frames.
unfoldable pub skipped_packets_acked : ℕ → ℕ → List AckRange → List ℕ → Bool
skipped_packets_acked lowest largest ranges skipped =
    any (acks_number lowest largest ranges) skipped
