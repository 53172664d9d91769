-- ===== src/Wire/AckFrame.antt =====
-- internal/wire/ack_range.go, ack_frame.go and close_path_frame.go: the frames that report which
-- packets were received, and the questions that are asked of them. (Their bytes are not modelled.)
use mpquic_latency.Base.{
  ℕ, Bool, true, false, ◌&&◌, ◌||◌, not, List, [], ◌∷◌, ltb, leb, ◌==◌, if◌then◌else◌, length, any,
  Option, u64, ◌+◌,
}

pub record AckRange : Type 0 where
  pub first : ℕ
  pub last : ℕ

-- A time is `none` where Go's IsZero() holds; a duration is a number of nanoseconds.
pub record AckFrame : Type 0 where
  pub path_id : ℕ
  pub largest_acked : ℕ
  pub lowest_acked : ℕ
  pub ack_ranges : List AckRange
  pub packet_received_time : Option ℕ
  pub delay_time : ℕ

pub record ClosePathFrame : Type 0 where
  pub path_id : ℕ
  pub largest_acked : ℕ
  pub lowest_acked : ℕ
  pub ack_ranges : List AckRange

abbrev pub in_range : ℕ → AckRange → Bool
in_range p r = leb r.first p && leb p r.last

-- `len(AckRanges) > 0`
unfoldable pub has_missing_ranges : List AckRange → Bool
has_missing_ranges ranges = ltb 0 (length ranges)

-- The body of AcksPacket, which the two frames share word for word.
unfoldable pub acks_number : ℕ → ℕ → List AckRange → ℕ → Bool
unfolding has_missing_ranges
acks_number lowest largest ranges p =
    if ltb p lowest || ltb largest p
    then false
    else if has_missing_ranges ranges
    then any (in_range p) ranges
    else leb lowest p && leb p largest

unfoldable pub acks_packet : AckFrame → ℕ → Bool
unfolding acks_number
acks_packet f p = acks_number f.lowest_acked f.largest_acked f.ack_ranges p

unfoldable pub acks_packet_close_path : ClosePathFrame → ℕ → Bool
unfolding acks_number
acks_packet_close_path f p = acks_number f.lowest_acked f.largest_acked f.ack_ranges p

-- The two loops of validateAckRanges.
unfoldable pub each_range_valid : List AckRange → Bool
each_range_valid [] = true
each_range_valid (r ∷ rest) = if ltb r.last r.first then false else each_range_valid rest

unfoldable pub ranges_apart : List AckRange → Bool
ranges_apart [] = true
ranges_apart (r ∷ []) = true
ranges_apart (r ∷ s ∷ rest) =
    if leb r.first s.first
    then false
    else if leb r.first (u64 (s.last + 1))
    then false
    else ranges_apart (s ∷ rest)

-- validateAckRanges, which the two frames share word for word.
unfoldable pub validate_ack_ranges : ℕ → List AckRange → Bool
unfolding each_range_valid ranges_apart
validate_ack_ranges largest [] = true
validate_ack_ranges largest (r ∷ []) = false
validate_ack_ranges largest (r ∷ s ∷ rest) =
    if not (r.last == largest)
    then false
    else if not (each_range_valid (r ∷ s ∷ rest))
    then false
    else ranges_apart (r ∷ s ∷ rest)
