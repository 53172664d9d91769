-- ===== src/Ackhandler/Received/Ack.antt =====
-- The ACK frame that the receiving side builds, against the packet numbers that it holds.
use mpquic_latency.Base.{
  ℕ, ◌<◌, ◌≤◌, ◌≡◌, refl, ap, ◌∙◌, not, Bool, true, false, ◌&&◌, ◌⊎◌, List, [], ◌∷◌, map, any, some,
  arith, inl, inr, returned,
}
use mpquic_latency.Wire.AckFrame.{
  AckRange, AckFrame, in_range, acks_packet, acks_number, each_range_valid, ranges_apart,
  validate_ack_ranges,
}
use mpquic_latency.Ackhandler.History.{PacketInterval, contains, IsDescending, get_ack_ranges}
use mpquic_latency.Ackhandler.Received.{
  ReceivedPacketHandler, lowest_first, reported, build_ack, ack_sent, alarm_pending, get_ack_frame,
}
use mpquic_latency.Ackhandler.Received.Inv.{Top, IsValid}

abbrev pub to_range : PacketInterval → AckRange
to_range el = record { first = el.start; last = el.end }

any-to_range : (x : ℕ) (l : List PacketInterval) → any (in_range x) (map to_range l) ≡ contains x l
any-to_range x [] = refl
any-to_range x (r ∷ l) = ground (arith, any-to_range x l)

-- The lowest First that is reported, as a number.
abbrev pub lowest : PacketInterval → List PacketInterval → ℕ
lowest r [] = r.start
lowest r (s ∷ l) = lowest s l

pub lowest_first-lowest :
    (r : PacketInterval) (l : List PacketInterval)
    → lowest_first (to_range r ∷ map to_range l) ≡ some (lowest r l)
unfolding lowest_first
lowest_first-lowest r [] = refl
lowest_first-lowest r (s ∷ l) = lowest_first-lowest s l

lowest-le-start :
    (r : PacketInterval) (l : List PacketInterval) → IsDescending (r ∷ l) → lowest r l ≤ r.start
lowest-le-start r [] d = omega arith
lowest-le-start r (s ∷ l) d = omega (arith, lowest-le-start s l d.3)

lowest-le :
    (x : ℕ) (r : PacketInterval) (l : List PacketInterval)
    → IsDescending (r ∷ l)
    → contains x (r ∷ l) ≡ true
    → lowest r l ≤ x
lowest-le x r [] d h = ground arith
lowest-le x r (s ∷ l) d h = ground (arith, lowest-le x s l d.3, lowest-le-start s l d.3)

le-top :
    (x : ℕ) (r : PacketInterval) (l : List PacketInterval)
    → IsDescending (r ∷ l)
    → contains x (r ∷ l) ≡ true
    → x ≤ r.end
le-top x r [] d h = ground arith
le-top x r (s ∷ l) d h = ground (arith, le-top x s l d.3)

-- With the bounds that the ranges imply, the test of the bounds decides nothing.
acks_number-any :
    (lo hi p : ℕ) (a : AckRange) (rest : List AckRange) (b : Bool)
    → any (in_range p) (a ∷ rest) ≡ b
    → (b ≡ true → lo ≤ p)
    → (b ≡ true → p ≤ hi)
    → acks_number lo hi (a ∷ rest) p ≡ b
unfolding acks_number
acks_number-any lo hi p a rest true e f g = let u = f refl in let v = g refl in rw e (ground arith)
acks_number-any lo hi p a rest false e f g = rw e (ground arith)

pub acks_number-contains :
    (x : ℕ) (r : PacketInterval) (l : List PacketInterval)
    → IsDescending (r ∷ l)
    → acks_number (lowest r l) r.end (reported (to_range r ∷ map to_range l)) x ≡ contains x (r ∷ l)
unfolding reported
acks_number-contains x r [] d = unfold acks_number in ground arith
acks_number-contains x r (s ∷ l) d =
    acks_number-any (lowest s l) r.end x (to_range r) (map to_range (s ∷ l))
      (contains x (r ∷ s ∷ l)) (any-to_range x (r ∷ s ∷ l)) (lowest-le x r (s ∷ l) d)
      (le-top x r (s ∷ l) d)

each_range_valid-map :
    (l : List PacketInterval) → IsDescending l → each_range_valid (map to_range l) ≡ true
unfolding each_range_valid
each_range_valid-map [] d = refl
each_range_valid-map (r ∷ l) d = ground (arith, each_range_valid-map l)

ranges_apart-map : (l : List PacketInterval) → IsDescending l → ranges_apart (map to_range l) ≡ true
unfolding ranges_apart
ranges_apart-map [] d = refl
ranges_apart-map (r ∷ []) d = refl
ranges_apart-map (r ∷ s ∷ l) d = ground (arith, ranges_apart-map (s ∷ l))

validate-reported :
    (r : PacketInterval) (l : List PacketInterval)
    → IsDescending (r ∷ l)
    → validate_ack_ranges r.end (reported (to_range r ∷ map to_range l)) ≡ true
unfolding validate_ack_ranges reported
validate-reported r [] d = refl
validate-reported r (s ∷ l) d =
    ground (arith, each_range_valid-map (r ∷ s ∷ l), ranges_apart-map (r ∷ s ∷ l))

-- `ackQueued`, or an alarm that has passed.
abbrev pub IsDue : ℕ → ReceivedPacketHandler → Type 0
IsDue now h = (h.ack_queued ≡ true) ⊎ (alarm_pending h.ack_alarm now ≡ false)

due_seen : (now : ℕ) (h : ReceivedPacketHandler) → IsDue now h → IsValid h → 0 < h.largest_observed
unfolding alarm_pending
due_seen now h (inl q) v = v.queued_seen q
due_seen now h (inr a) v = ground (arith, v.alarm_seen)

-- What the frame says of the intervals `l`.
pub record Reports (h : ReceivedPacketHandler) (ack : AckFrame) : Type 0 where
  pub largest : ack.largest_acked ≡ h.largest_observed
  pub exact : (x : ℕ) → acks_packet ack x ≡ contains x h.packet_history.ranges
  pub valid : validate_ack_ranges ack.largest_acked ack.ack_ranges ≡ true

report :
    (h : ReceivedPacketHandler) (r : PacketInterval) (l : List PacketInterval)
    → h.packet_history.ranges ≡ r ∷ l
    → IsDescending (r ∷ l)
    → r.end ≡ h.largest_observed
    → Reports h (build_ack h (to_range r ∷ map to_range l) (lowest r l))
unfolding build_ack acks_packet
report h r l e d t = record {
  largest = refl;
  exact = λ x. rw (e, ← t) (acks_number-contains x r l d);
  valid = rw (← t) (validate-reported r l d);
}

due_test :
    (now : ℕ) (h : ReceivedPacketHandler)
    → IsDue now h
    → (not h.ack_queued && alarm_pending h.ack_alarm now) ≡ false
due_test now h (inl q) = rw q
due_test now h (inr a) = ground arith

get_ack_frame_nonempty :
    (now : ℕ) (h : ReceivedPacketHandler) (r : PacketInterval) (l : List PacketInterval)
    → IsDue now h
    → get_ack_ranges h.packet_history ≡ to_range r ∷ map to_range l
    → let ack = build_ack h (to_range r ∷ map to_range l) (lowest r l) in
      get_ack_frame now h ≡ returned (some ack, ack_sent ack h)
unfolding get_ack_frame
get_ack_frame_nonempty now h r l q f =
    let g = ap lowest_first f ∙ lowest_first-lowest r l in rw (due_test now h q, g, f)

get_ack_frame_ranges :
    (now : ℕ) (h : ReceivedPacketHandler) (l : List PacketInterval)
    → h.packet_history.ranges ≡ l
    → IsDue now h
    → IsDescending l
    → Top h.largest_observed l
    → 0 < h.largest_observed
    → (ack : AckFrame) × (get_ack_frame now h ≡ returned (some ack, ack_sent ack h)) × Reports h ack
get_ack_frame_ranges now h [] e q d t p = absurd (omega arith)
get_ack_frame_ranges now h (r ∷ l) e q d t p =
    let f : get_ack_ranges h.packet_history ≡ to_range r ∷ map to_range l =
      unfold get_ack_ranges in ap (map to_range) e in
    (
      build_ack h (to_range r ∷ map to_range l) (lowest r l),
      get_ack_frame_nonempty now h r l q f,
      report h r l e d t,
    )

-- Whenever an ACK is due, GetAckFrame returns a frame. Its ranges are valid, it reports the largest
-- packet number, and it acknowledges a packet number exactly when the history holds it.
pub get_ack_frame_due :
    (now : ℕ) (h : ReceivedPacketHandler)
    → IsDue now h
    → IsValid h
    → (ack : AckFrame) × (get_ack_frame now h ≡ returned (some ack, ack_sent ack h)) × Reports h ack
get_ack_frame_due now h q v =
    get_ack_frame_ranges now h h.packet_history.ranges refl q v.ordered v.top (due_seen now h q v)

-- The acknowledgement leaves the history alone.
pub ack_sent-IsValid :
    (ack : AckFrame) (h : ReceivedPacketHandler) → IsValid h → IsValid (ack_sent ack h)
unfolding ack_sent
ack_sent-IsValid ack h v = record {
  ordered = v.ordered;
  top = v.top;
  limited = v.limited;
  limit_seen = v.limit_seen;
  queued_seen = λ q. cc;
  alarm_seen = λ q. cc;
  largest_fits = v.largest_fits;
}
