-- ===== src/Ackhandler/Sent/Validated.antt =====
-- A frame whose ranges pass validateAckRanges: the sender takes from its history the packets that
-- AcksPacket names.
use mpquic_latency.Base.{
  ℕ, ◌+◌, ◌<◌, ◌≤◌, ◌^◌, ◌≡◌, refl, Bool, true, false, ◌||◌, List, [], ◌∷◌, reverse, any, arith,
  All, ap, ◌∙◌, some,
}
use mathlib.Core.List.{reverse_aux}
use mpquic_latency.Wire.AckFrame.{
  AckRange, in_range, acks_number, each_range_valid, ranges_apart, validate_ack_ranges,
}
use mpquic_latency.Ackhandler.Packet.{Packet}
use mpquic_latency.Ackhandler.Sent.Acked.{determine_newly_acked_packets, walk}
use mpquic_latency.Ackhandler.Sent.Flight.{Ascends}
use mpquic_latency.Ackhandler.Sent.Walk.{select, Rising, walk-select, select-over}

abbrev pub Fits : List AckRange → Type 0
Fits = All (λ r. r.last + 1 < 2 ^ 64)

-- Ranges from the highest down behind `r`.
abbrev Falls : AckRange → List AckRange → Type 0
Falls r [] = Unit
Falls r (s ∷ l) = (s.last < r.first) × (s.first ≤ s.last) × Falls s l

Falls_lem :
    (r : AckRange) (l : List AckRange)
    → Fits (r ∷ l)
    → each_range_valid (r ∷ l) ≡ true
    → ranges_apart (r ∷ l) ≡ true
    → Falls r l
unfolding each_range_valid ranges_apart
Falls_lem r [] f e a = tt
Falls_lem r (s ∷ l) f e a =
    (ground arith, ground arith, Falls_lem s l f.1 (ground arith) (ground arith))

record Turned (largest : ℕ) (l acc out : List AckRange) : Type 0 where
  lowest : AckRange
  behind : List AckRange
  is : out ≡ lowest ∷ behind
  rising : Rising largest lowest behind
  same : (m : ℕ) → any (in_range m) out ≡ (any (in_range m) l || any (in_range m) acc)

turn :
    (largest : ℕ) (r : AckRange) (acc l : List AckRange)
    → Rising largest r acc
    → Falls r l
    → Turned largest l (r ∷ acc) (reverse_aux l (r ∷ acc))
turn largest r acc [] u f = record {
  lowest = r;
  behind = acc;
  is = refl;
  rising = u;
  same = λ m. refl;
}
turn largest r acc (s ∷ l) u f =
    let ih = turn largest s (r ∷ acc) l (f.1, f.0, u) f.2 in
    record {
      lowest = ih.lowest;
      behind = ih.behind;
      is = ih.is;
      rising = ih.rising;
      same = λ m. let e = ih.same m in rw e (ground arith);
    }

acks_number-under :
    (lowest largest : ℕ) (ranges : List AckRange) (m : ℕ)
    → m < lowest
    → acks_number lowest largest ranges m ≡ false
unfolding acks_number
acks_number-under lowest largest ranges m h = ground arith

acks_number-over :
    (lowest largest : ℕ) (ranges : List AckRange) (m : ℕ)
    → largest < m
    → acks_number lowest largest ranges m ≡ false
unfolding acks_number
acks_number-over lowest largest ranges m h = ground arith

acks_number-within :
    (lowest largest : ℕ) (r : AckRange) (l : List AckRange) (m : ℕ)
    → lowest ≤ m
    → m ≤ largest
    → acks_number lowest largest (r ∷ l) m ≡ any (in_range m) (r ∷ l)
unfolding acks_number
acks_number-within lowest largest r l m h k = ground arith

acks_number-bounds :
    (lowest largest m : ℕ) → lowest ≤ m → m ≤ largest → acks_number lowest largest [] m ≡ true
unfolding acks_number
acks_number-bounds lowest largest m h k = ground arith

-- Without missing ranges, the bounds decide.
walk_bounds :
    (lo lowest largest : ℕ) (l : List Packet)
    → Ascends lo l
    → walk lowest largest [] l ≡ some (select (acks_number lowest largest []) l)
unfolding walk
walk_bounds lo lowest largest [] a = refl
walk_bounds lo lowest largest (p ∷ l) a =
    let n = p.packet_number in
    ground (
      arith,
      walk_bounds n lowest largest l a.1,
      select-over (acks_number lowest largest []) largest n l (acks_number-over lowest largest []),
      acks_number-under lowest largest [] n,
      acks_number-over lowest largest [] n,
      acks_number-bounds lowest largest n,
    )

or_last : (a b x out : Bool) → out ≡ (b || (a || false)) → out ≡ x → (a || b) ≡ x
or_last a b x out e g = ground arith

select-Turned :
    (lowest largest : ℕ) (r s : AckRange) (l cursor : List AckRange) (history : List Packet)
    → Turned largest (s ∷ l) (r ∷ []) cursor
    → Ascends 0 history
    → walk lowest largest cursor history
      ≡ some (select (acks_number lowest largest (r ∷ s ∷ l)) history)
select-Turned lowest largest r s l cursor history t a = rw t.is (
    walk-select (acks_number lowest largest (r ∷ s ∷ l)) 0 lowest largest t.lowest t.behind history
      t.rising a
      (record {
        within = λ m b c d.
            acks_number-within lowest largest r (s ∷ l) m c d
            ∙ or_last (in_range m r) (any (in_range m) (s ∷ l)) _ (any (in_range m) cursor)
                (t.same m) (ap (any (in_range m)) t.is);
        under = acks_number-under lowest largest (r ∷ s ∷ l);
        over = acks_number-over lowest largest (r ∷ s ∷ l);
      }))

-- On a history in order, a frame with valid ranges makes the loop select exactly the packets that the
-- frame acknowledges, in order, and never ends in the BUG error.
pub determine_newly_acked_packets-select :
    (lowest largest : ℕ) (ranges : List AckRange) (history : List Packet)
    → Fits ranges
    → validate_ack_ranges largest ranges ≡ true
    → Ascends 0 history
    → determine_newly_acked_packets lowest largest ranges history
      ≡ some (select (acks_number lowest largest ranges) history)
unfolding determine_newly_acked_packets validate_ack_ranges
determine_newly_acked_packets-select lowest largest [] history f v a =
    walk_bounds 0 lowest largest history a
determine_newly_acked_packets-select lowest largest (r ∷ []) history f v a = cc
determine_newly_acked_packets-select lowest largest (r ∷ s ∷ l) history f v a =
    let top : r.last ≡ largest = ground arith in
    let each : each_range_valid (r ∷ s ∷ l) ≡ true = ground arith in
    select-Turned lowest largest r s l (reverse (r ∷ s ∷ l)) history
      (turn largest r [] (s ∷ l) (unfold each_range_valid in ground arith, top)
        (Falls_lem r (s ∷ l) f each (ground arith)))
      a
