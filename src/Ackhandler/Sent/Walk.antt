-- ===== src/Ackhandler/Sent/Walk.antt =====
-- The walk of determineNewlyAckedPackets, which moves through the packets and the ranges together,
-- finds exactly the packets that the frame acknowledges.
use mpquic_latency.Base.{
  ℕ, ◌-◌, ◌<◌, ◌≤◌, ◌≡◌, refl, sym, Bool, false, List, [], ◌∷◌, ltb, any, arith, ap, ◌∙◌,
  if◌then◌else◌, some, Bool-cases, inl, inr,
}
use mpquic_latency.Wire.AckFrame.{AckRange, in_range}
use mpquic_latency.Ackhandler.Packet.{Packet}
use mpquic_latency.Ackhandler.Sent.Acked.{advance, in_current_range, walk}
use mpquic_latency.Ackhandler.Sent.Flight.{Ascends}

-- The packets whose numbers pass a test, in order.
abbrev pub select : (ℕ → Bool) → List Packet → List Packet
select acked [] = []
select acked (p ∷ rest) = if acked p.packet_number then p ∷ select acked rest else select acked rest

-- Ranges from the lowest up, with a gap between two, the last one ending at `largest`.
abbrev pub Rising : ℕ → AckRange → List AckRange → Type 0
Rising largest r [] = (r.first ≤ r.last) × (r.last ≡ largest)
Rising largest r (s ∷ rest) = (r.first ≤ r.last) × (r.last < s.first) × Rising largest s rest

Rising-head :
    (largest : ℕ) (r : AckRange) (rest : List AckRange) → Rising largest r rest → r.first ≤ r.last
Rising-head largest r [] u = u.0
Rising-head largest r (s ∷ rest) u = u.0

any-above :
    (n largest : ℕ) (r : AckRange) (rest : List AckRange)
    → Rising largest r rest
    → n ≤ r.last
    → any (in_range n) rest ≡ false
any-above n largest r [] u h = refl
any-above n largest r (s ∷ rest) u h =
    ground (arith, any-above n largest s rest u.2, Rising-head largest s rest u.2)

-- Where the inner loop stops: the ranges that it passed lie below the packet.
record Advanced (n largest : ℕ) (cursor : List AckRange) : Type 0 where
  here : AckRange
  behind : List AckRange
  stops : advance n cursor ≡ here ∷ behind
  rising : Rising largest here behind
  reaches : n ≤ here.last
  same : (m : ℕ) → n ≤ m → any (in_range m) cursor ≡ any (in_range m) (here ∷ behind)

advance-Advanced :
    (n largest : ℕ) (r : AckRange) (rest : List AckRange)
    → Rising largest r rest
    → n ≤ largest
    → Advanced n largest (r ∷ rest)
unfolding advance
advance-Advanced n largest r [] u h = record {
  here = r;
  behind = [];
  stops = refl;
  rising = u;
  reaches = omega arith;
  same = λ m k. refl;
}
advance-Advanced n largest r (s ∷ rest) u h =
    let ih = advance-Advanced n largest s rest u.2 h in
    elim (Bool-cases (ltb r.last n)) [
      | inl e ↦ record {
        here = ih.here;
        behind = ih.behind;
        stops = rw e ih.stops;
        rising = ih.rising;
        reaches = ih.reaches;
        same = λ m k. let below : in_range m r ≡ false = ground arith in rw below (ih.same m k);
      }
      | inr e ↦ record {
        here = r;
        behind = s ∷ rest;
        stops = rw e;
        rising = u;
        reaches = ground arith;
        same = λ m k. refl;
      }
    ]

in_current_range-any :
    (n largest : ℕ) (r : AckRange) (rest : List AckRange)
    → Rising largest r rest
    → n ≤ r.last
    → in_current_range n (r ∷ rest) ≡ some (any (in_range n) (r ∷ rest))
unfolding in_current_range
in_current_range-any n largest r rest u h = rw (any-above n largest r rest u h) (ground arith)

-- `acked` is the test that the frame stands for, from `lo` on in terms of the ranges that are left.
pub record Meaning (lo lowest largest : ℕ) (cursor : List AckRange) (acked : ℕ → Bool)
    : Type 0 where
  pub within : (m : ℕ) → lo < m → lowest ≤ m → m ≤ largest → acked m ≡ any (in_range m) cursor
  pub under : (m : ℕ) → m < lowest → acked m ≡ false
  pub over : (m : ℕ) → largest < m → acked m ≡ false

pub select-over :
    (acked : ℕ → Bool) (largest lo : ℕ) (l : List Packet)
    → ((m : ℕ) → largest < m → acked m ≡ false)
    → largest ≤ lo
    → Ascends lo l
    → select acked l ≡ []
select-over acked largest lo [] h b a = refl
select-over acked largest lo (p ∷ l) h b a =
    rw (h p.packet_number (omega arith))
      (select-over acked largest p.packet_number l h (omega arith) a.1)

pub walk-select :
    (acked : ℕ → Bool) (lo lowest largest : ℕ) (r : AckRange) (rest : List AckRange)
    (l : List Packet)
    → Rising largest r rest
    → Ascends lo l
    → Meaning lo lowest largest (r ∷ rest) acked
    → walk lowest largest (r ∷ rest) l ≡ some (select acked l)
unfolding walk
walk-select acked lo lowest largest r rest [] u a m = refl
walk-select acked lo lowest largest r rest (p ∷ l) u a m =
    let n = p.packet_number in
    elim (Bool-cases (ltb n lowest)) [
      | inl e ↦
          rw (e, m.under n (ground arith))
            (walk-select acked n lowest largest r rest l u a.1
              (record { within = λ k b. m.within k (omega arith); under = m.under; over = m.over }))
      | inr e ↦ elim (Bool-cases (ltb largest n)) [
        | inl f ↦
            rw (e, f)
              (ap some (
                sym (
                  select-over acked largest (n - 1) (p ∷ l) m.over (ground arith)
                    (ground arith, a.1))))
        | inr f ↦
            let q = advance-Advanced n largest r rest u (ground arith) in
            let ih = walk-select acked n lowest largest q.here q.behind l q.rising a.1 (record {
              within = λ k b c d. m.within k (omega arith) c d ∙ q.same k (omega arith);
              under = m.under;
              over = m.over;
            }) in
            let now = m.within n a.0 (ground arith) (ground arith) ∙ q.same n (omega arith) in
            rw (
              e,
              f,
              q.stops,
              in_current_range-any n largest q.here q.behind q.rising q.reaches,
              ih,
              ← now,
            )
      ]
    ]
