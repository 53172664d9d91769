-- ===== src/Session/StreamFrameSorter/Fills.antt =====
-- What Push is to do to the gaps and to the queued frames of the stream frame sorter, and that
-- queueing a part of the frame does it once the gaps are filled.
use mpquic_latency.Base.{
  ℕ, ◌+◌, ◌≡◌, refl, false, not, ◌&&◌, ltb, ◌==◌, Bool-cases, inl, inr, Option, none, some, List,
  length, arith,
}
use mpquic_latency.Wire.Frame.{StreamFrame}
use mpquic_latency.Session.StreamFrameSorter.State.{
  ByteInterval, StreamFrameSorter, SorterError, max_byte_count, put_frame,
  max_stream_frame_sorter_gaps,
}
use mpquic_latency.Session.StreamFrameSorter.Push.{count_gaps, with_gaps, refuse, PushResult}
use mpquic_latency.Session.StreamFrameSorter.Gaps.{Chain, missing}
use mpquic_latency.Session.StreamFrameSorter.Queue.{Fewer}
use mpquic_latency.Session.StreamFrameSorter.Inv.{
  covers, Received, IsValid, Matches, HoldsFrame, Holds, Fits,
}
use mpquic_latency.Session.StreamFrameSorter.Cuts.{Part}

-- The errors that an honest peer's frames can lead to.
abbrev pub IsExpected : Option SorterError → Type 0
IsExpected (some SorterError.no_gap_found) = ⊥
IsExpected (some SorterError.no_end_gap_found) = ⊥
IsExpected (some SorterError.slice_out_of_range) = ⊥
IsExpected _ = Unit

pub record Fills (s : StreamFrameSorter) (f : StreamFrame) (r : PushResult) : Type 0 where
  pub valid : IsValid r.0
  pub expected : IsExpected r.1
  pub filled : (p : ℕ) → missing p r.0.gaps ≡ (missing p s.gaps && not (covers f p))
  pub still : r.0.read_position ≡ s.read_position
  pub kept :
      (content : ℕ → ℕ) → Matches content f.offset f.payload → Holds content s → Holds content r.0

pub Part-trans :
    (f f1 f2 : StreamFrame) (start end end' : ℕ)
    → Part f start end f1
    → Part f1 start end' f2
    → Part f start end' f2
Part-trans f f1 f2 start end end' p q = record {
  starts = q.starts;
  ends = q.ends;
  from = p.from;
  to = omega (arith, p.to, p.starts, p.ends, q.to);
  slices = λ content m. q.slices content (p.slices content m);
}

pub Part-whole : (f : StreamFrame) → Part f f.offset (f.offset + length f.payload) f
Part-whole f = record {
  starts = refl;
  ends = refl;
  from = omega arith;
  to = omega arith;
  slices = λ content m. m;
}

Received-shrinks :
    (gs gs' : List ByteInterval) (o : ℕ) (q : Option StreamFrame)
    → ((p : ℕ) → missing p gs ≡ false → missing p gs' ≡ false)
    → Received gs o q
    → Received gs' o q
Received-shrinks gs gs' o none h r = tt
Received-shrinks gs gs' o (some f) h r = (r.0, r.1, λ p. ground (arith, h p, r.2 p))

module _ (s : StreamFrameSorter) (v : IsValid s) where
  -- The gaps lose the bytes of f, frames are deleted, and a part f' of f is queued.
  module _ (f f' : StreamFrame) (queued : ℕ → Option StreamFrame) (gs : List ByteInterval)
      (few : Fewer s.queued_frames queued)
      (m : (p : ℕ) → missing p gs ≡ (missing p s.gaps && not (covers f p))) where
    still_Received : (o : ℕ) → Received gs o (queued o)
    still_Received o = elim (few o) [
      | inl e ↦ rw e (
          Received-shrinks s.gaps gs o (s.queued_frames o) (λ p h. ground (arith, m p))
            (v.received o))
      | inr e ↦ rw e tt
    ]

    still_Holds : (content : ℕ → ℕ) → Holds content s → (o : ℕ) → HoldsFrame content (queued o)
    still_Holds content h o = elim (few o) [ inl e ↦ rw e (h o) | inr e ↦ rw e tt ]

    module _ {start end : ℕ} (fits : Fits f) (part : Part f start end f') where
      pub put_Received : (o : ℕ) → Received gs o (put_frame f'.offset f' queued o)
      put_Received o = elim (Bool-cases (o == f'.offset)) [
        | inl e ↦ rw e (
          ground arith,
          ground (arith, part.starts, part.ends, part.to),
          λ p. ground (arith, m p, part.starts, part.ends, part.from, part.to),
        )
        | inr e ↦ rw e (still_Received o)
      ]

      pub put_Holds :
          (content : ℕ → ℕ)
          → Matches content f.offset f.payload
          → Holds content s
          → (o : ℕ) → HoldsFrame content (put_frame f'.offset f' queued o)
      put_Holds content c h o = elim (Bool-cases (o == f'.offset)) [
        | inl e ↦ rw e (part.slices content c)
        | inr e ↦ rw e (still_Holds content h o)
      ]

      pub count_gaps-Fills :
          Chain 0 gs max_byte_count → Fills s f (count_gaps f' (with_gaps gs queued s))
      count_gaps-Fills c = elim (Bool-cases (ltb max_stream_frame_sorter_gaps (length gs))) [
        | inl t ↦ rw t (record {
          valid = record { ordered = c; received = still_Received };
          expected = tt;
          filled = m;
          still = refl;
          kept = λ content c h. still_Holds content h;
        })
        | inr e ↦ rw e (record {
          valid = record { ordered = c; received = put_Received };
          expected = tt;
          filled = m;
          still = refl;
          kept = put_Holds;
        })
      ]

  pub unchanged_Fills :
      (f : StreamFrame) (e : SorterError)
      → IsExpected (some e)
      → ((p : ℕ) → (missing p s.gaps && covers f p) ≡ false)
      → Fills s f (refuse e s)
  unchanged_Fills f e x h = record {
    valid = v;
    expected = x;
    filled = λ p. ground (arith, h p);
    still = refl;
    kept = λ content c held. held;
  }
