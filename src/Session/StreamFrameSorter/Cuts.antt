-- ===== src/Session/StreamFrameSorter/Cuts.antt =====
-- The cuts of a frame by Push of the stream frame sorter.
use mpquic_latency.Base.{
  ℕ, zero, suc, ◌+◌, ◌-◌, ◌≤◌, ◌<◌, ◌≡◌, refl, true, ltb, min, max, u64, sub64, ltb→lt, le→leb,
  Bool-cases, inl, inr, List, [], ◌∷◌, length, drop, arith,
}
use mpquic_latency.Wire.Frame.{StreamFrame}
use mpquic_latency.Session.StreamFramer.{take}
use mpquic_latency.Session.StreamFramer.Content.{length-take}
use mpquic_latency.Session.StreamFrameSorter.State.{ByteInterval, max_byte_count}
use mpquic_latency.Session.StreamFrameSorter.Search.{cut_start}
use mpquic_latency.Session.StreamFrameSorter.Push.{cut_end, cut_length, cut_in_range}
use mpquic_latency.Session.StreamFrameSorter.Inv.{Matches, Fits}

pub Matches-drop :
    (content : ℕ → ℕ) (n offset : ℕ) (bs : List ℕ)
    → Matches content offset bs
    → Matches content (offset + n) (drop n bs)
Matches-drop content zero offset bs m = let e : offset + 0 ≡ offset = omega arith in rw e m
Matches-drop content (suc n) offset [] m = tt
Matches-drop content (suc n) offset (b ∷ bs) m =
    let e : offset + suc n ≡ offset + 1 + n = omega arith in
    rw e (Matches-drop content n (offset + 1) bs m.1)

pub Matches-take :
    (content : ℕ → ℕ) (n offset : ℕ) (bs : List ℕ)
    → Matches content offset bs
    → Matches content offset (take n bs)
Matches-take content zero offset bs m = tt
Matches-take content (suc n) offset [] m = tt
Matches-take content (suc n) offset (b ∷ bs) m = (m.0, Matches-take content n (offset + 1) bs m.1)

pub length-drop : (n : ℕ) (bs : List ℕ) → length (drop n bs) ≡ length bs - n
length-drop zero bs = omega arith
length-drop (suc n) [] = omega arith
length-drop (suc n) (b ∷ bs) = omega (arith, length-drop n bs)

-- The frame that is left after a cut, from start to end.
pub record Part (f : StreamFrame) (start end : ℕ) (f' : StreamFrame) : Type 0 where
  pub starts : f'.offset ≡ start
  pub ends : start + length f'.payload ≡ end
  pub from : f.offset ≤ start
  pub to : end ≤ f.offset + length f.payload
  pub slices :
      (content : ℕ → ℕ) → Matches content f.offset f.payload → Matches content f'.offset f'.payload

pub cut_start-Part :
    (gap : ByteInterval) (f : StreamFrame)
    → Fits f
    → gap.start < f.offset + length f.payload
    → Part f (max f.offset gap.start) (f.offset + length f.payload) (cut_start gap f)
cut_start-Part gap f fits lt = elim (Bool-cases (ltb f.offset gap.start)) [
  | inl t ↦
      let e : u64 (f.offset + sub64 gap.start f.offset) ≡ f.offset + sub64 gap.start f.offset =
        omega (arith, ltb→lt _ _ t) in
      rw t (record {
        starts = omega (arith, ltb→lt _ _ t);
        ends = omega (arith, ltb→lt _ _ t, length-drop (sub64 gap.start f.offset) f.payload);
        from = omega arith;
        to = omega arith;
        slices = λ content m.
            rw e (Matches-drop content (sub64 gap.start f.offset) f.offset f.payload m);
      })
  | inr e ↦ rw e (record {
    starts = ground arith;
    ends = ground arith;
    from = omega arith;
    to = omega arith;
    slices = λ content m. m;
  })
]

cut_length_lem :
    (end end_gap : ℕ) (f : StreamFrame)
    → length f.payload < max_byte_count
    → end < max_byte_count
    → end_gap < end
    → end ≤ end_gap + length f.payload
    → cut_length end end_gap f + end ≡ end_gap + length f.payload
cut_length_lem end end_gap f a b lt le = omega arith

pub cut_end-Part :
    (start end end_gap : ℕ) (f : StreamFrame)
    → Fits f
    → f.offset ≡ start
    → start + length f.payload ≡ end
    → start ≤ end_gap
    → (cut_in_range end end_gap f ≡ true) × Part f start (min end end_gap) (cut_end end end_gap f)
cut_end-Part start end end_gap f fits o l le = elim (Bool-cases (ltb end_gap end)) [
  | inl t ↦
      let e : cut_length end end_gap f + end ≡ end_gap + length f.payload =
        cut_length_lem end end_gap f (omega arith) (omega arith) (ltb→lt _ _ t) (omega arith) in
      rw t (
        le→leb _ _ (omega (arith, ltb→lt _ _ t)),
        record {
          starts = o;
          ends = omega (
            arith,
            ltb→lt _ _ t,
            length-take (cut_length end end_gap f) f.payload (omega (arith, ltb→lt _ _ t)),
          );
          from = omega arith;
          to = omega arith;
          slices =
              λ content m. Matches-take content (cut_length end end_gap f) f.offset f.payload m;
        },
      )
  | inr e ↦ rw e (
    refl,
    record {
      starts = o;
      ends = ground arith;
      from = omega arith;
      to = ground arith;
      slices = λ content m. m;
    },
  )
]
