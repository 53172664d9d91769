-- ===== src/Session/StreamFrameSorter/Pushed.antt =====
-- What Push does to the gaps and to the queued frames of the stream frame sorter.
use mpquic_latency.Base.{
  ℕ, ◌+◌, ◌<◌, ◌≡◌, refl, ◌∙◌, Bool, true, false, not, ◌&&◌, ◌||◌, ltb, leb, ◌==◌, if◌then◌else◌,
  max, u64, ltb→lt, Bool-cases, inl, inr, Option, none, some, List, ◌∷◌, ◌++◌, length, arith,
}
use mpquic_latency.Wire.Frame.{StreamFrame}
use mpquic_latency.Session.StreamFrameSorter.State.{
  ByteInterval, StreamFrameSorter, SorterError, max_byte_count, queue_frame,
}
use mpquic_latency.Session.StreamFrameSorter.Search.{
  GapSearch, find_gap, EndGapSearch, search_end_gap, end_gap_end, cut_start, cut_old, frame_end,
}
use mpquic_latency.Session.StreamFrameSorter.Push.{
  fill, push_into, push_rest, push, refuse, PushResult,
}
use mpquic_latency.Session.StreamFrameSorter.Gaps.{
  Chain, Chain-append, missing, missing-append, missing_below,
}
use mpquic_latency.Session.StreamFrameSorter.Located.{Located, find_gap-Located}
use mpquic_latency.Session.StreamFrameSorter.Filled.{Filled, search_end_gap-Filled}
use mpquic_latency.Session.StreamFrameSorter.Queue.{Fewer, queue_of, search_end_gap-Fewer}
use mpquic_latency.Session.StreamFrameSorter.Inv.{covers, Received, IsValid, Matches, Fits}
use mpquic_latency.Session.StreamFrameSorter.Cuts.{
  length-drop, Matches-drop, Part, cut_start-Part, cut_end-Part,
}
use mpquic_latency.Session.StreamFrameSorter.Fills.{
  Fills, Part-trans, count_gaps-Fills, unchanged_Fills, Part-whole, put_Received, put_Holds,
}

module _ (s : StreamFrameSorter) (v : IsValid s) where
  module _ (f f1 : StreamFrame) (fits : Fits f) (before after : List ByteInterval)
      (gap : ByteInterval) (mid : ℕ) (starts : f1.offset ≡ max f.offset gap.start)
      (part : Part f f1.offset (f.offset + length f.payload) f1)
      (d : Chain mid (gap ∷ after) max_byte_count) (lt : gap.start < f.offset + length f.payload)
      (m : (p : ℕ) → missing p s.gaps ≡ (missing p before || missing p (gap ∷ after)))
      (b : (p : ℕ) → (missing p before && covers f p) ≡ false) where
    abbrev FilledGaps : EndGapSearch → ℕ → Type 0
    FilledGaps r p =
        Filled f1.offset (f.offset + length f.payload) gap max_byte_count p mid (gap ∷ after) r

    missing_before_gap : (p : ℕ) → p < gap.start → missing p (gap ∷ after) ≡ false
    missing_before_gap p =
        missing_below p gap.start max_byte_count (gap ∷ after) (omega arith, d.1, d.2)

    filled_missing :
        (p : ℕ) (left : List ByteInterval)
        → missing p left ≡ (
            missing p (gap ∷ after) && not (leb f1.offset p && ltb p (f.offset + length f.payload)))
        → missing p (before ++ left) ≡ (missing p s.gaps && not (covers f p))
    filled_missing p left h = elim (Bool-cases (ltb p gap.start)) [
      | inl t ↦ ground (
        arith,
        m p,
        b p,
        part.from,
        starts,
        missing-append p before left,
        missing_before_gap p (ltb→lt _ _ t),
      )
      | inr e ↦ ground (arith, m p, b p, part.from, starts, missing-append p before left)
    ]

    fill-Fills :
        (r : EndGapSearch)
        → Fewer s.queued_frames (queue_of r)
        → Chain 0 before mid
        → ((p : ℕ) → FilledGaps r p)
        → Fills s f (fill s f1 (f.offset + length f.payload) before gap r)
    unfolding fill
    fill-Fills (EndGapSearch.unfound e q) few c shapes = absurd (shapes 0)
    fill-Fills (EndGapSearch.stopped e after' q) few c shapes =
        let (in_range, cut) =
          cut_end-Part f1.offset (f.offset + length f.payload) (end_gap_end gap e) f1
            (omega (arith, part.ends)) refl part.ends (shapes 0).0 in
        rw in_range (
          count_gaps-Fills s v f _ q _ few (λ p. filled_missing p _ (shapes p).2) fits
            (Part-trans f f1 _ f1.offset _ _ part cut)
            (Chain-append 0 mid max_byte_count before _ c (shapes 0).1))

  module _ (f : StreamFrame) (fits : Fits f) (filled_frame : 0 < length f.payload) where
    frame_end_lem : frame_end f ≡ f.offset + length f.payload
    frame_end_lem = omega arith

    ends_later : f.offset < f.offset + length f.payload
    ends_later = omega arith

    push_into-Fills :
        (r : GapSearch)
        → ((p : ℕ)
            → Located f.offset
                (f.offset + length f.payload)
                max_byte_count
                p
                ends_later
                fits
                0
                s.gaps
                r)
        → Fills s f (push_into s f r)
    unfolding push_into
    push_into-Fills GapSearch.duplicate h =
        unchanged_Fills s v f SorterError.duplicate_stream_data tt h
    push_into-Fills GapSearch.missed h = absurd (h 0)
    push_into-Fills (GapSearch.found before gap after) h =
        let (mid, before_lem, after_lem, lt, to, _, _) = h 0 in
        let part = cut_start-Part gap f fits lt in
        rw frame_end_lem (
          fill-Fills f (cut_start gap f) fits before after gap mid part.starts (rw part.starts part)
            after_lem lt (λ p. (h p).5) (λ p. (h p).6)
            (search_end_gap (f.offset + length f.payload) gap after s.queued_frames)
            (search_end_gap-Fewer (f.offset + length f.payload) gap after s.queued_frames)
            before_lem
            (λ p.
              search_end_gap-Filled (cut_start gap f).offset (f.offset + length f.payload) gap
                max_byte_count p mid after_lem.1 after_lem.0 (omega (arith, part.starts))
                (omega (arith, part.starts, after_lem.1)) (omega (arith, part.starts)) fits after
                s.queued_frames after_lem.2 lt))

    push_frame-Fills : Fills s f (push_rest s (some f))
    unfolding push_rest
    push_frame-Fills = rw frame_end_lem (
        push_into-Fills (find_gap f.offset (f.offset + length f.payload) s.gaps) (λ p.
          find_gap-Located f.offset (f.offset + length f.payload) max_byte_count p ends_later fits 0
            s.gaps (omega arith) v.ordered))

  -- The frame that is queued at the offset already holds the bytes that are cut off.
  Fills-cut_old :
      (f f' : StreamFrame) (r : PushResult)
      → ((p : ℕ) → (missing p s.gaps && covers f p) ≡ (missing p s.gaps && covers f' p))
      → ((content : ℕ → ℕ)
          → Matches content f.offset f.payload
          → Matches content f'.offset f'.payload)
      → Fills s f' r
      → Fills s f r
  Fills-cut_old f f' r h slices d = record {
    valid = d.valid;
    expected = d.expected;
    filled = λ p. d.filled p ∙ ground (arith, h p);
    still = d.still;
    kept = λ content c held. d.kept content (slices content c) held;
  }

  push_rest-Fills :
      (f : StreamFrame) (old : Option StreamFrame)
      → Fits f
      → 0 < length f.payload
      → Received s.gaps f.offset old
      → Fills s f (push_rest s (cut_old old f))
  unfolding cut_old push_rest
  push_rest-Fills f none fits pos r = push_frame-Fills f fits pos
  push_rest-Fills f (some old) fits pos r =
      elim (Bool-cases (leb (length f.payload) (length old.payload))) [
        | inl t ↦ rw t (
            unchanged_Fills s v f SorterError.duplicate_stream_data tt (λ p. ground (arith, r.2 p)))
        | inr e ↦
            let o : u64 (f.offset + length old.payload) ≡ f.offset + length old.payload =
              ground arith in
            rw e (
              Fills-cut_old f _ _
                (λ p. ground (arith, r.2 p, length-drop (length old.payload) f.payload))
                (λ content c. rw o (Matches-drop content (length old.payload) f.offset f.payload c))
                (push_frame-Fills _ (omega (arith, o, length-drop (length old.payload) f.payload))
                  (ground (arith, length-drop (length old.payload) f.payload))))
      ]

  empty-Fills :
      (f : StreamFrame) (fin : Bool)
      → Fits f
      → length f.payload ≡ 0
      → Fills s f (if fin then (queue_frame f s, none) else refuse SorterError.empty_stream_data s)
  empty-Fills f false fits e =
      unchanged_Fills s v f SorterError.empty_stream_data tt (λ p. ground arith)
  empty-Fills f true fits e =
      let same : (p : ℕ) → missing p s.gaps ≡ (missing p s.gaps && not (covers f p)) =
        λ p. ground arith in
      record {
        valid = record {
          ordered = v.ordered;
          received = λ o.
              put_Received s v f f s.queued_frames s.gaps (λ o. inl refl) same fits (Part-whole f)
                o;
        };
        expected = tt;
        filled = same;
        still = refl;
        kept = λ content c h.
            put_Holds s v f f s.queued_frames s.gaps (λ o. inl refl) same fits (Part-whole f)
              content c h;
      }

  -- Push of a frame that ends below the largest offset takes exactly its bytes out of the gaps, keeps the
  -- state well-formed, and, where it fails, fails with the error for an empty frame, for one with no new
  -- data or for too many gaps; the queue goes on to hold bytes of the stream if the frame does.
  pub push-Fills : (f : StreamFrame) → Fits f → Fills s f (push s f)
  unfolding push
  push-Fills f fits = elim (Bool-cases (length f.payload == 0)) [
    | inl t ↦ rw t (empty-Fills f f.fin_bit fits (ground arith))
    | inr e ↦
        rw e
          (push_rest-Fills f (s.queued_frames f.offset) fits (ground arith) (v.received f.offset))
  ]
