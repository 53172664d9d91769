-- ===== src/Session/StreamFrameSorter/Push.antt =====
-- stream_frame_sorter.go: Push. Data is a list of bytes, so the copy that follows a cut changes
-- nothing. Offset and length of a frame that was parsed do not exceed 2 ^ 64, so that the data is
-- longer than what is cut off its start.
use mpquic_latency.Base.{
  ℕ, min, ltb, leb, ◌==◌, if◌then◌else◌, sub64, Bool, true, Option, none, some, List, [], ◌∷◌, ◌++◌,
  length,
}
use mpquic_latency.Wire.Frame.{StreamFrame}
use mpquic_latency.Session.StreamFramer.{take}
use mpquic_latency.Session.StreamFrameSorter.State.{
  ByteInterval, StreamFrameSorter, SorterError, max_stream_frame_sorter_gaps, queue_frame,
}
use mpquic_latency.Session.StreamFrameSorter.Search.{
  cut_old, GapSearch, find_gap, EndGap, EndGapSearch, search_end_gap, frame_end, cut_start,
  end_gap_end,
}

-- The frame, its end, and whether the slice is in range.
abbrev pub cut_length : ℕ → ℕ → StreamFrame → ℕ
cut_length end end_gap f = sub64 (length f.payload) (sub64 end end_gap)

abbrev pub cut_end : ℕ → ℕ → StreamFrame → StreamFrame
cut_end end end_gap f =
    if ltb end_gap end then record f { payload = take (cut_length end end_gap f) f.payload } else f

abbrev pub cut_in_range : ℕ → ℕ → StreamFrame → Bool
cut_in_range end end_gap f =
    if ltb end_gap end then leb (cut_length end end_gap f) (length f.payload) else true

-- The gaps from the first one to the one in which the frame ends, without the bytes of the frame.
unfoldable pub adjust_gaps : ℕ → ℕ → ByteInterval → EndGap → List ByteInterval
adjust_gaps start end gap EndGap.at_gap =
    if start == gap.start
    then (if leb gap.end end then [] else record { start = end; end = gap.end } ∷ [])
    else if end == gap.end
    then record { start = gap.start; end = start } ∷ []
    else record { start = gap.start; end = start } ∷ record { start = end; end = gap.end } ∷ []
adjust_gaps start end gap (EndGap.linked e) =
    if start == gap.start
    then (if leb gap.end end then [] else gap ∷ [])
      ++ (if ltb end e.end then record { start = end; end = e.end } else e) ∷ []
    else if end == e.end
    then record { start = gap.start; end = start } ∷ e ∷ []
    else record { start = gap.start; end = start } ∷ record { start = end; end = e.end } ∷ []
adjust_gaps start end gap (EndGap.removed e) =
    if start == gap.start
    then (if leb gap.end end then [] else gap ∷ [])
    else record { start = gap.start; end = start } ∷ []

abbrev pub PushResult : Type 0
PushResult = StreamFrameSorter × Option SorterError

abbrev pub refuse : SorterError → StreamFrameSorter → PushResult
refuse e s = (s, some e)

-- The gaps are counted after they have changed, before the frame is queued.
abbrev pub count_gaps : StreamFrame → StreamFrameSorter → PushResult
count_gaps f s =
    if ltb max_stream_frame_sorter_gaps (length s.gaps)
    then refuse SorterError.too_many_gaps s
    else (queue_frame f s, none)

abbrev pub with_gaps :
    List ByteInterval → (ℕ → Option StreamFrame) → StreamFrameSorter → StreamFrameSorter
with_gaps gaps queued s = record s { gaps = gaps; queued_frames = queued }

abbrev pub linked_gap : EndGap → List ByteInterval
linked_gap (EndGap.linked e) = e ∷ []
linked_gap _ = []

unfoldable pub fill :
    StreamFrameSorter
    → StreamFrame
    → ℕ
    → List ByteInterval
    → ByteInterval
    → EndGapSearch
    → PushResult
unfolding adjust_gaps
fill s f end before gap (EndGapSearch.unfound e queued) =
    refuse SorterError.no_end_gap_found (with_gaps (before ++ gap ∷ linked_gap e) queued s)
fill s f end before gap (EndGapSearch.stopped e after queued) =
    if cut_in_range end (end_gap_end gap e) f
    then count_gaps (cut_end end (end_gap_end gap e) f) (
        with_gaps (before ++ (adjust_gaps f.offset (min end (end_gap_end gap e)) gap e ++ after))
          queued s)
    else refuse SorterError.slice_out_of_range s

unfoldable pub push_into : StreamFrameSorter → StreamFrame → GapSearch → PushResult
unfolding fill search_end_gap
push_into s f GapSearch.duplicate = refuse SorterError.duplicate_stream_data s
push_into s f GapSearch.missed = refuse SorterError.no_gap_found s
push_into s f (GapSearch.found before gap after) =
    fill s (cut_start gap f) (frame_end f) before gap
      (search_end_gap (frame_end f) gap after s.queued_frames)

unfoldable pub push_rest : StreamFrameSorter → Option StreamFrame → PushResult
unfolding push_into find_gap
push_rest s none = refuse SorterError.duplicate_stream_data s
push_rest s (some f) = push_into s f (find_gap f.offset (frame_end f) s.gaps)

unfoldable pub push : StreamFrameSorter → StreamFrame → PushResult
unfolding push_rest cut_old
push s f =
    if length f.payload == 0
    then if f.fin_bit then (queue_frame f s, none) else refuse SorterError.empty_stream_data s
    else push_rest s (cut_old (s.queued_frames f.offset) f)
