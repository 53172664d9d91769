-- ===== src/Session/StreamFrameSorter/Search.antt =====
-- stream_frame_sorter.go: the loops of Push, which look for the gap that a frame starts in and for
-- the gap that it ends in.
use mpquic_latency.Base.{
  ℕ, ltb, leb, if◌then◌else◌, u64, sub64, ◌+◌, ◌&&◌, Option, none, some, List, [], ◌∷◌, length,
  drop,
}
use mpquic_latency.Wire.Frame.{StreamFrame}
use mpquic_latency.Session.StreamFrameSorter.State.{ByteInterval, delete_frame}

abbrev pub frame_end : StreamFrame → ℕ
frame_end f = u64 (f.offset + length f.payload)

-- What the frame at the same offset has already is cut off; no frame is left of a shorter one.
unfoldable pub cut_old : Option StreamFrame → StreamFrame → Option StreamFrame
cut_old none f = some f
cut_old (some old) f =
    if leb (length f.payload) (length old.payload)
    then none
    else some (record f {
      payload = drop (length old.payload) f.payload;
      offset = u64 (f.offset + length old.payload);
    })

-- The first gap that the frame reaches, with the gaps before and behind it.
pub data GapSearch : Type 0 where
  duplicate : GapSearch
  missed : GapSearch
  found : List ByteInterval → ByteInterval → List ByteInterval → GapSearch

abbrev pub skipped : ByteInterval → GapSearch → GapSearch
skipped g duplicate = duplicate
skipped g missed = missed
skipped g (found before gap after) = found (g ∷ before) gap after

unfoldable pub find_gap : ℕ → ℕ → List ByteInterval → GapSearch
find_gap start end [] = missed
find_gap start end (gap ∷ gaps) =
    if leb end gap.start
    then duplicate
    else if ltb gap.start end && leb start gap.end
    then found [] gap gaps
    else skipped gap (find_gap start end gaps)

abbrev pub cut_start : ByteInterval → StreamFrame → StreamFrame
cut_start gap f =
    if ltb f.offset gap.start
    then record f {
      offset = u64 (f.offset + sub64 gap.start f.offset);
      payload = drop (sub64 gap.start f.offset) f.payload;
    }
    else f

-- The gap in which the frame ends: the first one itself, a later one that is still in the list, or
-- one that was removed from it since the frame fills it.
pub data EndGap : Type 0 where
  at_gap : EndGap
  linked : ByteInterval → EndGap
  removed : ByteInterval → EndGap

abbrev pub end_gap_end : ByteInterval → EndGap → ℕ
end_gap_end gap at_gap = gap.end
end_gap_end gap (linked e) = e.end
end_gap_end gap (removed e) = e.end

pub data EndGapSearch : Type 0 where
  stopped : EndGap → List ByteInterval → (ℕ → Option StreamFrame) → EndGapSearch
  unfound : EndGap → (ℕ → Option StreamFrame) → EndGapSearch

-- The loop, at a later gap than the first one: a gap that the frame covers is removed.
unfoldable pub find_end_gap :
    ℕ → ByteInterval → List ByteInterval → (ℕ → Option StreamFrame) → EndGapSearch
find_end_gap end gap [] queued =
    if ltb end gap.end then stopped (linked gap) [] queued else unfound (linked gap) queued
find_end_gap end gap (next ∷ gaps) queued =
    let rest = find_end_gap end next gaps (delete_frame gap.end queued) in
    if ltb end gap.end
    then stopped (linked gap) (next ∷ gaps) queued
    else if leb end next.start
    then stopped (removed gap) (next ∷ gaps) queued
    else rest

-- The loop from its start, at the first gap, which stays in the list.
unfoldable pub search_end_gap :
    ℕ → ByteInterval → List ByteInterval → (ℕ → Option StreamFrame) → EndGapSearch
unfolding find_end_gap
search_end_gap end gap [] queued =
    if ltb end gap.end then stopped at_gap [] queued else unfound at_gap queued
search_end_gap end gap (next ∷ gaps) queued =
    if ltb end gap.end
    then stopped at_gap (next ∷ gaps) queued
    else if leb end next.start
    then stopped at_gap (next ∷ gaps) queued
    else find_end_gap end next gaps (delete_frame gap.end queued)
