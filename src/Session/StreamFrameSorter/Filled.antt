-- ===== src/Session/StreamFrameSorter/Filled.antt =====
-- The gaps of the stream frame sorter after the bytes of a frame were taken out of them.
use mpquic_latency.Base.{
  ℕ, ◌≤◌, ◌<◌, ◌≡◌, false, not, ◌&&◌, ◌||◌, ltb, leb, ◌==◌, if◌then◌else◌, min, lt→ltb, ◌∙◌, ltb→lt,
  Bool-cases, ◌⊎◌, inl, inr, Option, List, [], ◌∷◌, ◌++◌, arith,
}
use mathlib.Core.List.{append-nil, append_assoc}
use mpquic_latency.Wire.Frame.{StreamFrame}
use mpquic_latency.Session.StreamFrameSorter.State.{ByteInterval, delete_frame}
use mpquic_latency.Session.StreamFrameSorter.Search.{
  EndGap, EndGapSearch, search_end_gap, end_gap_end,
}
use mpquic_latency.Session.StreamFrameSorter.Push.{adjust_gaps}
use mpquic_latency.Session.StreamFrameSorter.Gaps.{
  Chain, missing, missing_below, Ended, find_end_gap-Ended,
}

module _ (start end : ℕ) (gap : ByteInterval) where
  -- What is left of the first gap before the frame.
  cut_before : List ByteInterval
  cut_before = if start == gap.start then [] else record { start = gap.start; end = start } ∷ []

  adjust_gaps-linked :
      (e : ByteInterval)
      → gap.end ≤ end
      → end < e.end
      → adjust_gaps start (min end e.end) gap (EndGap.linked e)
        ≡ cut_before ++ record { start = end; end = e.end } ∷ []
  unfolding adjust_gaps cut_before
  adjust_gaps-linked e le lt = let m : min end e.end ≡ end = omega arith in rw m (ground arith)

  adjust_gaps-removed :
      (e : ByteInterval)
      → gap.end ≤ e.end
      → e.end ≤ end
      → adjust_gaps start (min end e.end) gap (EndGap.removed e) ≡ cut_before
  unfolding adjust_gaps cut_before
  adjust_gaps-removed e le lt = let m : min end e.end ≡ e.end = omega arith in rw m (ground arith)

  adjust_gaps-at_gap :
      start ≤ gap.end
      → adjust_gaps start (min end gap.end) gap EndGap.at_gap
        ≡ cut_before ++ (if ltb end gap.end then record { start = end; end = gap.end } ∷ [] else [])
  unfolding adjust_gaps cut_before
  adjust_gaps-at_gap to = elim (Bool-cases (ltb end gap.end)) [
    | inl t ↦
        let m : min end gap.end ≡ end = omega (arith, ltb→lt end gap.end t) in
        rw (t, m) (ground arith)
    | inr f ↦ let m : min end gap.end ≡ gap.end = ground arith in rw (f, m) (ground arith)
  ]

  module _ (hi p : ℕ) where
    -- The gaps without the bytes of the frame, from the gap on that the frame reaches first.
    abbrev pub Filled : ℕ → List ByteInterval → EndGapSearch → Type 0
    Filled lo gs (EndGapSearch.stopped e after _) =
        (start ≤ end_gap_end gap e)
        × (Chain lo (adjust_gaps start (min end (end_gap_end gap e)) gap e ++ after) hi)
        × (missing p (adjust_gaps start (min end (end_gap_end gap e)) gap e ++ after)
            ≡ (missing p gs && not (leb start p && ltb p end)))
    Filled lo gs (EndGapSearch.unfound _ _) = ⊥

    module _ (lo : ℕ) (pos : gap.start < gap.end) (low : lo ≤ gap.start) (from : gap.start ≤ start)
        (to : start ≤ gap.end) (lt : start < end) (bound : end < hi) where
      Chain-cut_before : (xs : List ByteInterval) → Chain end xs hi → Chain lo (cut_before ++ xs) hi
      unfolding cut_before
      Chain-cut_before [] c = absurd (omega arith)
      Chain-cut_before (x ∷ xs) c = ground arith

      missing-cut_before :
          (xs : List ByteInterval)
          → missing p (cut_before ++ xs) ≡ ((leb gap.start p && ltb p start) || missing p xs)
      unfolding cut_before
      missing-cut_before xs = ground arith

      at_gap_fills :
          (gs : List ByteInterval) (q : ℕ → Option StreamFrame)
          → Chain gap.end gs hi
          → (end < gap.end) ⊎ ((gap.end ≤ end) × (Chain end gs hi))
          → Filled lo (gap ∷ gs) (EndGapSearch.stopped EndGap.at_gap gs q)
      at_gap_fills gs q c (inl d) =
          rw
            (
              adjust_gaps-at_gap to,
              lt→ltb end gap.end d,
              append_assoc cut_before (record { start = end; end = gap.end } ∷ []) gs,
            )
            (
              to,
              Chain-cut_before (record { start = end; end = gap.end } ∷ gs) (omega arith, d, c),
              missing-cut_before (record { start = end; end = gap.end } ∷ gs)
                  ∙ ground (arith, missing_below p gap.end hi gs c),
            )
      at_gap_fills gs q c (inr d) =
          let f : ltb end gap.end ≡ false = ground arith in
          rw (adjust_gaps-at_gap to, f, append-nil cut_before)
            (
              to,
              Chain-cut_before gs d.1,
              missing-cut_before gs
                  ∙ ground (arith, missing_below p gap.end hi gs c, missing_below p end hi gs d.1),
            )

      linked_fills :
          (gs : List ByteInterval) (r : EndGapSearch)
          → gap.end ≤ end
          → Chain gap.end gs hi
          → Ended end hi p gap.end gs r
          → Filled lo (gap ∷ gs) r
      linked_fills gs (EndGapSearch.stopped (EndGap.linked e) after q) le c d =
          rw
            (
              adjust_gaps-linked e le d.1,
              append_assoc cut_before (record { start = end; end = e.end } ∷ []) after,
            )
            (
              omega arith,
              Chain-cut_before (record { start = end; end = e.end } ∷ after)
                  (omega arith, d.1, d.2),
              missing-cut_before (record { start = end; end = e.end } ∷ after)
                  ∙ ground (arith, missing_below p gap.end hi gs c),
            )
      linked_fills gs (EndGapSearch.stopped (EndGap.removed e) after q) le c d =
          rw (adjust_gaps-removed e (omega arith) d.1) (
            omega arith,
            Chain-cut_before after d.2,
            missing-cut_before after ∙ ground (arith, missing_below p gap.end hi gs c),
          )
      linked_fills gs (EndGapSearch.stopped EndGap.at_gap after q) le c d = elim d [ ]
      linked_fills gs (EndGapSearch.unfound e q) le c d = elim d [ ]

      pub search_end_gap-Filled :
          (gs : List ByteInterval) (q : ℕ → Option StreamFrame)
          → Chain gap.end gs hi
          → gap.start < end
          → Filled lo (gap ∷ gs) (search_end_gap end gap gs q)
      unfolding search_end_gap
      search_end_gap-Filled [] q c within =
          rw (lt→ltb end gap.end (omega arith)) (at_gap_fills [] q c (inl (omega arith)))
      search_end_gap-Filled (next ∷ gs) q c within = elim (Bool-cases (ltb end gap.end)) [
        | inl t ↦ rw t (at_gap_fills (next ∷ gs) q c (inl (ltb→lt _ _ t)))
        | inr f ↦ elim (Bool-cases (leb end next.start)) [
          | inl t ↦
              rw (f, t)
                (at_gap_fills (next ∷ gs) q c (inr (ground arith, (ground arith, c.1, c.2))))
          | inr g ↦
              rw (f, g)
                (linked_fills (next ∷ gs) _ (ground arith) c (
                  find_end_gap-Ended end hi p gap.end gap.end next gs (delete_frame gap.end q) bound
                    (ground arith) (omega arith) c))
        ]
      ]
