-- ===== src/Session/StreamFrameSorter/Located.antt =====
-- The gap that Push of the stream frame sorter looks for first.
use mpquic_latency.Base.{
  ℕ, ◌≤◌, ◌<◌, ◌≡◌, refl, false, ◌&&◌, ◌||◌, ltb, leb, Bool-cases, inl, inr, List, [], ◌∷◌, arith,
}
use mpquic_latency.Session.StreamFrameSorter.State.{ByteInterval}
use mpquic_latency.Session.StreamFrameSorter.Search.{GapSearch, find_gap, skipped}
use mpquic_latency.Session.StreamFrameSorter.Gaps.{Chain, missing, missing_below}

module _ (start end hi p : ℕ) (lt : start < end) (bound : end < hi) where
  -- What the first loop finds in gaps in order.
  abbrev pub Located : ℕ → List ByteInterval → GapSearch → Type 0
  Located lo gs GapSearch.duplicate = (missing p gs && (leb start p && ltb p end)) ≡ false
  Located lo gs GapSearch.missed = ⊥
  Located lo gs (GapSearch.found before gap after) =
      (mid : ℕ) × (Chain lo before mid)
      × (Chain mid (gap ∷ after) hi)
      × (gap.start < end)
      × (start ≤ gap.end)
      × (missing p gs ≡ (missing p before || missing p (gap ∷ after)))
      × ((missing p before && (leb start p && ltb p end)) ≡ false)

  Located-skipped :
      (lo : ℕ) (g : ByteInterval) (gs : List ByteInterval) (r : GapSearch)
      → lo ≤ g.start
      → g.start < g.end
      → g.end < start
      → Located g.end gs r
      → Located lo (g ∷ gs) (skipped g r)
  Located-skipped lo g gs GapSearch.duplicate low pos out d = ground arith
  Located-skipped lo g gs GapSearch.missed low pos out d = d
  Located-skipped lo g gs (GapSearch.found before gap after) low pos out d =
      (d.0, (low, pos, d.1), d.2, d.3, d.4, ground arith, ground arith)

  pub find_gap-Located :
      (lo : ℕ) (gs : List ByteInterval)
      → lo ≤ start
      → Chain lo gs hi
      → Located lo gs (find_gap start end gs)
  unfolding find_gap
  find_gap-Located lo [] low c = omega arith
  find_gap-Located lo (g ∷ gs) low c = elim (Bool-cases (leb end g.start)) [
    | inl t ↦ rw t (ground (arith, missing_below p g.end hi gs c.2))
    | inr f ↦ elim (Bool-cases (ltb g.start end && leb start g.end)) [
      | inl t ↦ rw (f, t) (lo, refl, c, ground arith, ground arith, refl, refl)
      | inr n ↦
          rw (f, n)
            (Located-skipped lo g gs (find_gap start end gs) c.0 c.1 (ground arith)
              (find_gap-Located g.end gs (ground arith) c.2))
    ]
  ]
