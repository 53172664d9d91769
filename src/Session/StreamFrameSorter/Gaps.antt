-- ===== src/Session/StreamFrameSorter/Gaps.antt =====
-- The gaps of the stream frame sorter: they are in order, and filling them takes exactly the bytes of
-- the frame out of them.
use mpquic_latency.Base.{
  ℕ, ◌≤◌, ◌<◌, ◌≡◌, refl, Bool, false, ◌&&◌, ◌||◌, ltb, leb, if◌then◌else◌, lt→ltb, ltb→lt,
  Bool-cases, inl, inr, Option, List, [], ◌∷◌, ◌++◌, arith,
}
use mpquic_latency.Wire.Frame.{StreamFrame}
use mpquic_latency.Session.StreamFrameSorter.State.{ByteInterval, delete_frame}
use mpquic_latency.Session.StreamFrameSorter.Search.{EndGap, EndGapSearch, find_end_gap}

-- The gaps lie in order between lo and hi, are not empty, and the last one ends at hi.
abbrev pub Chain : ℕ → List ByteInterval → ℕ → Type 0
Chain lo [] hi = lo ≡ hi
Chain lo (g ∷ gs) hi = (lo ≤ g.start) × (g.start < g.end) × Chain g.end gs hi

abbrev pub inside : ℕ → ByteInterval → Bool
inside p g = leb g.start p && ltb p g.end

-- The byte at p is in a gap.
abbrev pub missing : ℕ → List ByteInterval → Bool
missing p [] = false
missing p (g ∷ gs) = inside p g || missing p gs

pub Chain-append :
    (lo mid hi : ℕ) (gs hs : List ByteInterval)
    → Chain lo gs mid
    → Chain mid hs hi
    → Chain lo (gs ++ hs) hi
Chain-append lo mid hi [] hs c d = rw c d
Chain-append lo mid hi (g ∷ gs) hs c d = (c.0, c.1, Chain-append g.end mid hi gs hs c.2 d)

pub Chain-weaken :
    (lo lo' hi : ℕ) (g : ByteInterval) (gs : List ByteInterval)
    → lo' ≤ lo
    → Chain lo (g ∷ gs) hi
    → Chain lo' (g ∷ gs) hi
Chain-weaken lo lo' hi g gs le c = (omega arith, c.1, c.2)

pub missing-append :
    (p : ℕ) (gs hs : List ByteInterval) → missing p (gs ++ hs) ≡ (missing p gs || missing p hs)
missing-append p [] hs = refl
missing-append p (g ∷ gs) hs = ground (arith, missing-append p gs hs)

pub missing_below :
    (p lo hi : ℕ) (gs : List ByteInterval) → Chain lo gs hi → p < lo → missing p gs ≡ false
missing_below p lo hi [] c lt = refl
missing_below p lo hi (g ∷ gs) c lt = ground (arith, missing_below p g.end hi gs c.2)

Chain-le : (lo hi : ℕ) (gs : List ByteInterval) → Chain lo gs hi → lo ≤ hi
Chain-le lo hi [] c = omega arith
Chain-le lo hi (g ∷ gs) c = omega (arith, Chain-le g.end hi gs c.2)

missing_above :
    (p lo hi : ℕ) (gs : List ByteInterval) → Chain lo gs hi → hi ≤ p → missing p gs ≡ false
missing_above p lo hi [] c le = refl
missing_above p lo hi (g ∷ gs) c le =
    ground (arith, missing_above p g.end hi gs c.2, Chain-le g.end hi gs c.2)

pub missing_outside :
    (p lo mid hi : ℕ) (gs hs : List ByteInterval)
    → Chain lo gs mid
    → Chain mid hs hi
    → missing p (gs ++ hs) ≡ (if ltb p mid then missing p gs else missing p hs)
missing_outside p lo mid hi gs hs c d =
    ground (arith, missing-append p gs hs, missing_above p lo mid gs c, missing_below p mid hi hs d)

module _ (end hi p from : ℕ) where
  -- What the loop stops with at a later gap, and the bytes that are left from the end of the frame on.
  abbrev pub Ended : List ByteInterval → EndGapSearch → Type 0
  Ended gs (EndGapSearch.stopped (EndGap.linked e) after _) =
      (e.start < end)
      × (end < e.end)
      × Chain e.end after hi
      × (missing p (record { start = end; end = e.end } ∷ after) ≡ (missing p gs && leb end p))
  Ended gs (EndGapSearch.stopped (EndGap.removed e) after _) =
      (from < e.end)
      × (e.end ≤ end)
      × Chain end after hi
      × (missing p after ≡ (missing p gs && leb end p))
  Ended gs _ = ⊥

  Ended-step :
      (cur next : ByteInterval) (gs : List ByteInterval) (r : EndGapSearch)
      → cur.end ≤ end
      → Ended (next ∷ gs) r
      → Ended (cur ∷ next ∷ gs) r
  Ended-step cur next gs (EndGapSearch.stopped (EndGap.linked e) after q) le d =
      (d.0, d.1, d.2, ground arith)
  Ended-step cur next gs (EndGapSearch.stopped (EndGap.removed e) after q) le d =
      (d.0, d.1, d.2, ground arith)
  Ended-step cur next gs (EndGapSearch.stopped EndGap.at_gap after q) le d = elim d [ ]
  Ended-step cur next gs (EndGapSearch.unfound e q) le d = elim d [ ]

  pub find_end_gap-Ended :
      (lo : ℕ) (cur : ByteInterval) (gs : List ByteInterval) (q : ℕ → Option StreamFrame)
      → end < hi
      → cur.start < end
      → from ≤ lo
      → Chain lo (cur ∷ gs) hi
      → Ended (cur ∷ gs) (find_end_gap end cur gs q)
  unfolding find_end_gap
  find_end_gap-Ended lo cur [] q lt within low c =
      rw (lt→ltb end cur.end (omega arith)) (within, omega arith, c.2, ground arith)
  find_end_gap-Ended lo cur (next ∷ gs) q lt within low c = elim (Bool-cases (ltb end cur.end)) [
    | inl t ↦ rw t (within, ltb→lt _ _ t, c.2, ground (arith, missing_below p next.end hi gs c.2.2))
    | inr f ↦ elim (Bool-cases (leb end next.start)) [
      | inl t ↦
          rw (f, t)
            (
              omega arith,
              ground arith,
              (ground arith, c.2.1, c.2.2),
              ground (arith, missing_below p next.end hi gs c.2.2),
            )
      | inr g ↦
          rw (f, g)
            (Ended-step cur next gs (find_end_gap end next gs (delete_frame cur.end q))
              (ground arith)
              (find_end_gap-Ended cur.end next gs (delete_frame cur.end q) lt (ground arith)
                (omega arith) c.2))
    ]
  ]
