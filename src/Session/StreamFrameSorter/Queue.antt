-- ===== src/Session/StreamFrameSorter/Queue.antt =====
-- The search for the last gap only deletes frames from the queue of the stream frame sorter.
use mpquic_latency.Base.{
  ℕ, ◌≡◌, refl, ltb, leb, ◌==◌, Bool-cases, ◌⊎◌, inl, inr, Option, none, List, [], ◌∷◌, arith,
}
use mpquic_latency.Wire.Frame.{StreamFrame}
use mpquic_latency.Session.StreamFrameSorter.State.{ByteInterval, delete_frame}
use mpquic_latency.Session.StreamFrameSorter.Search.{EndGapSearch, find_end_gap, search_end_gap}

-- The loops only delete queued frames.
abbrev pub Fewer : (ℕ → Option StreamFrame) → (ℕ → Option StreamFrame) → Type 0
Fewer queued queued' = (o : ℕ) → (queued' o ≡ queued o) ⊎ (queued' o ≡ none)

abbrev pub queue_of : EndGapSearch → ℕ → Option StreamFrame
queue_of (EndGapSearch.stopped _ _ queued) = queued
queue_of (EndGapSearch.unfound _ queued) = queued

Fewer-delete_frame :
    (offset : ℕ) (queued queued' : ℕ → Option StreamFrame)
    → Fewer (delete_frame offset queued) queued'
    → Fewer queued queued'
Fewer-delete_frame offset queued queued' h o = elim (Bool-cases (o == offset)) [
  | inl e ↦ ground (arith, h o)
  | inr e ↦ ground (arith, h o)
]

find_end_gap-Fewer :
    (end : ℕ) (gap : ByteInterval) (gs : List ByteInterval) (queued : ℕ → Option StreamFrame)
    → Fewer queued (queue_of (find_end_gap end gap gs queued))
unfolding find_end_gap
find_end_gap-Fewer end gap [] queued o = elim (Bool-cases (ltb end gap.end)) [
  | inl t ↦ rw t (inl refl)
  | inr f ↦ rw f (inl refl)
]
find_end_gap-Fewer end gap (next ∷ gs) queued o = elim (Bool-cases (ltb end gap.end)) [
  | inl t ↦ rw t (inl refl)
  | inr f ↦ elim (Bool-cases (leb end next.start)) [
    | inl t ↦ rw (f, t) (inl refl)
    | inr g ↦
        rw (f, g)
          (Fewer-delete_frame gap.end queued _
            (find_end_gap-Fewer end next gs (delete_frame gap.end queued)) o)
  ]
]

pub search_end_gap-Fewer :
    (end : ℕ) (gap : ByteInterval) (gs : List ByteInterval) (queued : ℕ → Option StreamFrame)
    → Fewer queued (queue_of (search_end_gap end gap gs queued))
unfolding search_end_gap
search_end_gap-Fewer end gap [] queued o = elim (Bool-cases (ltb end gap.end)) [
  | inl t ↦ rw t (inl refl)
  | inr f ↦ rw f (inl refl)
]
search_end_gap-Fewer end gap (next ∷ gs) queued o = elim (Bool-cases (ltb end gap.end)) [
  | inl t ↦ rw t (inl refl)
  | inr f ↦ elim (Bool-cases (leb end next.start)) [
    | inl t ↦ rw (f, t) (inl refl)
    | inr g ↦
        rw (f, g)
          (Fewer-delete_frame gap.end queued _
            (find_end_gap-Fewer end next gs (delete_frame gap.end queued)) o)
  ]
]
