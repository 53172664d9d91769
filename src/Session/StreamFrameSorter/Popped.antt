-- ===== src/Session/StreamFrameSorter/Popped.antt =====
-- What Pop does to the stream frame sorter, on the frame that Head gives.
use mpquic_latency.Base.{
  ℕ, ◌+◌, ◌≡◌, refl, ◌==◌, u64, Bool-cases, inl, inr, true, none, some, ==_iff, List, length, arith,
}
use mpquic_latency.Wire.Frame.{StreamFrame}
use mpquic_latency.Session.StreamFrameSorter.State.{
  ByteInterval, StreamFrameSorter, delete_frame, head, pop,
}
use mpquic_latency.Session.StreamFrameSorter.Inv.{Received, IsValid, Matches, HoldsFrame, Holds}

module _ (s : StreamFrameSorter) (f : StreamFrame) (e : head s ≡ some f) where
  pub head-Received : IsValid s → Received s.gaps s.read_position (some f)
  head-Received v = rw e at (v.received s.read_position)

  pub head-Holds : (content : ℕ → ℕ) → Holds content s → Matches content f.offset f.payload
  head-Holds content h = rw e at (h s.read_position)

  deleted_Received :
      (gaps : List ByteInterval) (offset o : ℕ)
      → Received gaps o (s.queued_frames o)
      → Received gaps o (delete_frame offset s.queued_frames o)
  deleted_Received gaps offset o r = elim (Bool-cases (o == offset)) [
    | inl t ↦ rw t tt
    | inr n ↦ rw n r
  ]

  deleted_Holds :
      (content : ℕ → ℕ) (offset o : ℕ)
      → HoldsFrame content (s.queued_frames o)
      → HoldsFrame content (delete_frame offset s.queued_frames o)
  deleted_Holds content offset o r = elim (Bool-cases (o == offset)) [
    | inl t ↦ rw t tt
    | inr n ↦ rw n r
  ]

  pub pop-IsValid : IsValid s → IsValid (pop s).0
  unfolding pop
  pop-IsValid v = rw e (record {
    ordered = v.ordered;
    received = λ o. deleted_Received s.gaps f.offset o (v.received o);
  })

  pub pop-Holds : (content : ℕ → ℕ) → Holds content s → Holds content (pop s).0
  unfolding pop
  pop-Holds content h = rw e (λ o. deleted_Holds content f.offset o (h o))

  pub pop-read_position : IsValid s → (pop s).0.read_position ≡ s.read_position + length f.payload
  unfolding pop
  pop-read_position v = rw e (omega (arith, (head-Received v).1))

  -- An empty frame is gone afterwards, and no other one has its offset.
  pub head-pop_empty : IsValid s → length f.payload ≡ 0 → head (pop s).0 ≡ none
  unfolding pop
  head-pop_empty v z =
      let at_head : (u64 (s.read_position + length f.payload) == f.offset) ≡ true =
        (==_iff _ _).1 (omega (arith, head-Received v)) in
      rw e (rw at_head refl)
