-- ===== src/Session/StreamFrameSorter/Inv.antt =====
-- What holds of the stream frame sorter between its calls.
use mpquic_latency.Base.{
  ℕ, ◌+◌, ◌<◌, ◌≡◌, Bool, false, ◌&&◌, ltb, leb, Option, none, some, List, [], ◌∷◌, length,
}
use mpquic_latency.Wire.Frame.{StreamFrame}
use mpquic_latency.Session.StreamFrameSorter.State.{ByteInterval, StreamFrameSorter, max_byte_count}
use mpquic_latency.Session.StreamFrameSorter.Gaps.{Chain, missing}

-- The byte at p is one of the frame's.
abbrev pub covers : StreamFrame → ℕ → Bool
covers f p = leb f.offset p && ltb p (f.offset + length f.payload)

-- A queued frame has its offset as key, and none of its bytes is missing.
abbrev pub Received : List ByteInterval → ℕ → Option StreamFrame → Type 0
Received gaps o none = Unit
Received gaps o (some f) =
    (f.offset ≡ o)
    × (o + length f.payload < max_byte_count)
    × ((p : ℕ) → (missing p gaps && covers f p) ≡ false)

pub record IsValid (s : StreamFrameSorter) : Type 0 where
  pub ordered : Chain 0 s.gaps max_byte_count
  pub received : (o : ℕ) → Received s.gaps o (s.queued_frames o)

-- The bytes are those that the stream has from the offset on.
abbrev pub Matches : (ℕ → ℕ) → ℕ → List ℕ → Type 0
Matches content offset [] = Unit
Matches content offset (b ∷ bs) = (b ≡ content offset) × Matches content (offset + 1) bs

abbrev pub HoldsFrame : (ℕ → ℕ) → Option StreamFrame → Type 0
HoldsFrame content none = Unit
HoldsFrame content (some f) = Matches content f.offset f.payload

-- Every queued frame holds bytes of the stream.
abbrev pub Holds : (ℕ → ℕ) → StreamFrameSorter → Type 0
Holds content s = (o : ℕ) → HoldsFrame content (s.queued_frames o)

abbrev pub Fits : StreamFrame → Type 0
Fits f = f.offset + length f.payload < max_byte_count
