-- ===== src/Session/Stream/Rounds.antt =====
-- One round of Read: what it copies is what the stream holds from the read offset on.
use mpquic_latency.Base.{
  ℕ, ◌+◌, ◌-◌, ◌*◌, ◌^◌, ◌≤◌, ◌<◌, ◌≡◌, refl, Bool, true, false, ◌||◌, ◌==◌, if◌then◌else◌, u64,
  leb→le, Bool-cases, ==_iff, is_none, inl, inr, Option, none, some, length, drop, arith,
}
use mathlib.Core.Path.{subst}
use mpquic_latency.Wire.Frame.{StreamFrame}
use mpquic_latency.Session.StreamFramer.Content.{length-take}
use mpquic_latency.Session.StreamFrameSorter.State.{head, pop}
use mpquic_latency.Session.StreamFrameSorter.Inv.{IsValid, Matches, Holds}
use mpquic_latency.Session.StreamFrameSorter.Cuts.{length-drop, Matches-drop, Matches-take}
use mpquic_latency.Session.StreamFrameSorter.Popped.{
  head-Received, head-Holds, pop-IsValid, pop-Holds, pop-read_position, head-pop_empty,
}
use mpquic_latency.Session.Stream.State.{Stream}
use mpquic_latency.Session.Stream.Read.{
  ReadEnd, ReadResult, stop, pos_in_frame, copied, copy_out, all_copied, after_copy,
}

-- The queue holds the stream's bytes, and what has been read of the frame at its head is behind the
-- read offset.
pub record IsReading (content : ℕ → ℕ) (s : Stream) : Type 0 where
  pub valid : IsValid s.frame_queue
  pub holds : Holds content s.frame_queue
  pub behind : s.frame_queue.read_position ≤ s.read_offset
  pub with_error : (s.reset_locally || s.cancelled) ≡ true → is_none s.err ≡ false

-- Read returns or waits: it does not panic and does not run out of rounds.
abbrev pub EndsWell : ReadEnd → Type 0
EndsWell (ReadEnd.returned e) = Unit
EndsWell ReadEnd.waits = Unit
EndsWell _ = ⊥

pub record Delivers (content : ℕ → ℕ) (s : Stream) (left : ℕ) (r : ReadResult) : Type 0 where
  pub reading : IsReading content r.stream
  pub in_order : Matches content s.read_offset r.bytes
  pub counted : r.stream.read_offset ≡ s.read_offset + length r.bytes
  pub within : length r.bytes ≤ left
  pub ends : EndsWell r.ending

-- How many rounds may go by without a byte: one for the rest of a frame, and one for an empty frame.
abbrev pub phase_of : Bool → Option StreamFrame → ℕ
phase_of at_start none = 0
phase_of at_start (some f) = if at_start then 1 else 2

abbrev pub phase : Stream → ℕ
phase s = phase_of (s.frame_queue.read_position == s.read_offset) (head s.frame_queue)

pub phase_of-le : (b : Bool) (o : Option StreamFrame) → phase_of b o ≤ 2
phase_of-le b none = omega arith
phase_of-le true (some f) = omega arith
phase_of-le false (some f) = omega arith

phase_of_start : (o : Option StreamFrame) → phase_of true o ≤ 1
phase_of_start none = omega arith
phase_of_start (some f) = omega arith

phase_of_at : (x y : ℕ) (o : Option StreamFrame) → x ≡ y → phase_of (x == y) o ≤ 1
phase_of_at x y o h = rw ((==_iff x y).1 h) (phase_of_start o)

module _ (content : ℕ → ℕ) (s : Stream) (h : IsReading content s) where
  pub stopped : (left : ℕ) (e : ReadEnd) → EndsWell e → Delivers content s left (stop e s)
  stopped left e w = record {
    reading = h;
    in_order = tt;
    counted = omega arith;
    within = omega arith;
    ends = w;
  }

  module _ (now left : ℕ) (f : StreamFrame) (e : head s.frame_queue ≡ some f)
      (range : s.read_offset + left < 2 ^ 63) (reached : pos_in_frame s f ≤ length f.payload) where
    start : f.offset ≡ s.frame_queue.read_position
    start = (head-Received s.frame_queue f e h.valid).0

    pub pos_in_frame_lem : pos_in_frame s f + f.offset ≡ s.read_offset
    pos_in_frame_lem = omega (arith, start, h.behind)

    pub length-copy_out : length (copy_out left s f) ≡ copied left s f
    length-copy_out =
        length-take (copied left s f) (drop (pos_in_frame s f) f.payload)
          (omega (arith, length-drop (pos_in_frame s f) f.payload))

    pub copy_out-Matches : Matches content s.read_offset (copy_out left s f)
    copy_out-Matches =
        let e' : f.offset + pos_in_frame s f ≡ s.read_offset = omega (arith, pos_in_frame_lem) in
        Matches-take content (copied left s f) s.read_offset (drop (pos_in_frame s f) f.payload) (
          subst (λ (o : ℕ). Matches content o (drop (pos_in_frame s f) f.payload)) e'
            (Matches-drop content (pos_in_frame s f) f.offset f.payload
              (head-Holds s.frame_queue f e content h.holds)))

    pub copied_fits :
        (copied left s f ≤ left)
        × (s.read_offset + copied left s f < 2 ^ 63)
        × (pos_in_frame s f + copied left s f ≤ length f.payload)
    copied_fits = (omega arith, omega arith, omega arith)

    popped_position :
        all_copied left s f ≡ true
        → (pop s.frame_queue).0.read_position ≡ s.read_offset + copied left s f
    popped_position t = omega (
      arith,
      pop-read_position s.frame_queue f e h.valid,
      start,
      pos_in_frame_lem,
      copied_fits,
      leb→le _ _ t,
    )

    pub after_copy-IsReading :
        IsReading content (after_copy now left s f)
        × ((after_copy now left s f).read_offset ≡ s.read_offset + copied left s f)
    after_copy-IsReading = elim (Bool-cases (all_copied left s f)) [
      | inl t ↦ rw t (
        record {
          valid = pop-IsValid s.frame_queue f e h.valid;
          holds = pop-Holds s.frame_queue f e content h.holds;
          behind = omega (arith, popped_position t, copied_fits);
          with_error = h.with_error;
        },
        omega (arith, copied_fits),
      )
      | inr n ↦ rw n (
        record {
          valid = h.valid;
          holds = h.holds;
          behind = omega (arith, h.behind, copied_fits);
          with_error = h.with_error;
        },
        omega (arith, copied_fits),
      )
    ]

    -- A frame at the head leaves a round or two without a byte.
    phase-pos : 1 ≤ phase s
    phase-pos = rw e (ground arith)

    phase_within_frame : 0 < pos_in_frame s f → phase s ≡ 2
    phase_within_frame lt =
        let moved : (s.frame_queue.read_position == s.read_offset) ≡ false =
          ground (arith, pos_in_frame_lem, start) in
        rw (e, moved) refl

    phase_after : all_copied left s f ≡ true → ℕ
    phase_after t =
        phase_of ((pop s.frame_queue).0.read_position == u64 (s.read_offset + copied left s f))
          (head (pop s.frame_queue).0)

    phase_after-le : (t : all_copied left s f ≡ true) → phase_after t ≤ 1
    unfolding phase_after
    phase_after-le t =
        phase_of_at _ _ (head (pop s.frame_queue).0) (omega (arith, popped_position t, copied_fits))

    phase_after_empty : (t : all_copied left s f ≡ true) → length f.payload ≡ 0 → phase_after t ≡ 0
    unfolding phase_after
    phase_after_empty t z = rw (head-pop_empty s.frame_queue f e h.valid z) refl

    popped-phase :
        (t : all_copied left s f ≡ true)
        → 0 < left
        → 3 * (left - copied left s f) + phase_after t < 3 * left + phase s
    popped-phase t lt = elim (Bool-cases (length f.payload == 0)) [
      | inl z ↦ omega (arith, phase-pos, phase_after_empty t ((==_iff (length f.payload) 0).0 z))
      | inr y ↦ elim (Bool-cases (pos_in_frame s f == 0)) [
        | inl a ↦ omega (arith, phase_after-le t, (==_iff (pos_in_frame s f) 0).0 a, not_empty y)
        | inr b ↦ omega (arith, phase_after-le t, phase_within_frame (ground arith))
      ]
    ]
      where
        not_empty : (length f.payload == 0) ≡ false → 0 < length f.payload
        not_empty y = ground arith

    copied_all : all_copied left s f ≡ false → copied left s f ≡ left
    copied_all n = ground arith

    pub after_copy-phase :
        0 < left
        → 3 * (left - copied left s f) + phase (after_copy now left s f) < 3 * left + phase s
    after_copy-phase lt = elim (Bool-cases (all_copied left s f)) [
      | inl t ↦ unfold phase_after in rw t (popped-phase t lt)
      | inr n ↦ rw n (
          omega (
            arith,
            phase_of-le (s.frame_queue.read_position == u64 (s.read_offset + copied left s f))
                (head s.frame_queue),
            copied_all n,
          ))
    ]
