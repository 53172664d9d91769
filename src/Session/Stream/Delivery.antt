-- ===== src/Session/Stream/Delivery.antt =====
-- What Read returns is what the stream holds from the read offset on, in order, and Read ends.
use mpquic_latency.Base.{
  ℕ, zero, suc, ◌+◌, ◌-◌, ◌*◌, ◌^◌, ◌≤◌, ◌<◌, ◌≡◌, Bool, true, false, ◌&&◌, ◌||◌, ltb, leb, ◌==◌,
  if◌then◌else◌, Bool-cases, Option-cases, is_none, inl, inr, Option, none, some, List, [], ◌∷◌,
  ◌++◌, length, length-append, arith,
}
use mathlib.Core.Path.{subst}
use mpquic_latency.Wire.Frame.{StreamFrame}
use mpquic_latency.Session.StreamFrameSorter.State.{head}
use mpquic_latency.Session.StreamFrameSorter.Inv.{Matches}
use mpquic_latency.Session.StreamFrameSorter.Popped.{head-Received}
use mpquic_latency.Session.Stream.State.{Stream, StreamError}
use mpquic_latency.Session.Stream.Read.{
  ReadEnd, ReadResult, stop, stop_cancelled, read_more, pos_in_frame, copied, copy_out, all_copied,
  after_copy, read_frame, read_loop, enough_rounds, read,
}
use mpquic_latency.Session.Stream.Rounds.{
  IsReading, Delivers, phase, phase_of-le, stopped, length-copy_out, copy_out-Matches, copied_fits,
  after_copy-IsReading, after_copy-phase,
}

pub Matches-append :
    (content : ℕ → ℕ) (offset : ℕ) (xs ys : List ℕ)
    → Matches content offset xs
    → Matches content (offset + length xs) ys
    → Matches content offset (xs ++ ys)
Matches-append content offset [] ys m n =
    let e : offset + 0 ≡ offset = omega arith in subst (λ (o : ℕ). Matches content o ys) e n
Matches-append content offset (x ∷ xs) ys m n =
    let e : offset + suc (length xs) ≡ offset + 1 + length xs = omega arith in
    (
      m.0,
      Matches-append content (offset + 1) xs ys m.1 (subst (λ (o : ℕ). Matches content o ys) e n),
    )

Delivers-more :
    (content : ℕ → ℕ) (s s' : Stream) (left left' : ℕ) (out : List ℕ) (rest : ReadResult)
    → Matches content s.read_offset out
    → s'.read_offset ≡ s.read_offset + length out
    → left' + length out ≤ left
    → Delivers content s' left' rest
    → Delivers content s left (read_more out rest)
Delivers-more content s s' left left' out rest m ro le d = record {
  reading = d.reading;
  in_order =
      Matches-append content s.read_offset out rest.bytes m
        (subst (λ (o : ℕ). Matches content o rest.bytes) ro d.in_order);
  counted = omega (arith, d.counted, length-append out rest.bytes);
  within = omega (arith, d.within, length-append out rest.bytes);
  ends = d.ends;
}

module _ (content : ℕ → ℕ) (s : Stream) (h : IsReading content s) where
  cancelled-Delivers :
      (left : ℕ) (err : Option StreamError)
      → is_none err ≡ false
      → Delivers content s left (stop_cancelled err s)
  cancelled-Delivers left none e = absurd (ground arith)
  cancelled-Delivers left (some x) e = stopped content s h left _ tt

  module _ (now left : ℕ) (f : StreamFrame) (e : head s.frame_queue ≡ some f)
      (range : s.read_offset + left < 2 ^ 63) (rest : ReadResult)
      (more : pos_in_frame s f ≤ length f.payload
        → Delivers content (after_copy now left s f) (left - copied left s f) rest) where
    below_int : leb (2 ^ 63) (pos_in_frame s f) ≡ false
    below_int =
        let p : pos_in_frame s f ≤ s.read_offset =
          omega (arith, (head-Received s.frame_queue f e h.valid).0, h.behind) in
        ground arith

    fin_Delivers :
        pos_in_frame s f ≤ length f.payload
        → Delivers content s left (record {
          bytes = copy_out left s f;
          ending = ReadEnd.returned (some StreamError.eof);
          stream = record (after_copy now left s f) { finished_reading = true };
        })
    fin_Delivers reached =
        let (after, ro) = after_copy-IsReading content s h now left f e range reached in
        let len = length-copy_out content s h now left f e range reached in
        let fits = copied_fits content s h now left f e range reached in
        record {
          reading = record {
            valid = after.valid;
            holds = after.holds;
            behind = after.behind;
            with_error = after.with_error;
          };
          in_order = copy_out-Matches content s h now left f e range reached;
          counted = omega (arith, ro, len);
          within = omega (arith, fits, len);
          ends = tt;
        }

    more_Delivers :
        pos_in_frame s f ≤ length f.payload
        → Delivers content s left (read_more (copy_out left s f) rest)
    more_Delivers reached =
        let (after, ro) = after_copy-IsReading content s h now left f e range reached in
        let len = length-copy_out content s h now left f e range reached in
        let fits = copied_fits content s h now left f e range reached in
        Delivers-more content s (after_copy now left s f) left (left - copied left s f)
          (copy_out left s f) rest (copy_out-Matches content s h now left f e range reached)
          (omega (arith, ro, len)) (omega (arith, fits, len)) (more reached)

    read_frame-Delivers : Delivers content s left (read_frame now left s (some f) rest)
    unfolding read_frame
    read_frame-Delivers = elim (Bool-cases (ltb (length f.payload) (pos_in_frame s f))) [
      | inl t ↦ rw (below_int, t) (stopped content s h left _ tt)
      | inr n ↦ elim (Bool-cases (all_copied left s f && f.fin_bit)) [
        | inl t ↦ rw (below_int, n, t) (fin_Delivers (ground arith))
        | inr g ↦ rw (below_int, n, g) (more_Delivers (ground arith))
      ]
    ]

-- A round of the loop that stops, or comes to the frame at the head of the queue.
round-Delivers :
    (content : ℕ → ℕ) (late some_read : Bool) (left : ℕ) (s : Stream) (o : Option StreamFrame)
    (rest : ReadResult)
    → IsReading content s
    → (0 < left → Delivers content s left rest)
    → Delivers content s left (
        if left == 0
        then stop (ReadEnd.returned none) s
        else if is_none o && some_read
        then stop (ReadEnd.returned s.err) s
        else if s.reset_locally || s.cancelled
        then stop_cancelled s.err s
        else if late
        then stop (ReadEnd.returned (some StreamError.deadline_exceeded)) s
        else rest)
round-Delivers content late some_read left s o rest h d = elim (Bool-cases (left == 0)) [
  | inl t ↦ rw t (stopped content s h left _ tt)
  | inr pos ↦ elim (Bool-cases (is_none o && some_read)) [
    | inl t ↦ rw (pos, t) (stopped content s h left _ tt)
    | inr n ↦ elim (Bool-cases (s.reset_locally || s.cancelled)) [
      | inl t ↦ rw (pos, n, t) (cancelled-Delivers content s h left s.err (h.with_error t))
      | inr m ↦ elim (Bool-cases late) [
        | inl t ↦ rw (pos, n, m, t) (stopped content s h left _ tt)
        | inr early ↦ rw (pos, n, m, early) (d (ground arith))
      ]
    ]
  ]
]

-- A call of the loop with rounds enough for the bytes that are wanted.
read_loop-Delivers :
    (content : ℕ → ℕ) (clock : ℕ → ℕ) (late : Bool) (fuel left : ℕ) (some_read : Bool) (s : Stream)
    → IsReading content s
    → s.read_offset + left < 2 ^ 63
    → 3 * left + phase s < fuel
    → Delivers content s left (read_loop clock late fuel left some_read s)
unfolding read_loop
read_loop-Delivers content clock late zero left some_read s h range enough = absurd (omega arith)
read_loop-Delivers content clock late (suc fuel) left some_read s h range enough =
    round-Delivers content late some_read left s (head s.frame_queue) _ h λ pos.
      elim (Option-cases (head s.frame_queue)) [
        | inl e ↦ rw (e, read_frame) (stopped content s h left ReadEnd.waits tt)
        | inr (f, e) ↦ rw e (
            read_frame-Delivers content s h (clock fuel) left f e range _ λ reached.
              let (after, ro) =
                after_copy-IsReading content s h (clock fuel) left f e range reached in
              let fits = copied_fits content s h (clock fuel) left f e range reached in
              read_loop-Delivers content clock late fuel (left - copied left s f)
                (some_read || ltb 0 (copied left s f)) (after_copy (clock fuel) left s f) after
                (omega (arith, ro, fits))
                (omega
                  (arith, after_copy-phase content s h (clock fuel) left f e range reached pos)))
      ]

unless_finished :
    (content : ℕ → ℕ) (left : ℕ) (s : Stream) (done : Bool) (r : ReadResult)
    → IsReading content s
    → Delivers content s left r
    → Delivers content s left (if done then stop (ReadEnd.returned (some StreamError.eof)) s else r)
unless_finished content left s true r h d = stopped content s h left _ tt
unless_finished content left s false r h d = d

-- Read with at most left bytes, fewer than 2 ^ 63 in all, returns or waits: it does not panic and needs
-- no more than three rounds for a byte and three more. The bytes are those of the stream from the read
-- offset on, in order, which moves by as many.
pub read-Delivers :
    (content : ℕ → ℕ) (clock : ℕ → ℕ) (late : Bool) (left : ℕ) (s : Stream)
    → IsReading content s
    → s.read_offset + left < 2 ^ 63
    → Delivers content s left (read clock late left s)
unfolding read
read-Delivers content clock late left s h range =
    elim (Bool-cases (s.cancelled || s.reset_locally)) [
      | inl t ↦ rw t (stopped content s h left _ tt)
      | inr n ↦ rw n (
          unless_finished content left s s.finished_reading _ h (
            read_loop-Delivers content clock late (enough_rounds left) left false s h range (
              omega (
                arith,
                phase_of-le (s.frame_queue.read_position == s.read_offset) (head s.frame_queue),
              ))))
    ]
