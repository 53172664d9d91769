-- ===== src/Session/Stream/Runs.antt =====
-- What a stream returns over any sequence of calls.
use mpquic_latency.Base.{
  ℕ, ◌+◌, ◌^◌, ◌≤◌, ◌<◌, ◌≡◌, refl, Bool, true, false, ◌||◌, not, ltb, ◌==◌, if◌then◌else◌, is_none,
  Option, none, some, List, [], ◌∷◌, ◌++◌, All, length, length-append, arith,
}
use mathlib.Core.Path.{subst}
use mpquic_latency.Wire.Frame.{StreamFrame}
use mpquic_latency.Flowcontrol.Manager.{FlowControlError, FlowControlManager}
use mpquic_latency.Session.StreamFrameSorter.State.{max_byte_count}
use mpquic_latency.Session.StreamFrameSorter.Inv.{Matches, Fits}
use mpquic_latency.Session.StreamFrameSorter.Pushed.{push-Fills}
use mpquic_latency.Session.Stream.State.{
  Stream, StreamError, new_stream, add_stream_frame, queue_if_allowed, virtual_fin, close_remote,
  cancel, reset, register_remote_error, first_error, send_reset_if_due, should_send_reset,
  begin_write, get_data_for_writing, take_data, close, sent_fin,
}
use mpquic_latency.Session.Stream.Read.{ReadResult, read}
use mpquic_latency.Session.Stream.Rounds.{IsReading}
use mpquic_latency.Session.Stream.Delivery.{Matches-append, read-Delivers}

-- The calls of a stream. A Read comes with its clock and with whether its deadline has passed.
pub data Call : Type 0 where
  add : StreamFrame → Call
  read_up_to : ℕ → (ℕ → ℕ) → Bool → Call
  write : List ℕ → Call
  take_for_writing : ℕ → Call
  finish_writing : Call
  fin_was_sent : Call
  closed_by_peer : ℕ → Call
  cancel_with : StreamError → Call
  reset_with : StreamError → Call
  reset_by_peer : StreamError → Call

abbrev pub read_result : ReadResult → Stream × List ℕ
read_result r = (r.stream, r.bytes)

abbrev pub no_bytes : Stream → Stream × List ℕ
no_bytes s = (s, [])

-- The stream after a call, and the bytes that it returned.
unfoldable pub call : Call → Stream → Stream × List ℕ
unfolding read add_stream_frame begin_write get_data_for_writing close_remote cancel reset
    register_remote_error
call (add f) s = no_bytes (add_stream_frame f s).0
call (read_up_to n clock late) s = read_result (read clock late n s)
call (write p) s = no_bytes (begin_write p s).0
call (take_for_writing n) s = no_bytes (get_data_for_writing n s).0
call finish_writing s = no_bytes (close s)
call fin_was_sent s = no_bytes (sent_fin s)
call (closed_by_peer offset) s = no_bytes (close_remote offset s)
call (cancel_with e) s = no_bytes (cancel e s)
call (reset_with e) s = no_bytes (reset e s).0
call (reset_by_peer e) s = no_bytes (register_remote_error e s).0

unfoldable pub calls : List Call → Stream → Stream × List ℕ
unfolding call
calls [] s = (s, [])
calls (c ∷ cs) s = let (s', bs) = call c s in let (s'', rest) = calls cs s' in (s'', bs ++ rest)

-- What the peer sends belongs to the stream.
abbrev pub Belongs : (ℕ → ℕ) → Call → Type 0
Belongs content (add f) = Fits f × Matches content f.offset f.payload
Belongs content (closed_by_peer offset) = offset < max_byte_count
Belongs content _ = Unit

abbrev pub wanted : Call → ℕ
wanted (read_up_to n clock late) = n
wanted _ = 0

-- The most bytes that the calls can return.
abbrev pub all_wanted : List Call → ℕ
all_wanted [] = 0
all_wanted (c ∷ cs) = wanted c + all_wanted cs

first_error_set : (o : Option StreamError) (e : StreamError) → is_none (first_error o e) ≡ false
first_error_set none e = refl
first_error_set (some x) e = refl

-- A call goes on where the bytes that were read so far end.
pub record GoesOn (content : ℕ → ℕ) (s : Stream) (most : ℕ) (r : Stream × List ℕ) : Type 0 where
  pub reading : IsReading content r.0
  pub in_order : Matches content s.read_offset r.1
  pub counted : r.0.read_offset ≡ s.read_offset + length r.1
  pub within : length r.1 ≤ most

module _ (content : ℕ → ℕ) (s : Stream) (h : IsReading content s) where
  -- A call that leaves what is to be read alone.
  untouched :
      (s' : Stream)
      → s'.frame_queue ≡ s.frame_queue
      → s'.read_offset ≡ s.read_offset
      → ((s'.reset_locally || s'.cancelled) ≡ true → is_none s'.err ≡ false)
      → GoesOn content s 0 (no_bytes s')
  untouched s' q o e = record {
    reading = record {
      valid = rw q h.valid;
      holds = rw q h.holds;
      behind = rw (q, o) h.behind;
      with_error = e;
    };
    in_order = tt;
    counted = omega arith;
    within = omega arith;
  }

  pushed-GoesOn :
      (f : StreamFrame) (r : Option FlowControlError × FlowControlManager)
      → Fits f
      → Matches content f.offset f.payload
      → GoesOn content s 0 (no_bytes (queue_if_allowed s f r).0)
  pushed-GoesOn f (some e, manager) fits m = untouched _ refl refl h.with_error
  pushed-GoesOn f (none, manager) fits m =
      let d = push-Fills s.frame_queue h.valid f fits in
      record {
        reading = record {
          valid = d.valid;
          holds = d.kept content m h.holds;
          behind = omega (arith, d.still, h.behind);
          with_error = h.with_error;
        };
        in_order = tt;
        counted = omega arith;
        within = omega arith;
      }

  abbrev Harmless : Stream → Type 0
  Harmless s' = GoesOn content s 0 (no_bytes s')

  either_way :
      {R : Type 0} (test : Bool) (x y : Stream × R)
      → Harmless x.0
      → Harmless y.0
      → Harmless (if test then x else y).0
  either_way true x y p q = p
  either_way false x y p q = q

  unchanged : Harmless s
  unchanged = untouched s refl refl h.with_error

  begin_write-Harmless : (p : List ℕ) → Harmless (begin_write p s).0
  unfolding begin_write
  begin_write-Harmless p = either_way (s.reset_locally || not (is_none s.err)) _ _ unchanged (
      either_way s.finished_writing _ _ unchanged
        (either_way (length p == 0) _ _ unchanged (untouched _ refl refl h.with_error)))

  take_data-Harmless : (n : ℕ) (waiting : Option (List ℕ)) → Harmless (take_data n s waiting).0
  take_data-Harmless n none = unchanged
  take_data-Harmless n (some bs) =
      either_way (ltb n (length bs)) _ _ (untouched _ refl refl h.with_error)
        (untouched _ refl refl h.with_error)

  get_data_for_writing-Harmless : (n : ℕ) → Harmless (get_data_for_writing n s).0
  unfolding get_data_for_writing
  get_data_for_writing-Harmless n =
      either_way (is_none s.err) _ _ (take_data-Harmless n s.data_for_writing) unchanged

  send_reset-Harmless :
      (s' : Stream)
      → s'.frame_queue ≡ s.frame_queue
      → s'.read_offset ≡ s.read_offset
      → is_none s'.err ≡ false
      → Harmless (send_reset_if_due s').0
  send_reset-Harmless s' q o e =
      either_way (should_send_reset s')
        (record s' { rst_sent = true }, some (s'.stream_id, s'.write_offset)) (s', none)
        (untouched (record s' { rst_sent = true }) q o (λ _. e)) (untouched s' q o (λ _. e))

  reset-Harmless : (e : StreamError) → Harmless (reset e s).0
  unfolding reset
  reset-Harmless e =
      let s' : Stream = record s { reset_locally = true; err = first_error s.err e } in
      either_way s.reset_locally (s, none) (send_reset_if_due s') unchanged
        (send_reset-Harmless s' refl refl (first_error_set s.err e))

  register_remote_error-Harmless : (e : StreamError) → Harmless (register_remote_error e s).0
  unfolding register_remote_error
  register_remote_error-Harmless e =
      let s' : Stream = record s { reset_remotely = true; err = first_error s.err e } in
      either_way s.reset_remotely (s, none) (send_reset_if_due s') unchanged
        (send_reset-Harmless s' refl refl (first_error_set s.err e))

  call-GoesOn :
      (c : Call)
      → Belongs content c
      → s.read_offset + wanted c < 2 ^ 63
      → GoesOn content s (wanted c) (call c s)
  unfolding call
  call-GoesOn (add f) b range = unfold add_stream_frame in pushed-GoesOn f _ b.0 b.1
  call-GoesOn (read_up_to n clock late) b range =
      let d = read-Delivers content clock late n s h range in
      record { reading = d.reading; in_order = d.in_order; counted = d.counted; within = d.within }
  call-GoesOn (write p) b range = begin_write-Harmless p
  call-GoesOn (take_for_writing n) b range = get_data_for_writing-Harmless n
  call-GoesOn finish_writing b range = untouched _ refl refl h.with_error
  call-GoesOn fin_was_sent b range = untouched _ refl refl h.with_error
  call-GoesOn (closed_by_peer offset) b range =
      unfold close_remote in pushed-GoesOn (virtual_fin offset) _ (omega arith) tt
  call-GoesOn (cancel_with e) b range =
      unfold cancel in untouched _ refl refl (λ _. first_error_set s.err e)
  call-GoesOn (reset_with e) b range = reset-Harmless e
  call-GoesOn (reset_by_peer e) b range = register_remote_error-Harmless e

-- The stream from a state on.
calls-GoesOn :
    (content : ℕ → ℕ) (cs : List Call) (s : Stream)
    → IsReading content s
    → All (Belongs content) cs
    → s.read_offset + all_wanted cs < 2 ^ 63
    → GoesOn content s (all_wanted cs) (calls cs s)
unfolding calls
calls-GoesOn content [] s h b range = untouched content s h s refl refl h.with_error
calls-GoesOn content (c ∷ cs) s h b range =
    let first = call-GoesOn content s h c b.0 (omega arith) in
    let rest =
      calls-GoesOn content cs (call c s).0 first.reading b.1
        (omega (arith, first.counted, first.within)) in
    record {
      reading = rest.reading;
      in_order =
          Matches-append content s.read_offset (call c s).1 (calls cs (call c s).0).1 first.in_order
            (subst (λ (o : ℕ). Matches content o (calls cs (call c s).0).1) first.counted
              rest.in_order);
      counted = omega (
        arith,
        first.counted,
        rest.counted,
        length-append (call c s).1 (calls cs (call c s).0).1,
      );
      within =
          omega (
            arith,
            first.within,
            rest.within,
            length-append (call c s).1 (calls cs (call c s).0).1,
          );
    }

-- After any sequence of calls on a new stream, in which the frames hold bytes of the stream in any order,
-- whole, in part or more than once, below the largest offset, and fewer than 2 ^ 63 bytes are asked
-- for, what the calls of Read returned is the beginning of the stream, as far as the read offset.
pub calls-read_the_stream :
    (content : ℕ → ℕ) (id : ℕ) (manager : FlowControlManager) (cs : List Call)
    → All (Belongs content) cs
    → all_wanted cs < 2 ^ 63
    → Matches content 0 (calls cs (new_stream id manager)).1
      × ((calls cs (new_stream id manager)).0.read_offset
          ≡ length (calls cs (new_stream id manager)).1)
calls-read_the_stream content id manager cs b range =
    let h : IsReading content (new_stream id manager) = record {
      valid = record { ordered = (omega arith); received = λ _. tt };
      holds = λ _. tt;
      behind = omega arith;
      with_error = λ e. absurd (ground arith);
    } in
    let d = calls-GoesOn content cs (new_stream id manager) h b (omega arith) in
    (d.in_order, omega (arith, d.counted))
