-- ===== src/Session/Stream/Read.antt =====
-- stream.go: Read. Nothing else happens to the stream between its rounds; the clock gives the time of
-- each round, and the deadline has passed from the start or not at all.
use mpquic_latency.Base.{
  ℕ, zero, suc, ◌+◌, ◌-◌, ◌*◌, ◌^◌, min, ltb, leb, ◌==◌, if◌then◌else◌, u64, sub64, Bool, true,
  false, ◌&&◌, ◌||◌, is_none, Option, none, some, List, [], ◌++◌, length, drop,
}
use mpquic_latency.Wire.Frame.{StreamFrame}
use mpquic_latency.Flowcontrol.Manager.{add_stream_bytes_read}
use mpquic_latency.Session.StreamFramer.{take}
use mpquic_latency.Session.StreamFrameSorter.State.{head, pop}
use mpquic_latency.Session.Stream.State.{Stream, StreamError}

-- How a call of Read ends: it returns, with an error or not, it waits for a frame, it panics, it goes
-- on although it was cancelled with a nil error, or the fuel of the model has run out.
pub data ReadEnd : Type 0 where
  returned : Option StreamError → ReadEnd
  waits : ReadEnd
  panicked : ReadEnd
  cancelled_without_error : ReadEnd
  out_of_fuel : ReadEnd

pub record ReadResult : Type 0 where
  pub bytes : List ℕ
  pub ending : ReadEnd
  pub stream : Stream

abbrev pub stop : ReadEnd → Stream → ReadResult
stop ending s = record { bytes = []; ending = ending; stream = s }

abbrev pub stop_cancelled : Option StreamError → Stream → ReadResult
stop_cancelled none s = stop ReadEnd.cancelled_without_error s
stop_cancelled (some e) s = stop (ReadEnd.returned (some e)) s

abbrev pub read_more : List ℕ → ReadResult → ReadResult
read_more bs r = record r { bytes = bs ++ r.bytes }

-- The bytes that are copied count as read, unless the stream was reset by the peer.
abbrev pub count_read : ℕ → ℕ → Stream → Stream
count_read now m s = record s {
  read_offset = u64 (s.read_offset + m);
  flow_control_manager =
      if s.reset_remotely
      then s.flow_control_manager
      else (add_stream_bytes_read now s.stream_id m s.flow_control_manager).1;
}

abbrev pub pop_queue : Stream → Stream
pop_queue s = record s { frame_queue = (pop s.frame_queue).0 }

-- How many bytes are copied, from which place of the frame's data.
abbrev pub pos_in_frame : Stream → StreamFrame → ℕ
pos_in_frame s f = sub64 s.read_offset f.offset

abbrev pub copied : ℕ → Stream → StreamFrame → ℕ
copied left s f = min left (length f.payload - pos_in_frame s f)

abbrev pub copy_out : ℕ → Stream → StreamFrame → List ℕ
copy_out left s f = take (copied left s f) (drop (pos_in_frame s f) f.payload)

abbrev pub all_copied : ℕ → Stream → StreamFrame → Bool
all_copied left s f = leb (length f.payload) (pos_in_frame s f + copied left s f)

abbrev pub after_copy : ℕ → ℕ → Stream → StreamFrame → Stream
after_copy now left s f =
    if all_copied left s f
    then pop_queue (count_read now (copied left s f) s)
    else count_read now (copied left s f) s

-- One round, with the rounds that follow a copy.
unfoldable pub read_frame : ℕ → ℕ → Stream → Option StreamFrame → ReadResult → ReadResult
read_frame now left s none rest = stop ReadEnd.waits s
read_frame now left s (some f) rest =
    if leb (2 ^ 63) (pos_in_frame s f)
    then stop ReadEnd.panicked s
    else if ltb (length f.payload) (pos_in_frame s f)
    then stop (ReadEnd.returned (some StreamError.read_pos_in_frame_bug)) s
    else if all_copied left s f && f.fin_bit
    then record {
      bytes = copy_out left s f;
      ending = ReadEnd.returned (some StreamError.eof);
      stream = record (after_copy now left s f) { finished_reading = true };
    }
    else read_more (copy_out left s f) rest

-- What the frame at the head of the queue leaves to be read, and the stream afterwards.
abbrev pub left_after : ℕ → Stream → Option StreamFrame → ℕ
left_after left s none = left
left_after left s (some f) = left - copied left s f

abbrev pub stream_after : ℕ → ℕ → Stream → Option StreamFrame → Stream
stream_after now left s none = s
stream_after now left s (some f) = after_copy now left s f

abbrev pub some_read_after : ℕ → Bool → Stream → Option StreamFrame → Bool
some_read_after left some_read s none = some_read
some_read_after left some_read s (some f) = some_read || ltb 0 (copied left s f)

unfoldable pub read_loop : (ℕ → ℕ) → Bool → ℕ → ℕ → Bool → Stream → ReadResult
unfolding read_frame
read_loop clock late zero left some_read s = stop ReadEnd.out_of_fuel s
read_loop clock late (suc fuel) left some_read s =
    let rest =
      read_loop clock late fuel (left_after left s (head s.frame_queue))
        (some_read_after left some_read s (head s.frame_queue))
        (stream_after (clock fuel) left s (head s.frame_queue)) in
    if left == 0
    then stop (ReadEnd.returned none) s
    else if is_none (head s.frame_queue) && some_read
    then stop (ReadEnd.returned s.err) s
    else if s.reset_locally || s.cancelled
    then stop_cancelled s.err s
    else if late
    then stop (ReadEnd.returned (some StreamError.deadline_exceeded)) s
    else read_frame (clock fuel) left s (head s.frame_queue) rest

-- Enough rounds for a buffer of the length.
abbrev pub enough_rounds : ℕ → ℕ
enough_rounds left = 3 * left + 3

unfoldable pub read : (ℕ → ℕ) → Bool → ℕ → Stream → ReadResult
unfolding read_loop
read clock late left s =
    if s.cancelled || s.reset_locally
    then stop (ReadEnd.returned s.err) s
    else if s.finished_reading
    then stop (ReadEnd.returned (some StreamError.eof)) s
    else read_loop clock late (enough_rounds left) left false s
