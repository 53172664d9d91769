-- ===== src/Session/Stream/State.antt =====
-- stream.go: the state of a stream, the frames that come in, the data that goes out and the ways to
-- end it. The callback onData, the channels that wake up Read and Write and the context are left out;
-- the RST_STREAM frame that onReset asks for is returned. An error that is handed in is not nil.
use mpquic_latency.Base.{
  ℕ, ◌+◌, ltb, ◌==◌, if◌then◌else◌, u64, Bool, true, false, not, ◌&&◌, ◌||◌, is_none, Option, none,
  some, List, [], length, drop,
}
use mpquic_latency.Wire.Frame.{StreamFrame}
use mpquic_latency.Flowcontrol.Manager.{
  FlowControlError, FlowControlManager, update_stream_highest_received,
}
use mpquic_latency.Session.StreamFramer.{take}
use mpquic_latency.Session.StreamFrameSorter.State.{
  StreamFrameSorter, SorterError, new_stream_frame_sorter,
}
use mpquic_latency.Session.StreamFrameSorter.Push.{push}

-- The errors that a stream gives: the end of the data, a deadline, one from the session or the
-- application, one of the sorter or of flow control, a write after Close, or a bug that Read reports.
pub data StreamError : Type 0 where
  eof : StreamError
  deadline_exceeded : StreamError
  handed_in : ℕ → StreamError
  from_sorter : SorterError → StreamError
  from_flow_control : FlowControlError → StreamError
  write_on_closed_stream : StreamError
  read_pos_in_frame_bug : StreamError

pub record Stream : Type 0 where
  pub stream_id : ℕ
  pub write_offset : ℕ
  pub read_offset : ℕ
  pub err : Option StreamError
  pub cancelled : Bool
  pub finished_reading : Bool
  pub finished_writing : Bool
  pub reset_locally : Bool
  pub reset_remotely : Bool
  pub frame_queue : StreamFrameSorter
  pub data_for_writing : Option (List ℕ)
  pub fin_sent : Bool
  pub rst_sent : Bool
  pub flow_control_manager : FlowControlManager

abbrev pub new_stream : ℕ → FlowControlManager → Stream
new_stream id manager = record {
  stream_id = id;
  write_offset = 0;
  read_offset = 0;
  err = none;
  cancelled = false;
  finished_reading = false;
  finished_writing = false;
  reset_locally = false;
  reset_remotely = false;
  frame_queue = new_stream_frame_sorter;
  data_for_writing = none;
  fin_sent = false;
  rst_sent = false;
  flow_control_manager = manager;
}

-- The error of Push that AddStreamFrame passes on: not that of a duplicate.
abbrev pub push_error : Option SorterError → Option StreamError
push_error none = none
push_error (some SorterError.duplicate_stream_data) = none
push_error (some e) = some (StreamError.from_sorter e)

abbrev pub queue_pushed :
    Stream → StreamFrameSorter × Option SorterError → Stream × Option StreamError
queue_pushed s (queue, e) = (record s { frame_queue = queue }, push_error e)

abbrev pub with_manager : Stream → FlowControlManager → Stream
with_manager s manager = record s { flow_control_manager = manager }

abbrev pub queue_if_allowed :
    Stream
    → StreamFrame
    → Option FlowControlError × FlowControlManager
    → Stream × Option StreamError
queue_if_allowed s f (some e, manager) =
    (with_manager s manager, some (StreamError.from_flow_control e))
queue_if_allowed s f (none, manager) = queue_pushed (with_manager s manager) (push s.frame_queue f)

unfoldable pub add_stream_frame : StreamFrame → Stream → Stream × Option StreamError
unfolding push update_stream_highest_received
add_stream_frame f s = queue_if_allowed s f (
    update_stream_highest_received s.stream_id (u64 (f.offset + length f.payload))
      s.flow_control_manager)

-- A virtual frame with nothing but the end of the stream.
abbrev pub virtual_fin : ℕ → StreamFrame
virtual_fin offset = record {
  stream_id = 0;
  fin_bit = true;
  data_len_present = false;
  offset = offset;
  payload = [];
}

unfoldable pub close_remote : ℕ → Stream → Stream
unfolding add_stream_frame
close_remote offset s = (add_stream_frame (virtual_fin offset) s).0

-- Write up to the point where it waits for the data to be sent.
unfoldable pub begin_write : List ℕ → Stream → Stream × Option StreamError
begin_write p s =
    if s.reset_locally || not (is_none s.err)
    then (s, s.err)
    else if s.finished_writing
    then (s, some StreamError.write_on_closed_stream)
    else if length p == 0
    then (s, none)
    else (record s { data_for_writing = some p }, none)

abbrev pub data_length : Option (List ℕ) → ℕ
data_length none = 0
data_length (some bs) = length bs

abbrev pub len_of_data_for_writing : Stream → ℕ
len_of_data_for_writing s = if is_none s.err then data_length s.data_for_writing else 0

abbrev pub take_data : ℕ → Stream → Option (List ℕ) → Stream × Option (List ℕ)
take_data max_bytes s none = (s, none)
take_data max_bytes s (some bs) =
    if ltb max_bytes (length bs)
    then (
      record s {
        data_for_writing = some (drop max_bytes bs);
        write_offset = u64 (s.write_offset + length (take max_bytes bs));
      },
      some (take max_bytes bs),
    )
    else (
      record s { data_for_writing = none; write_offset = u64 (s.write_offset + length bs) },
      some bs,
    )

unfoldable pub get_data_for_writing : ℕ → Stream → Stream × Option (List ℕ)
get_data_for_writing max_bytes s =
    if is_none s.err then take_data max_bytes s s.data_for_writing else (s, none)

abbrev pub close : Stream → Stream
close s = record s { finished_writing = true }

abbrev pub finished_write_and_sent_fin : Stream → Bool
finished_write_and_sent_fin s = s.finished_writing && s.fin_sent

abbrev pub should_send_reset : Stream → Bool
should_send_reset s =
    not s.rst_sent && ((s.reset_locally || s.reset_remotely) && not (finished_write_and_sent_fin s))

abbrev pub should_send_fin : Stream → Bool
should_send_fin s =
    s.finished_writing && (not s.fin_sent && (is_none s.err && is_none s.data_for_writing))

abbrev pub sent_fin : Stream → Stream
sent_fin s = record s { fin_sent = true }

-- Once set, the error is not changed.
abbrev pub first_error : Option StreamError → StreamError → Option StreamError
first_error none e = some e
first_error (some old) e = some old

unfoldable pub cancel : StreamError → Stream → Stream
cancel e s = record s { cancelled = true; err = first_error s.err e }

-- The RST_STREAM that is asked for is the id of the stream and the offset.
abbrev pub send_reset_if_due : Stream → Stream × Option (ℕ × ℕ)
send_reset_if_due s =
    if should_send_reset s
    then (record s { rst_sent = true }, some (s.stream_id, s.write_offset))
    else (s, none)

unfoldable pub reset : StreamError → Stream → Stream × Option (ℕ × ℕ)
reset e s =
    if s.reset_locally
    then (s, none)
    else send_reset_if_due (record s { reset_locally = true; err = first_error s.err e })

unfoldable pub register_remote_error : StreamError → Stream → Stream × Option (ℕ × ℕ)
register_remote_error e s =
    if s.reset_remotely
    then (s, none)
    else send_reset_if_due (record s { reset_remotely = true; err = first_error s.err e })

unfoldable pub finished : Stream → Bool
finished s =
    s.cancelled
    || ((s.finished_reading && finished_write_and_sent_fin s)
        || ((s.reset_remotely && s.rst_sent)
            || ((s.finished_reading && s.rst_sent)
                || (finished_write_and_sent_fin s && s.reset_remotely))))
