-- ===== src/Session/Stream/Examples.antt =====
-- Concrete runs of a stream.
use mpquic_latency.Base.{ℕ, ◌≡◌, refl, true, false, none, some, List, [], ◌∷◌, length, arith}
use mpquic_latency.Wire.Frame.{StreamFrame}
use mpquic_latency.Flowcontrol.Controller.{
  FlowController, check_flow_control_violation, update_highest_received,
}
use mpquic_latency.Flowcontrol.Manager.{FlowControlManager, find}
use mpquic_latency.Session.StreamFrameSorter.State.{new_stream_frame_sorter}
use mpquic_latency.Session.StreamFrameSorter.Push.{push}
use mpquic_latency.Session.StreamFrameSorter.Inv.{Matches}
use mpquic_latency.Session.StreamFrameSorter.Fills.{Fills}
use mpquic_latency.Session.StreamFrameSorter.Pushed.{push-Fills}
use mpquic_latency.Session.Stream.State.{Stream, new_stream}
use mpquic_latency.Session.Stream.Read.{read}
use mpquic_latency.Session.Stream.Rounds.{IsReading, Delivers}
use mpquic_latency.Session.Stream.Delivery.{read-Delivers}
use mpquic_latency.Session.Stream.Runs.{Call, add, read_up_to, calls, calls-read_the_stream}

-- The byte at each place of the stream is the place itself.
abbrev places : ℕ → ℕ
places p = p

abbrev frame : ℕ → List ℕ → StreamFrame
frame offset bs = record {
  stream_id = 5;
  fin_bit = false;
  data_len_present = true;
  offset = offset;
  payload = bs;
}

abbrev last_frame : ℕ → List ℕ → StreamFrame
last_frame offset bs = record (frame offset bs) { fin_bit = true }

abbrev window : ℕ → FlowController
window id = record {
  stream_id = id;
  contributes_to_connection = false;
  bytes_sent = 0;
  send_window = 100;
  bytes_retrans = 0;
  last_window_update_time = none;
  bytes_read = 0;
  highest_received = 0;
  receive_window = 100;
  receive_window_increment = 100;
  max_receive_window_increment = 100;
}

abbrev manager : FlowControlManager
manager = record { stream_flow_controller = (5, window 5) ∷ []; conn_flow_controller = window 0 }

abbrev fresh : Stream
fresh = new_stream 5 manager

-- Out of order, with an overlap, and read in pieces.
abbrev scattered : List Call
scattered =
    add (frame 3 (3 ∷ 4 ∷ []))
    ∷ add (frame 0 (0 ∷ 1 ∷ []))
    ∷ read_up_to 1 (λ n. n) false
    ∷ add (frame 1 (1 ∷ 2 ∷ 3 ∷ 4 ∷ 5 ∷ []))
    ∷ read_up_to 9 (λ n. n) false
    ∷ []

abbrev two_frames : List Call
two_frames = add (frame 2 (2 ∷ [])) ∷ add (frame 0 (0 ∷ 1 ∷ [])) ∷ read_up_to 3 (λ n. n) false ∷ []

abbrev one_frame : List Call
one_frame = add (frame 0 (0 ∷ 1 ∷ [])) ∷ read_up_to 2 (λ n. n) false ∷ []

one_frame_run : (calls one_frame fresh).1 ≡ 0 ∷ 1 ∷ []
unfolding calls find check_flow_control_violation update_highest_received
one_frame_run = refl

-- The end of the data has come before the whole: the part that is left of the whole ends the stream, and
-- the rest of the queue is not read.
late_whole :
    (push
        (push new_stream_frame_sorter (last_frame 2 (2 ∷ []))).0
        (last_frame 0 (0 ∷ 1 ∷ 2 ∷ []))).0.queued_frames
      0
    ≡ some (last_frame 0 (0 ∷ 1 ∷ []))
unfolding push
late_whole = refl

fresh-IsReading : IsReading places fresh
fresh-IsReading = record {
  valid = record { ordered = omega arith; received = λ _. tt };
  holds = λ _. tt;
  behind = omega arith;
  with_error = λ e. absurd (ground arith);
}

-- A stream with a frame to be read.
abbrev two_bytes : StreamFrame
two_bytes = frame 0 (0 ∷ 1 ∷ [])

abbrev with_two : Stream
with_two = record fresh { frame_queue = (push new_stream_frame_sorter two_bytes).0 }

two_bytes-Fills : Fills new_stream_frame_sorter two_bytes (push new_stream_frame_sorter two_bytes)
two_bytes-Fills = push-Fills new_stream_frame_sorter fresh-IsReading.valid two_bytes (omega arith)

with_two-IsReading : IsReading places with_two
with_two-IsReading = record {
  valid = two_bytes-Fills.valid;
  holds = two_bytes-Fills.kept places (omega arith) (λ _. tt);
  behind = omega (arith, two_bytes-Fills.still);
  with_error = λ e. absurd (ground arith);
}

push-Fills_example :
    Fills new_stream_frame_sorter
      (frame 2 (2 ∷ []))
      (push new_stream_frame_sorter (frame 2 (2 ∷ [])))
push-Fills_example =
    push-Fills new_stream_frame_sorter fresh-IsReading.valid (frame 2 (2 ∷ [])) (omega arith)

read-Delivers_example : Delivers places with_two 9 (read (λ n. n) false 9 with_two)
read-Delivers_example =
    read-Delivers places (λ n. n) false 9 with_two with_two-IsReading (omega arith)

calls-read_the_stream_example :
    Matches places 0 (calls two_frames fresh).1
    × ((calls two_frames fresh).0.read_offset ≡ length (calls two_frames fresh).1)
calls-read_the_stream_example =
    calls-read_the_stream places 5 manager two_frames (omega arith) (omega arith)
