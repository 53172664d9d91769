-- ===== src/Session/StreamFrameSorter/State.antt =====
-- stream_frame_sorter.go: the state of the sorter, Head and Pop. The map of queued frames is a function
-- of the offset, the gaps (utils.ByteIntervalList) are a list.
use mpquic_latency.Base.{
  ℕ, ◌-◌, ◌^◌, ◌==◌, if◌then◌else◌, u64, ◌+◌, Option, none, some, List, [], ◌∷◌, length,
}
use mpquic_latency.Wire.Frame.{StreamFrame}

-- The interval of the bytes from start to end, without end.
pub record ByteInterval : Type 0 where
  pub start : ℕ
  pub end : ℕ

pub record StreamFrameSorter : Type 0 where
  pub queued_frames : ℕ → Option StreamFrame
  pub read_position : ℕ
  pub gaps : List ByteInterval

-- The last one is a panic on a slice out of range.
pub data SorterError : Type 0 where
  empty_stream_data : SorterError
  duplicate_stream_data : SorterError
  no_gap_found : SorterError
  no_end_gap_found : SorterError
  too_many_gaps : SorterError
  slice_out_of_range : SorterError

abbrev pub max_byte_count : ℕ
max_byte_count = 2 ^ 64 - 1

abbrev pub max_stream_frame_sorter_gaps : ℕ
max_stream_frame_sorter_gaps = 2500

abbrev pub new_stream_frame_sorter : StreamFrameSorter
new_stream_frame_sorter = record {
  queued_frames = λ _. none;
  read_position = 0;
  gaps = record { start = 0; end = max_byte_count } ∷ [];
}

abbrev pub put_frame : ℕ → StreamFrame → (ℕ → Option StreamFrame) → ℕ → Option StreamFrame
put_frame offset frame queued o = if o == offset then some frame else queued o

abbrev pub delete_frame : ℕ → (ℕ → Option StreamFrame) → ℕ → Option StreamFrame
delete_frame offset queued o = if o == offset then none else queued o

abbrev pub queue_frame : StreamFrame → StreamFrameSorter → StreamFrameSorter
queue_frame f s = record s { queued_frames = put_frame f.offset f s.queued_frames }

abbrev pub head : StreamFrameSorter → Option StreamFrame
head s = s.queued_frames s.read_position

abbrev pub pop_frame : StreamFrameSorter → Option StreamFrame → StreamFrameSorter
pop_frame s none = s
pop_frame s (some f) = record s {
  read_position = u64 (s.read_position + length f.payload);
  queued_frames = delete_frame f.offset s.queued_frames;
}

unfoldable pub pop : StreamFrameSorter → StreamFrameSorter × Option StreamFrame
pop s = (pop_frame s (head s), head s)
