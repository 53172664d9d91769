-- ===== src/Session/StreamFramer.antt =====
-- stream_framer.go: the STREAM frames that are sent again. The flow control manager is not nil here.
pub mod Content
pub mod Pops
pub mod Queues
use mpquic_latency.Base.{
  ℕ, zero, suc, ◌+◌, leb, if◌then◌else◌, u64, sub64, true, false, Option, none, some, List, [], ◌∷◌,
  ◌++◌, length, drop,
}
use mpquic_latency.Wire.Frame.{StreamFrame}
use mpquic_latency.Wire.StreamFrame.{stream_frame_min_length}
use mpquic_latency.Flowcontrol.Manager.{FlowControlManager, add_stream_bytes_retrans}

abbrev pub take : {A : Type 0} → ℕ → List A → List A
take zero xs = []
take (suc n) [] = []
take (suc n) (x ∷ xs) = x ∷ take n xs

-- The frame that is split off, if the data is longer than n, and what is left of the frame.
unfoldable pub maybe_split_off_frame : StreamFrame → ℕ → Option StreamFrame × StreamFrame
maybe_split_off_frame frame n = if leb (length frame.payload) n then (none, frame) else (
  some (record frame { fin_bit = false; payload = take n frame.payload }),
  record frame { payload = drop n frame.payload; offset = u64 (frame.offset + n) },
)

-- The frames that are popped, the length so far, the queue that is left, and the flow control manager.
pub record Popped : Type 0 where
  pub res : List StreamFrame
  pub current_len : ℕ
  pub retransmission_queue : List StreamFrame
  pub flow_control_manager : FlowControlManager

abbrev pub count_retrans : StreamFrame → FlowControlManager → FlowControlManager
count_retrans frame m = (add_stream_bytes_retrans frame.stream_id (length frame.payload) m).1

-- The loop ends with the frame that does not fit, or with the part of a frame that was split.
abbrev pub stop_at : List StreamFrame → ℕ → List StreamFrame → FlowControlManager → Popped
stop_at res current_len queue m = record {
  res = res;
  current_len = current_len;
  retransmission_queue = queue;
  flow_control_manager = m;
}

abbrev pub pop_or_split :
    Option StreamFrame × StreamFrame → ℕ → List StreamFrame → FlowControlManager → Popped → Popped
pop_or_split (some split, left) current_len queue m rest =
    stop_at (split ∷ []) (u64 (current_len + length split.payload)) (left ∷ queue)
      (count_retrans split m)
pop_or_split (none, frame) current_len queue m rest = record rest { res = frame ∷ rest.res }

abbrev pub with_data_len : StreamFrame → StreamFrame
with_data_len frame = record frame { data_len_present = true }

-- maybePopFramesForRetransmission, with currentLen so far.
unfoldable pub pop_frames : ℕ → List StreamFrame → ℕ → FlowControlManager → Popped
unfolding maybe_split_off_frame
pop_frames max_len [] current_len m = stop_at [] current_len [] m
pop_frames max_len (front ∷ queue) current_len m =
    let frame = with_data_len front in
    let header_len = u64 (current_len + stream_frame_min_length frame) in
    let rest =
      pop_frames max_len queue (u64 (header_len + length frame.payload)) (count_retrans frame m) in
    if leb max_len header_len
    then stop_at [] current_len (frame ∷ queue) m
    else pop_or_split (maybe_split_off_frame frame (sub64 max_len header_len)) header_len queue m
        rest

unfoldable pub maybe_pop_frames_for_retransmission :
    ℕ → List StreamFrame → FlowControlManager → Popped
unfolding pop_frames
maybe_pop_frames_for_retransmission max_len queue m = pop_frames max_len queue 0 m
