-- ===== src/Session/StreamFramer/Queues.antt =====
-- stream_framer.go: the queues of frames that a packet takes along.
use mpquic_latency.Base.{
  ℕ, ◌*◌, ◌%◌, ◌^◌, if◌then◌else◌, Bool, true, false, Option, none, some, List, [], ◌∷◌, ◌++◌, map,
  length,
}
use mpquic_latency.Wire.AckFrame.{ClosePathFrame}
use mpquic_latency.Wire.Frame.{StreamFrame, BlockedFrame, AddAddressFrame, PathsFrame}
use mpquic_latency.Scheduler.Paths.{QuicPath}
use mpquic_latency.Flowcontrol.Manager.{FlowControlManager}
use mpquic_latency.Session.StreamFramer.{maybe_pop_frames_for_retransmission}

pub record StreamFramer : Type 0 where
  pub flow_control_manager : FlowControlManager
  pub retransmission_queue : List StreamFrame
  pub blocked_frame_queue : List BlockedFrame
  pub add_address_frame_queue : List AddAddressFrame
  pub close_path_frame_queue : List ClosePathFrame
  pub paths_frame : Option PathsFrame

unfoldable pub new_stream_framer : FlowControlManager → StreamFramer
new_stream_framer m = record {
  flow_control_manager = m;
  retransmission_queue = [];
  blocked_frame_queue = [];
  add_address_frame_queue = [];
  close_path_frame_queue = [];
  paths_frame = none;
}

-- The front of a queue, and what is left of the queue.
abbrev pub front_of : {A : Type 0} → List A → Option A × List A
front_of [] = (none, [])
front_of (frame ∷ queue) = (some frame, queue)

unfoldable pub add_frame_for_retransmission : StreamFrame → StreamFramer → StreamFramer
add_frame_for_retransmission frame f = record f {
  retransmission_queue = f.retransmission_queue ++ (frame ∷ []);
}

-- The part of PopStreamFrames that takes frames from the retransmission queue, with the length that
-- they take.
unfoldable pub pop_retransmissions : ℕ → StreamFramer → (List StreamFrame × ℕ) × StreamFramer
pop_retransmissions max_len f =
    let p =
      maybe_pop_frames_for_retransmission max_len f.retransmission_queue f.flow_control_manager in
    (
      (p.res, p.current_len),
      record f {
        retransmission_queue = p.retransmission_queue;
        flow_control_manager = p.flow_control_manager;
      },
    )

unfoldable pub has_frames_for_retransmission : StreamFramer → Bool
has_frames_for_retransmission f = elim f.retransmission_queue [ [] ↦ false | _ ∷ _ ↦ true ]

unfoldable pub pop_blocked_frame : StreamFramer → Option BlockedFrame × StreamFramer
pop_blocked_frame f =
    let (frame, queue) = front_of f.blocked_frame_queue in
    (frame, record f { blocked_frame_queue = queue })

unfoldable pub add_address_for_transmission : ℕ → List ℕ → ℕ → StreamFramer → StreamFramer
add_address_for_transmission ip_version ip port f = record f {
  add_address_frame_queue =
      f.add_address_frame_queue ++ (record { ip_version = ip_version; ip = ip; port = port } ∷ []);
}

unfoldable pub pop_add_address_frame : StreamFramer → Option AddAddressFrame × StreamFramer
pop_add_address_frame f =
    let (frame, queue) = front_of f.add_address_frame_queue in
    (frame, record f { add_address_frame_queue = queue })

-- time.Hour, in nanoseconds.
abbrev pub hour : ℕ
hour = 3600 * 10 ^ 9

abbrev pub announced_rtt : QuicPath → ℕ
announced_rtt p = if p.potentially_failed then hour else p.smoothed_rtt

-- The frame replaces one that was not popped yet.
unfoldable pub add_paths_frame_for_transmission : List QuicPath → StreamFramer → StreamFramer
add_paths_frame_for_transmission paths f = record f {
  paths_frame = some (record {
    max_num_paths = 255;
    num_paths = length paths % 2 ^ 8;
    path_ids = map (λ (p : QuicPath). p.path_id) paths;
    remote_rtts = map announced_rtt paths;
  });
}

unfoldable pub pop_paths_frame : StreamFramer → Option PathsFrame × StreamFramer
pop_paths_frame f = (f.paths_frame, record f { paths_frame = none })

unfoldable pub add_close_path_frame_for_transmission : ClosePathFrame → StreamFramer → StreamFramer
add_close_path_frame_for_transmission frame f = record f {
  close_path_frame_queue = f.close_path_frame_queue ++ (frame ∷ []);
}

unfoldable pub pop_close_path_frame : StreamFramer → Option ClosePathFrame × StreamFramer
pop_close_path_frame f =
    let (frame, queue) = front_of f.close_path_frame_queue in
    (frame, record f { close_path_frame_queue = queue })
