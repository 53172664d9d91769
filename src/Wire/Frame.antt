-- ===== src/Wire/Frame.antt =====
-- internal/wire/frame.go: the frames as one type, with the fields of each frame's file. A byte is a
-- number below 256, and a string is its bytes.
use mpquic_latency.Base.{ℕ, Bool, List}
use mpquic_latency.Wire.AckFrame.{AckFrame, ClosePathFrame}

pub record StreamFrame : Type 0 where
  pub stream_id : ℕ
  pub fin_bit : Bool
  pub data_len_present : Bool
  pub offset : ℕ
  pub payload : List ℕ

pub record RstStreamFrame : Type 0 where
  pub stream_id : ℕ
  pub error_code : ℕ
  pub byte_offset : ℕ

pub record WindowUpdateFrame : Type 0 where
  pub stream_id : ℕ
  pub byte_offset : ℕ

pub record BlockedFrame : Type 0 where
  pub stream_id : ℕ

pub record GoawayFrame : Type 0 where
  pub error_code : ℕ
  pub last_good_stream : ℕ
  pub reason_phrase : List ℕ

pub record ConnectionCloseFrame : Type 0 where
  pub error_code : ℕ
  pub reason_phrase : List ℕ

pub record StopWaitingFrame : Type 0 where
  pub least_unacked : ℕ
  pub packet_number_len : ℕ
  pub packet_number : ℕ

-- The address (net.UDPAddr) is its IP bytes and its port.
pub record AddAddressFrame : Type 0 where
  pub ip_version : ℕ
  pub ip : List ℕ
  pub port : ℕ

pub record PathsFrame : Type 0 where
  pub max_num_paths : ℕ
  pub num_paths : ℕ
  pub path_ids : List ℕ
  pub remote_rtts : List ℕ

pub data Frame : Type 0 where
  stream : StreamFrame → Frame
  rst_stream : RstStreamFrame → Frame
  window_update : WindowUpdateFrame → Frame
  blocked : BlockedFrame → Frame
  ping : Frame
  goaway : GoawayFrame → Frame
  connection_close : ConnectionCloseFrame → Frame
  stop_waiting : StopWaitingFrame → Frame
  ack : AckFrame → Frame
  close_path : ClosePathFrame → Frame
  add_address : AddAddressFrame → Frame
  paths : PathsFrame → Frame
