-- ===== src/Flowcontrol/Controller.antt =====
-- internal/flowcontrol/flow_controller.go: the windows of one stream, or of the connection (stream 0).
pub mod Windows
use mpquic_latency.Base.{
  ℕ, ◌+◌, ◌*◌, ◌/◌, ◌-◌, Bool, true, false, ◌||◌, not, List, [], ◌∷◌, ltb, leb, ◌==◌, if◌then◌else◌,
  Option, none, some, u64, sub64, min, max,
}

-- What the controller reads of the connection parameters, of RTTStats and of the remote RTTs. They
-- are shared, and may change between two calls.
pub record Parameters : Type 0 where
  pub receive_connection_flow_control_window : ℕ
  pub max_receive_connection_flow_control_window : ℕ
  pub receive_stream_flow_control_window : ℕ
  pub max_receive_stream_flow_control_window : ℕ
  pub send_connection_flow_control_window : ℕ
  pub send_stream_flow_control_window : ℕ
  pub smoothed_rtt : ℕ
  pub remote_rtts : List ℕ

pub record FlowController : Type 0 where
  pub stream_id : ℕ
  pub contributes_to_connection : Bool
  pub bytes_sent : ℕ
  pub send_window : ℕ
  pub bytes_retrans : ℕ
  pub last_window_update_time : Option ℕ
  pub bytes_read : ℕ
  pub highest_received : ℕ
  pub receive_window : ℕ
  pub receive_window_increment : ℕ
  pub max_receive_window_increment : ℕ

unfoldable pub new_flow_controller : Parameters → ℕ → Bool → FlowController
new_flow_controller ps stream_id contributes_to_connection = record {
  stream_id = stream_id;
  contributes_to_connection = contributes_to_connection;
  bytes_sent = 0;
  send_window = 0;
  bytes_retrans = 0;
  last_window_update_time = none;
  bytes_read = 0;
  highest_received = 0;
  receive_window =
      if stream_id == 0
      then ps.receive_connection_flow_control_window
      else ps.receive_stream_flow_control_window;
  receive_window_increment =
      if stream_id == 0
      then ps.receive_connection_flow_control_window
      else ps.receive_stream_flow_control_window;
  max_receive_window_increment =
      if stream_id == 0
      then ps.max_receive_connection_flow_control_window
      else ps.max_receive_stream_flow_control_window;
}

unfoldable pub get_send_window : Parameters → FlowController → ℕ
get_send_window ps c =
    if c.send_window == 0
    then (if c.stream_id == 0
        then ps.send_connection_flow_control_window
        else ps.send_stream_flow_control_window)
    else c.send_window

unfoldable pub add_bytes_sent : ℕ → FlowController → FlowController
add_bytes_sent n c = record c { bytes_sent = u64 (c.bytes_sent + n) }

unfoldable pub add_bytes_retrans : ℕ → FlowController → FlowController
add_bytes_retrans n c = record c { bytes_retrans = u64 (c.bytes_retrans + n) }

unfoldable pub update_send_window : ℕ → FlowController → Bool × FlowController
update_send_window new_offset c =
    if ltb c.send_window new_offset
    then (true, record c { send_window = new_offset })
    else (false, c)

unfoldable pub send_window_size : Parameters → FlowController → ℕ
unfolding get_send_window
send_window_size ps c =
    if ltb (get_send_window ps c) c.bytes_sent then 0 else get_send_window ps c - c.bytes_sent

-- `none` is ErrReceivedSmallerByteOffset, with which the increment is 0.
unfoldable pub update_highest_received : ℕ → FlowController → Option ℕ × FlowController
update_highest_received byte_offset c =
    if byte_offset == c.highest_received
    then (some 0, c)
    else if ltb c.highest_received byte_offset
    then (some (byte_offset - c.highest_received), record c { highest_received = byte_offset })
    else (none, c)

unfoldable pub increment_highest_received : ℕ → FlowController → FlowController
increment_highest_received increment c = record c {
  highest_received = u64 (c.highest_received + increment);
}

unfoldable pub add_bytes_read : ℕ → ℕ → FlowController → FlowController
add_bytes_read now n c = record c {
  last_window_update_time = if c.bytes_read == 0 then some now else c.last_window_update_time;
  bytes_read = u64 (c.bytes_read + n);
}

-- `maxRemoteRTT`, over the remote RTTs in any order.
unfoldable pub max_remote_rtt : List ℕ → ℕ
max_remote_rtt [] = 0
max_remote_rtt (r ∷ rs) = max r (max_remote_rtt rs)

-- Whether maybeAdjustWindowIncrement goes on to its assignment.
unfoldable pub updates_too_often : Parameters → ℕ → Option ℕ → Bool
unfolding max_remote_rtt
updates_too_often ps now none = false
updates_too_often ps now (some t) =
    if ps.smoothed_rtt == 0
    then false
    else not (leb (2 * max ps.smoothed_rtt (max_remote_rtt ps.remote_rtts)) (now - t))

unfoldable pub maybe_adjust_window_increment : Parameters → ℕ → FlowController → FlowController
unfolding updates_too_often
maybe_adjust_window_increment ps now c =
    if updates_too_often ps now c.last_window_update_time
    then record c {
      receive_window_increment =
          min (u64 (2 * c.receive_window_increment)) c.max_receive_window_increment;
    }
    else c

-- MaybeUpdateWindow: whether an update is needed, the new increment and the new offset.
unfoldable pub maybe_update_window :
    Parameters → ℕ → FlowController → (Bool × ℕ × ℕ) × FlowController
unfolding maybe_adjust_window_increment
maybe_update_window ps now c =
    let adjusted = maybe_adjust_window_increment ps now c in
    let offset = u64 (c.bytes_read + adjusted.receive_window_increment) in
    let increment =
      if adjusted.receive_window_increment == c.receive_window_increment
      then 0
      else adjusted.receive_window_increment in
    if ltb (sub64 c.receive_window c.bytes_read) (c.receive_window_increment / 2)
    then (
      (true, increment, offset),
      record adjusted { last_window_update_time = some now; receive_window = offset },
    )
    else ((false, c.receive_window_increment, c.receive_window), c)

unfoldable pub ensure_minimum_window_increment : ℕ → FlowController → FlowController
ensure_minimum_window_increment inc c =
    if ltb c.receive_window_increment inc
    then record c {
      receive_window_increment = min inc c.max_receive_window_increment;
      last_window_update_time = none;
    }
    else c

unfoldable pub check_flow_control_violation : FlowController → Bool
check_flow_control_violation c = ltb c.receive_window c.highest_received
