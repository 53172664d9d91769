-- ===== src/Flowcontrol/Examples.antt =====
-- Concrete runs of flow control.
use mpquic_latency.Base.{
  ◌+◌, ◌-◌, ◌<◌, ◌≤◌, ◌≡◌, refl, true, false, [], ◌∷◌, ◌++◌, none, some, arith, map,
}
use mpquic_latency.Flowcontrol.Controller.{
  Parameters, FlowController, get_send_window, add_bytes_sent, update_send_window, send_window_size,
  maybe_update_window, update_highest_received, check_flow_control_violation,
  increment_highest_received,
}
use mpquic_latency.Flowcontrol.Controller.Windows
use mpquic_latency.Flowcontrol.Controller.Windows.{
  maybe_update_window_grows, add_bytes_sent-send_window_size, update_send_window_shrinks,
}
use mpquic_latency.Flowcontrol.Manager.{
  FlowControlManager, find, get_flow_controller, update_stream_highest_received, highest_found,
  the_increment, received_on, get_window_updates, add_stream_bytes_sent, stream_send_window_size,
}
use mpquic_latency.Flowcontrol.Manager.Limits.{
  share, shares, IsCounted, Accepted, update_stream_highest_received_accepts,
}
use mpquic_latency.Flowcontrol.Manager.Updates.{
  announce, get_window_updates_forced, add_stream_bytes_sent_fits,
}

abbrev small : Parameters
small = record {
  receive_connection_flow_control_window = 100;
  max_receive_connection_flow_control_window = 400;
  receive_stream_flow_control_window = 60;
  max_receive_stream_flow_control_window = 200;
  send_connection_flow_control_window = 90;
  send_stream_flow_control_window = 50;
  smoothed_rtt = 10;
  remote_rtts = 12 ∷ 15 ∷ [];
}

abbrev five : FlowController
five = record {
  stream_id = 5;
  contributes_to_connection = true;
  bytes_sent = 20;
  send_window = 0;
  bytes_retrans = 0;
  last_window_update_time = some 100;
  bytes_read = 40;
  highest_received = 50;
  receive_window = 60;
  receive_window_increment = 60;
  max_receive_window_increment = 200;
}

abbrev connection : FlowController
connection = record five {
  stream_id = 0;
  contributes_to_connection = false;
  receive_window = 100;
  receive_window_increment = 100;
  max_receive_window_increment = 400;
}

abbrev managed : FlowControlManager
managed = record { stream_flow_controller = (5, five) ∷ []; conn_flow_controller = connection }

five-IsValid : Windows.IsValid five
five-IsValid = record {
  increment_capped = omega arith;
  read_within = omega arith;
  no_overflow = omega arith;
}

maybe_update_window_grows_example :
    let r = maybe_update_window small 110 five in
    (60 ≤ r.1.receive_window)
    × (r.0.2 ≡ r.1.receive_window)
    × (60 ≤ r.1.receive_window_increment)
    × (r.1.receive_window_increment ≤ 200)
    × (r.0.0 ≡ true → r.1.receive_window ≡ r.1.bytes_read + r.1.receive_window_increment)
    × (r.0.0 ≡ false → 30 ≤ r.1.receive_window - r.1.bytes_read)
maybe_update_window_grows_example = maybe_update_window_grows small 110 five five-IsValid

add_bytes_sent-send_window_size_example :
    ((add_bytes_sent 30 five).bytes_sent ≤ get_send_window small (add_bytes_sent 30 five))
    × (send_window_size small (add_bytes_sent 30 five) + 30 ≡ send_window_size small five)
unfolding get_send_window send_window_size
add_bytes_sent-send_window_size_example =
    add_bytes_sent-send_window_size small 30 five (omega arith) (omega arith) (omega arith)

update_send_window_shrinks_example :
    ((update_send_window 10 five).0 ≡ true)
    × (get_send_window small (update_send_window 10 five).1 < get_send_window small five)
unfolding get_send_window
update_send_window_shrinks_example =
    update_send_window_shrinks small 10 five refl (omega arith) (omega arith)

managed-IsCounted : IsCounted managed
unfolding shares share
managed-IsCounted = record { shares_counted = omega arith }

update_stream_highest_received_accepts_example :
    Accepted 5 58 (update_stream_highest_received 5 58 managed).1
unfolding update_stream_highest_received get_flow_controller find highest_found the_increment
    update_highest_received received_on check_flow_control_violation increment_highest_received
update_stream_highest_received_accepts_example =
    update_stream_highest_received_accepts 5 58 managed (omega arith) managed-IsCounted refl

get_window_updates_forced_example :
    (get_window_updates small 110 true managed).0
    ≡ map announce (get_window_updates small 110 true managed).1.stream_flow_controller
      ++ (announce (0, (get_window_updates small 110 true managed).1.conn_flow_controller) ∷ [])
get_window_updates_forced_example = get_window_updates_forced small 110 managed

add_stream_bytes_sent_fits_example :
    let r = add_stream_bytes_sent 5 30 managed in
    (r.0 ≡ none)
    × (get_flow_controller 5 r.1 ≡ some (add_bytes_sent 30 five))
    × ((add_bytes_sent 30 five).bytes_sent ≤ get_send_window small (add_bytes_sent 30 five))
    × (r.1.conn_flow_controller.bytes_sent ≤ get_send_window small r.1.conn_flow_controller)
    × (five.contributes_to_connection ≡ true
        → r.1.conn_flow_controller ≡ add_bytes_sent 30 connection)
unfolding get_flow_controller find stream_send_window_size get_send_window send_window_size
add_stream_bytes_sent_fits_example =
    add_stream_bytes_sent_fits small 5 30 five managed refl (omega arith) (omega arith)
      (omega arith) (omega arith) (omega arith)
