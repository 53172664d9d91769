-- ===== src/Flowcontrol/Manager.antt =====
-- internal/flowcontrol/flow_control_manager.go: the controllers of the streams and of the connection.
pub mod Limits
pub mod Updates
use mpquic_latency.Base.{
  ℕ, ◌+◌, ◌*◌, ◌/◌, Bool, true, false, ◌||◌, ◌&&◌, not, List, [], ◌∷◌, ◌++◌, ◌==◌, if◌then◌else◌,
  Option, none, some, min, u64,
}
use mathlib.Core.Option.{map as map_option}
use mpquic_latency.Flowcontrol.Controller.{
  Parameters, FlowController, new_flow_controller, add_bytes_sent, add_bytes_retrans,
  update_send_window, send_window_size, update_highest_received, increment_highest_received,
  add_bytes_read, maybe_update_window, ensure_minimum_window_increment,
  check_flow_control_violation,
}

-- The stream controllers stand in the order in which the map of the source is walked.
pub record FlowControlManager : Type 0 where
  pub stream_flow_controller : List (ℕ × FlowController)
  pub conn_flow_controller : FlowController

pub data FlowControlError : Type 0 where
  map_access : FlowControlError
  stream_data_after_termination : FlowControlError
  flow_control_received_too_much_data : FlowControlError

pub record WindowUpdate : Type 0 where
  pub stream_id : ℕ
  pub offset : ℕ

unfoldable pub new_flow_control_manager : Parameters → FlowControlManager
new_flow_control_manager ps = record {
  stream_flow_controller = [];
  conn_flow_controller = new_flow_controller ps 0 false;
}

unfoldable pub find : ℕ → List (ℕ × FlowController) → Option FlowController
find id [] = none
find id ((k, c) ∷ cs) = let rest = find id cs in if k == id then some c else rest

-- Writing through the pointer that getFlowController returns.
unfoldable pub store : ℕ → FlowController → List (ℕ × FlowController) → List (ℕ × FlowController)
store id c [] = []
store id c ((k, d) ∷ cs) =
    let rest = store id c cs in if k == id then (k, c) ∷ cs else (k, d) ∷ rest

unfoldable pub remove : ℕ → List (ℕ × FlowController) → List (ℕ × FlowController)
remove id [] = []
remove id ((k, d) ∷ cs) = let rest = remove id cs in if k == id then cs else (k, d) ∷ rest

unfoldable pub get_flow_controller : ℕ → FlowControlManager → Option FlowController
get_flow_controller id m = find id m.stream_flow_controller

unfoldable pub add_stream :
    Parameters → ℕ → Bool → FlowControlManager → Option FlowController → FlowControlManager
add_stream ps id contributes m (some c) = m
add_stream ps id contributes m none = record m {
  stream_flow_controller = (id, new_flow_controller ps id contributes) ∷ m.stream_flow_controller;
}

unfoldable pub new_stream : Parameters → ℕ → Bool → FlowControlManager → FlowControlManager
unfolding add_stream get_flow_controller
new_stream ps id contributes m = add_stream ps id contributes m (get_flow_controller id m)

unfoldable pub remove_stream : ℕ → FlowControlManager → FlowControlManager
remove_stream id m = record m { stream_flow_controller = remove id m.stream_flow_controller }

-- The checks of the stream, then the bytes counted against the connection and its check.
unfoldable pub received_on :
    ℕ → ℕ → FlowController → FlowControlManager → Option FlowControlError × FlowControlManager
received_on id increment c m =
    let stored = record m { stream_flow_controller = store id c m.stream_flow_controller } in
    let counted = record stored {
      conn_flow_controller = increment_highest_received increment m.conn_flow_controller;
    } in
    if check_flow_control_violation c
    then (some flow_control_received_too_much_data, stored)
    else if c.contributes_to_connection
    then (if check_flow_control_violation counted.conn_flow_controller
        then (some flow_control_received_too_much_data, counted)
        else (none, counted))
    else (none, stored)

unfoldable pub reset_increment :
    ℕ
    → FlowControlManager
    → Option ℕ × FlowController
    → Option FlowControlError × FlowControlManager
unfolding received_on
reset_increment id m (none, c) = (some stream_data_after_termination, m)
reset_increment id m (some increment, c) = received_on id increment c m

unfoldable pub reset_found :
    ℕ
    → ℕ
    → FlowControlManager
    → Option FlowController
    → Option FlowControlError × FlowControlManager
unfolding reset_increment
reset_found id byte_offset m none = (some map_access, m)
reset_found id byte_offset m (some c) = reset_increment id m (update_highest_received byte_offset c)

unfoldable pub reset_stream :
    ℕ → ℕ → FlowControlManager → Option FlowControlError × FlowControlManager
unfolding reset_found get_flow_controller
reset_stream id byte_offset m = reset_found id byte_offset m (get_flow_controller id m)

-- ErrReceivedSmallerByteOffset is ignored: its increment is 0.
unfoldable pub the_increment : Option ℕ → ℕ
the_increment none = 0
the_increment (some increment) = increment

unfoldable pub highest_found :
    ℕ
    → ℕ
    → FlowControlManager
    → Option FlowController
    → Option FlowControlError × FlowControlManager
unfolding received_on the_increment
highest_found id byte_offset m none = (some map_access, m)
highest_found id byte_offset m (some c) =
    received_on id (the_increment (update_highest_received byte_offset c).0)
      (update_highest_received byte_offset c).1 m

unfoldable pub update_stream_highest_received :
    ℕ → ℕ → FlowControlManager → Option FlowControlError × FlowControlManager
unfolding highest_found get_flow_controller
update_stream_highest_received id byte_offset m =
    highest_found id byte_offset m (get_flow_controller id m)

-- What AddBytesRead, AddBytesSent and AddBytesRetrans share: `f` on the stream, and on the
-- connection when the stream contributes to it.
unfoldable pub on_both :
    (FlowController → FlowController)
    → ℕ
    → FlowControlManager
    → Option FlowController
    → Option FlowControlError × FlowControlManager
on_both f id m none = (some map_access, m)
on_both f id m (some c) = (
  none,
  record {
    stream_flow_controller = store id (f c) m.stream_flow_controller;
    conn_flow_controller =
        if c.contributes_to_connection then f m.conn_flow_controller else m.conn_flow_controller;
  },
)

unfoldable pub add_stream_bytes_read :
    ℕ → ℕ → ℕ → FlowControlManager → Option FlowControlError × FlowControlManager
unfolding on_both get_flow_controller
add_stream_bytes_read now id n m = on_both (add_bytes_read now n) id m (get_flow_controller id m)

unfoldable pub add_stream_bytes_sent :
    ℕ → ℕ → FlowControlManager → Option FlowControlError × FlowControlManager
unfolding on_both get_flow_controller
add_stream_bytes_sent id n m = on_both (add_bytes_sent n) id m (get_flow_controller id m)

unfoldable pub add_stream_bytes_retrans :
    ℕ → ℕ → FlowControlManager → Option FlowControlError × FlowControlManager
unfolding on_both get_flow_controller
add_stream_bytes_retrans id n m = on_both (add_bytes_retrans n) id m (get_flow_controller id m)

-- One turn of the loop over the streams: the updates so far, and the connection's controller. The
-- float64 product by 1.5 is exact, as long as the increment is below 2 ^ 52.
unfoldable pub stream_update :
    Bool
    → ℕ
    → List WindowUpdate × FlowController
    → (Bool × ℕ × ℕ) × FlowController
    → List WindowUpdate × FlowController
stream_update force id (res, conn) ((necessary, increment, offset), c) =
    if force || necessary
    then (
      res ++ (record { stream_id = id; offset = offset } ∷ []),
      if c.contributes_to_connection && not (increment == 0)
          then ensure_minimum_window_increment (u64 (3 * increment / 2)) conn
          else conn,
    )
    else (res, conn)

-- The loop: the controllers after it, and the updates with the connection's controller.
unfoldable pub stream_updates :
    Parameters
    → ℕ
    → Bool
    → List (ℕ × FlowController)
    → List WindowUpdate × FlowController
    → List (ℕ × FlowController) × (List WindowUpdate × FlowController)
unfolding stream_update
stream_updates ps now force [] acc = ([], acc)
stream_updates ps now force ((id, c) ∷ cs) acc =
    let updated = maybe_update_window ps now c in
    let rest = stream_updates ps now force cs (stream_update force id acc updated) in
    ((id, updated.1) ∷ rest.0, rest.1)

-- The connection's turn, after the loop.
unfoldable pub conn_update :
    Bool
    → List (ℕ × FlowController)
    → List WindowUpdate
    → (Bool × ℕ × ℕ) × FlowController
    → List WindowUpdate × FlowControlManager
conn_update force streams res ((necessary, increment, offset), conn) = (
  if force || necessary then res ++ (record { stream_id = 0; offset = offset } ∷ []) else res,
  record { stream_flow_controller = streams; conn_flow_controller = conn },
)

unfoldable pub get_window_updates :
    Parameters → ℕ → Bool → FlowControlManager → List WindowUpdate × FlowControlManager
unfolding stream_updates conn_update
get_window_updates ps now force m =
    let streams =
      stream_updates ps now force m.stream_flow_controller ([], m.conn_flow_controller) in
    conn_update force streams.0 streams.1.0 (maybe_update_window ps now streams.1.1)

unfoldable pub get_receive_window : ℕ → FlowControlManager → Option ℕ
unfolding get_flow_controller
get_receive_window id m =
    if id == 0
    then some m.conn_flow_controller.receive_window
    else map_option (λ c. c.receive_window) (get_flow_controller id m)

unfoldable pub get_bytes_sent : ℕ → FlowControlManager → Option ℕ
unfolding get_flow_controller
get_bytes_sent id m = map_option (λ c. c.bytes_sent) (get_flow_controller id m)

unfoldable pub get_bytes_retrans : ℕ → FlowControlManager → Option ℕ
unfolding get_flow_controller
get_bytes_retrans id m = map_option (λ c. c.bytes_retrans) (get_flow_controller id m)

unfoldable pub remaining_connection_window_size : Parameters → FlowControlManager → ℕ
remaining_connection_window_size ps m = send_window_size ps m.conn_flow_controller

unfoldable pub stream_send_window_size : Parameters → FlowControlManager → FlowController → ℕ
stream_send_window_size ps m c =
    if c.contributes_to_connection
    then min (send_window_size ps c) (send_window_size ps m.conn_flow_controller)
    else send_window_size ps c

unfoldable pub get_send_window_size : Parameters → ℕ → FlowControlManager → Option ℕ
unfolding stream_send_window_size get_flow_controller
get_send_window_size ps id m = map_option (stream_send_window_size ps m) (get_flow_controller id m)

-- `none` is errMapAccess; else whether the window was updated.
unfoldable pub update_found :
    ℕ → ℕ → FlowControlManager → Option FlowController → Option Bool × FlowControlManager
update_found id offset m none = (none, m)
update_found id offset m (some c) = (
  some (update_send_window offset c).0,
  record m {
    stream_flow_controller = store id (update_send_window offset c).1 m.stream_flow_controller;
  },
)

unfoldable pub update_window : ℕ → ℕ → FlowControlManager → Option Bool × FlowControlManager
unfolding update_found get_flow_controller
update_window id offset m =
    if id == 0
    then (
      some (update_send_window offset m.conn_flow_controller).0,
      record m { conn_flow_controller = (update_send_window offset m.conn_flow_controller).1 },
    )
    else update_found id offset m (get_flow_controller id m)
