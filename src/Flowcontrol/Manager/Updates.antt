-- ===== src/Flowcontrol/Manager/Updates.antt =====
-- What GetWindowUpdates announces, and what the send windows leave.
use mpquic_latency.Base.{
  ℕ, ◌<◌, ◌≤◌, ◌^◌, ◌≡◌, refl, ap, sym, ◌∙◌, Bool, true, List, [], ◌∷◌, ◌++◌, map, none, some,
  arith, Bool-cases, inl, inr, if◌then◌else◌,
}
use mathlib.Core.List.{append-nil}
use mpquic_latency.Flowcontrol.Controller.{
  Parameters, FlowController, maybe_update_window, get_send_window, send_window_size,
  add_bytes_sent,
}
use mpquic_latency.Flowcontrol.Controller.Windows.{add_bytes_sent-send_window_size}
use mpquic_latency.Flowcontrol.Manager.Limits.{find-store}
use mpquic_latency.Flowcontrol.Manager.{
  FlowControlManager, WindowUpdate, stream_update, stream_updates, get_window_updates,
  stream_send_window_size, add_stream_bytes_sent, on_both, get_flow_controller,
}

unfoldable pub announce : ℕ × FlowController → WindowUpdate
announce (id, c) = record { stream_id = id; offset = c.receive_window }

maybe_update_window_offset :
    (ps : Parameters) (now : ℕ) (c : FlowController)
    → (maybe_update_window ps now c).0.2 ≡ (maybe_update_window ps now c).1.receive_window
unfolding maybe_update_window
maybe_update_window_offset ps now c = ground arith

stream_update_forced :
    (id : ℕ) (acc : List WindowUpdate × FlowController) (r : (Bool × ℕ × ℕ) × FlowController)
    → r.0.2 ≡ r.1.receive_window
    → (stream_update true id acc r).0 ≡ acc.0 ++ (announce (id, r.1) ∷ [])
unfolding stream_update announce
stream_update_forced id (res, conn) ((necessary, increment, offset), c) e = rw e refl

append_assoc : (xs ys zs : List WindowUpdate) → (xs ++ ys) ++ zs ≡ xs ++ (ys ++ zs)
append_assoc [] ys zs = refl
append_assoc (x ∷ xs) ys zs = ap (λ l. x ∷ l) (append_assoc xs ys zs)

stream_updates_forced :
    (ps : Parameters) (now : ℕ) (cs : List (ℕ × FlowController))
    (acc : List WindowUpdate × FlowController)
    → (stream_updates ps now true cs acc).1.0
      ≡ acc.0 ++ map announce (stream_updates ps now true cs acc).0
unfolding stream_updates
stream_updates_forced ps now [] acc = sym (append-nil acc.0)
stream_updates_forced ps now ((id, c) ∷ cs) acc =
    stream_updates_forced ps now cs (stream_update true id acc (maybe_update_window ps now c))
    ∙ rw
        (stream_update_forced id acc (maybe_update_window ps now c)
          (maybe_update_window_offset ps now c))
        (append_assoc acc.0 _ _)

-- Asked to, GetWindowUpdates announces every stream and then the connection, in that order, each with
-- the receive window that its controller has afterwards.
pub get_window_updates_forced :
    (ps : Parameters) (now : ℕ) (m : FlowControlManager)
    → (get_window_updates ps now true m).0
      ≡ map announce (get_window_updates ps now true m).1.stream_flow_controller
        ++ (announce (0, (get_window_updates ps now true m).1.conn_flow_controller) ∷ [])
unfolding get_window_updates announce
get_window_updates_forced ps now m =
    rw
      (
        stream_updates_forced ps now m.stream_flow_controller ([], m.conn_flow_controller),
        maybe_update_window_offset ps now _,
      )
      refl

stream_fits :
    (ps : Parameters) (n : ℕ) (c : FlowController) (m : FlowControlManager)
    → n ≤ stream_send_window_size ps m c
    → n ≤ send_window_size ps c
unfolding stream_send_window_size
stream_fits ps n c m l = ground arith

conn_sent_fits :
    (ps : Parameters) (n : ℕ) (c : FlowController) (m : FlowControlManager)
    → m.conn_flow_controller.bytes_sent ≤ get_send_window ps m.conn_flow_controller
    → get_send_window ps m.conn_flow_controller < 2 ^ 64
    → n ≤ stream_send_window_size ps m c
    → let conn =
        if c.contributes_to_connection
        then add_bytes_sent n m.conn_flow_controller
        else m.conn_flow_controller in
      conn.bytes_sent ≤ get_send_window ps conn
unfolding stream_send_window_size
conn_sent_fits ps n c m w d l = elim (Bool-cases c.contributes_to_connection) [
  | inl e ↦ rw e (add_bytes_sent-send_window_size ps n m.conn_flow_controller w d (ground arith)).0
  | inr e ↦ rw e w
]

-- Bytes within SendWindowSize can be sent: the stream is known, and what was sent stays within its
-- send window and, where it contributes, within the connection's.
pub add_stream_bytes_sent_fits :
    (ps : Parameters) (id n : ℕ) (c : FlowController) (m : FlowControlManager)
    → get_flow_controller id m ≡ some c
    → c.bytes_sent ≤ get_send_window ps c
    → m.conn_flow_controller.bytes_sent ≤ get_send_window ps m.conn_flow_controller
    → get_send_window ps c < 2 ^ 64
    → get_send_window ps m.conn_flow_controller < 2 ^ 64
    → n ≤ stream_send_window_size ps m c
    → let r = add_stream_bytes_sent id n m in
      (r.0 ≡ none)
      × (get_flow_controller id r.1 ≡ some (add_bytes_sent n c))
      × ((add_bytes_sent n c).bytes_sent ≤ get_send_window ps (add_bytes_sent n c))
      × (r.1.conn_flow_controller.bytes_sent ≤ get_send_window ps r.1.conn_flow_controller)
      × (c.contributes_to_connection ≡ true
          → r.1.conn_flow_controller ≡ add_bytes_sent n m.conn_flow_controller)
unfolding add_stream_bytes_sent get_flow_controller on_both
add_stream_bytes_sent_fits ps id n c m f v w b d l = rw f (
  refl,
  find-store id c (add_bytes_sent n c) m.stream_flow_controller f,
  (add_bytes_sent-send_window_size ps n c v b (stream_fits ps n c m l)).0,
  conn_sent_fits ps n c m w d l,
  λ e. rw e refl,
)
