-- ===== src/Flowcontrol/Controller/Windows.antt =====
-- How the windows of one flow controller move.
use mpquic_latency.Base.{
  ℕ, ◌+◌, ◌*◌, ◌/◌, ◌-◌, ◌<◌, ◌≤◌, ◌^◌, ◌≡◌, true, false, arith, Bool-cases, inl, inr, ◌≢◌,
}
use mpquic_latency.Flowcontrol.Controller.{
  Parameters, FlowController, get_send_window, add_bytes_sent, update_send_window, send_window_size,
  updates_too_often, maybe_adjust_window_increment, maybe_update_window,
}

-- The increment stays within its maximum, and what was read within the window.
pub record IsValid (c : FlowController) : Type 0 where
  pub increment_capped : c.receive_window_increment ≤ c.max_receive_window_increment
  pub read_within : c.bytes_read ≤ c.receive_window
  pub no_overflow : c.receive_window + 2 * c.max_receive_window_increment < 2 ^ 64

adjusted_bounds :
    (ps : Parameters) (now : ℕ) (c : FlowController)
    → IsValid c
    → (c.receive_window_increment
        ≤ (maybe_adjust_window_increment ps now c).receive_window_increment)
      × ((maybe_adjust_window_increment ps now c).receive_window_increment
          ≤ c.max_receive_window_increment)
unfolding maybe_adjust_window_increment
adjusted_bounds ps now c v =
    elim (Bool-cases (updates_too_often ps now c.last_window_update_time)) [
      | inl e ↦ rw e (omega arith)
      | inr e ↦ rw e (omega arith)
    ]

-- Where the increment is at most its maximum, what was read at most the receive window, and the
-- window with twice the maximum below 2 ^ 64, MaybeUpdateWindow shrinks neither the receive window nor
-- the increment, announces the window, keeps the increment within its maximum, leaves a whole
-- increment free after an update, and at least half an increment where it makes none.
pub maybe_update_window_grows :
    (ps : Parameters) (now : ℕ) (c : FlowController)
    → IsValid c
    → let r = maybe_update_window ps now c in
      (c.receive_window ≤ r.1.receive_window)
      × (r.0.2 ≡ r.1.receive_window)
      × (c.receive_window_increment ≤ r.1.receive_window_increment)
      × (r.1.receive_window_increment ≤ c.max_receive_window_increment)
      × (r.0.0 ≡ true → r.1.receive_window ≡ r.1.bytes_read + r.1.receive_window_increment)
      × (r.0.0 ≡ false → c.receive_window_increment / 2 ≤ r.1.receive_window - r.1.bytes_read)
unfolding maybe_update_window
maybe_update_window_grows ps now c v = ground (arith, adjusted_bounds ps now c v)

-- With the bytes sent within a send window below 2 ^ 64, sending no more than SendWindowSize allows
-- keeps them within the send window, and uses up exactly that much of it.
pub add_bytes_sent-send_window_size :
    (ps : Parameters) (n : ℕ) (c : FlowController)
    → c.bytes_sent ≤ get_send_window ps c
    → get_send_window ps c < 2 ^ 64
    → n ≤ send_window_size ps c
    → ((add_bytes_sent n c).bytes_sent ≤ get_send_window ps (add_bytes_sent n c))
      × (send_window_size ps (add_bytes_sent n c) + n ≡ send_window_size ps c)
unfolding add_bytes_sent send_window_size get_send_window
add_bytes_sent-send_window_size ps n c v b l = ground arith

-- A window update that is reported as such raises the send window when an update came before it.
pub update_send_window_grows :
    (ps : Parameters) (offset : ℕ) (c : FlowController)
    → c.send_window ≢ 0
    → get_send_window ps c ≤ get_send_window ps (update_send_window offset c).1
unfolding update_send_window get_send_window
update_send_window_grows ps offset c n = ground arith

-- The first window update replaces the window of the connection parameters even by a smaller one:
-- it is reported as an update, and less may be sent after it than before.
pub update_send_window_shrinks :
    (ps : Parameters) (offset : ℕ) (c : FlowController)
    → c.send_window ≡ 0
    → 0 < offset
    → offset < get_send_window ps c
    → ((update_send_window offset c).0 ≡ true)
      × (get_send_window ps (update_send_window offset c).1 < get_send_window ps c)
unfolding update_send_window get_send_window
update_send_window_shrinks ps offset c z p l = ground arith
