-- ===== src/Ackhandler/Received/Inv.antt =====
-- What holds of the receiving side between two calls, and that each call keeps it.
use mpquic_latency.Base.{
  ℕ, ◌+◌, ◌<◌, ◌≤◌, ◌^◌, ◌≡◌, refl, Bool, true, false, List, [], ◌∷◌, leb, if◌then◌else◌, is_none,
  Option, none, some, arith, max,
}
use mpquic_latency.Ackhandler.History
use mpquic_latency.Ackhandler.History.{
  PacketInterval, insert_range, merge_prev, delete_loop, delete_step, contains, IsDescending,
  delete_up_to, new_received_packet_history, HistoryError, ReceivedPacketHistory,
}
use mpquic_latency.Ackhandler.Received.{
  after_history, ReceivedPacketHandler, new_received_packet_handler, received_packet,
  maybe_queue_ack,
}

-- `n` is the highest number of the intervals, and 0 where there is none.
abbrev pub Top : ℕ → List PacketInterval → Type 0
Top n [] = n ≡ 0
Top n (r ∷ rest) = r.end ≡ n

pub record IsValid (h : ReceivedPacketHandler) : Type 0 where
  pub ordered : IsDescending h.packet_history.ranges
  pub top : Top h.largest_observed h.packet_history.ranges
  pub limited : (x : ℕ) → contains x h.packet_history.ranges ≡ true → h.lower_limit < x
  pub limit_seen : h.lower_limit ≤ h.largest_observed
  pub queued_seen : h.ack_queued ≡ true → 0 < h.largest_observed
  pub alarm_seen : is_none h.ack_alarm ≡ false → 0 < h.largest_observed
  pub largest_fits : h.largest_observed + 1 < 2 ^ 64

pub insert_range-Top :
    (n p : ℕ) (l : List PacketInterval)
    → p + 1 < 2 ^ 64
    → IsDescending l
    → Top n l
    → Top (max n p) (insert_range p l)
unfolding insert_range merge_prev
insert_range-Top n p [] b d t = ground arith
insert_range-Top n p (el ∷ []) b d t = ground arith
insert_range-Top n p (el ∷ prev ∷ rest) b d t = ground arith

delete_step-Top :
    (n p : ℕ) (el : PacketInterval) (r : Bool × List PacketInterval)
    → p < n
    → el.end ≡ n
    → Top n (delete_step p el r).1
unfolding delete_step
delete_step-Top n p el (true, l) h e = e
delete_step-Top n p el (false, l) h e = ground arith

pub delete_loop-Top :
    (n p : ℕ) (l : List PacketInterval) → p < n → Top n l → Top n (delete_loop p l).1
unfolding delete_loop
delete_loop-Top n p [] h t = t
delete_loop-Top n p (el ∷ rest) h t = delete_step-Top n p el (delete_loop p rest) h t

pub new_received_packet_handler-IsValid : (v : ℕ) → IsValid (new_received_packet_handler v)
unfolding new_received_packet_handler
new_received_packet_handler-IsValid v = record {
  ordered = tt;
  top = refl;
  limited = λ x h. cc;
  limit_seen = omega arith;
  queued_seen = λ h. cc;
  alarm_seen = λ h. cc;
  largest_fits = omega arith;
}

-- What maybeQueueAck leaves alone.
maybe_queue_ack_frame :
    (n : ℕ) (s : Bool) (now : ℕ) (h : ReceivedPacketHandler)
    → ((maybe_queue_ack n s now h).packet_history ≡ h.packet_history)
      × ((maybe_queue_ack n s now h).largest_observed ≡ h.largest_observed)
      × ((maybe_queue_ack n s now h).lower_limit ≡ h.lower_limit)
unfolding maybe_queue_ack
maybe_queue_ack_frame n s now h = ground arith

after_history_frame :
    (n : ℕ) (s : Bool) (now : ℕ) (h : ReceivedPacketHandler)
    (r : Option HistoryError × ReceivedPacketHistory)
    → (after_history n s now h r).0 ≡ none
    → ((after_history n s now h r).1.packet_history ≡ r.1)
      × ((after_history n s now h r).1.largest_observed ≡ h.largest_observed)
      × ((after_history n s now h r).1.lower_limit ≡ h.lower_limit)
      × (r.0 ≡ none)
unfolding after_history
after_history_frame n s now h (some e, history) q = cc
after_history_frame n s now h (none, history) q =
    let (a, b, c) = maybe_queue_ack_frame n s now (record h { packet_history = history }) in
    (a, b, c, refl)

ranges_after :
    (n : ℕ) (h : ReceivedPacketHistory)
    → (History.received_packet n h).0 ≡ none
    → (History.received_packet n h).1.ranges ≡ insert_range n h.ranges
unfolding History.received_packet
ranges_after n h e = ground arith

-- What a call of ReceivedPacket that returns no error does.
pub received_packet_effect :
    (n : ℕ) (s : Bool) (len now : ℕ) (h : ReceivedPacketHandler)
    → (received_packet n s len now h).0 ≡ none
    → (0 < n)
      × ((received_packet n s len now h).1.largest_observed ≡ max h.largest_observed n)
      × ((received_packet n s len now h).1.lower_limit ≡ h.lower_limit)
      × ((received_packet n s len now h).1.packet_history.ranges ≡ (
          if leb n h.lower_limit
          then h.packet_history.ranges
          else insert_range n h.packet_history.ranges))
unfolding received_packet
received_packet_effect n s len now h e = grind (arith, after_history_frame, ranges_after)
