-- ===== src/Ackhandler/Sent/Trace.antt =====
-- The sending side over any sequence of calls.
use mpquic_latency.Base.{ℕ, ◌<◌, ◌^◌, refl, List, [], ◌∷◌, arith}
use mpquic_latency.Wire.AckFrame.{AckFrame, ClosePathFrame}
use mpquic_latency.Ackhandler.Packet.{Packet}
use mpquic_latency.Ackhandler.Sent.State.{Environment, SentPacketHandler, new_sent_packet_handler}
use mpquic_latency.Ackhandler.Sent.Loss.{on_alarm, set_inflight_as_lost}
use mpquic_latency.Ackhandler.Sent.Ops.{
  sent_packet, received_ack, received_close_path, remove_packet_by_number,
  dequeue_packet_for_retransmission, duplicate_packet, pop_queue,
}
use mpquic_latency.Ackhandler.Sent.Inv.{IsValid}
use mpquic_latency.Ackhandler.Sent.Keeps.{on_alarm-IsValid, set_inflight_as_lost-IsValid}
use mpquic_latency.Ackhandler.Sent.Receive.{
  received_ack-IsValid, received_close_path-IsValid, remove_packet_by_number-IsValid,
}
use mpquic_latency.Ackhandler.Sent.Send.{sent_packet-IsValid}

module _ {E : Type 0} (c : Environment E) where
  -- A call of the handler's interface, with the frames and packets that others choose; an error is
  -- returned and leaves the handler in the state shown. Another path's acknowledgement may remove a
  -- packet at any time, and change the environment.
  pub data Step : SentPacketHandler E → SentPacketHandler E → Type 0 where
    send :
        {h : SentPacketHandler E} (now : ℕ) (p : Packet)
        → p.length < 2 ^ 64
        → Step h (sent_packet c now p h).1
    ack :
        {h : SentPacketHandler E} (f : AckFrame) (pn rcv now_rtt now : ℕ)
        → Step h (received_ack c f pn rcv now_rtt now h).1
    close_path :
        {h : SentPacketHandler E} (f : ClosePathFrame) (pn : ℕ)
        → Step h (received_close_path c f pn h).1
    timer : {h : SentPacketHandler E} (now : ℕ) → Step h (on_alarm c now h)
    give_up : {h : SentPacketHandler E} → Step h (set_inflight_as_lost c h)
    drop_duplicate : {h : SentPacketHandler E} (n : ℕ) → Step h (remove_packet_by_number c n h).1
    dequeue : {h : SentPacketHandler E} → Step h (dequeue_packet_for_retransmission c h).1
    duplicate : {h : SentPacketHandler E} (p : Packet) → Step h (duplicate_packet c p h)
    outside : {h : SentPacketHandler E} (env : E) → Step h (record h { env = env })

  pub data Reach (env : E) (path_id : ℕ) : SentPacketHandler E → Type 0 where
    start : Reach env path_id (new_sent_packet_handler c env path_id)
    next : {h h' : SentPacketHandler E} → Reach env path_id h → Step h h' → Reach env path_id h'

  pop_queue-IsValid :
      (queue : List Packet) {h : SentPacketHandler E} → IsValid h → IsValid (pop_queue c queue h).1
  unfolding pop_queue
  pop_queue-IsValid [] v = v
  pop_queue-IsValid (p ∷ rest) v = record { flight = v.flight; acked_sent = v.acked_sent }

  pub Step-IsValid : {h h' : SentPacketHandler E} → Step h h' → IsValid h → IsValid h'
  Step-IsValid (send now p fits) v = sent_packet-IsValid c now p fits v
  Step-IsValid (ack f pn rcv now_rtt now) v = received_ack-IsValid c f pn rcv now_rtt now v
  Step-IsValid (close_path f pn) v = received_close_path-IsValid c f pn v
  Step-IsValid (timer now) v = on_alarm-IsValid c now v
  Step-IsValid give_up v = set_inflight_as_lost-IsValid c v
  Step-IsValid (drop_duplicate n) v = remove_packet_by_number-IsValid c n v
  Step-IsValid {h} dequeue v =
      unfold dequeue_packet_for_retransmission in pop_queue-IsValid h.retransmission_queue v
  Step-IsValid (duplicate p) v =
      unfold duplicate_packet in record { flight = v.flight; acked_sent = v.acked_sent }
  Step-IsValid (outside env) v = record { flight = v.flight; acked_sent = v.acked_sent }

  new-IsValid : (env : E) (path_id : ℕ) → IsValid (new_sent_packet_handler c env path_id)
  unfolding new_sent_packet_handler
  new-IsValid env path_id = record {
    flight = record { ascends = tt; tracked = tt; in_flight = refl };
    acked_sent = omega arith;
  }

  -- After any sequence of calls, whatever the peer sends and the timers do: the packets in flight are
  -- in the order of their numbers, all were sent, each has something to retransmit, and
  -- `bytesInFlight` is the sum of their lengths as a uint64.
  pub Reach-IsValid :
      {env : E} {path_id : ℕ} {h : SentPacketHandler E} → Reach env path_id h → IsValid h
  Reach-IsValid {env} {path_id} start = new-IsValid env path_id
  Reach-IsValid (next r s) = Step-IsValid s (Reach-IsValid r)
