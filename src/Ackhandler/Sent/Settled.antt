-- ===== src/Ackhandler/Sent/Settled.antt =====
-- What an ACK frame settles: no packet that it acknowledges stays in flight.
use mpquic_latency.Base.{
  ℕ, ◌<◌, ◌≤◌, ◌≡◌, refl, ap, ◌∙◌, Bool, true, false, not, List, [], ◌∷◌, none, some, arith,
  Bool-cases, inl, inr, All, ◌==◌,
}
use mpquic_latency.Wire.AckFrame.{AckFrame, acks_packet, validate_ack_ranges}
use mpquic_latency.Ackhandler.Packet.{Packet}
use mpquic_latency.Ackhandler.Sent.State.{
  Environment, SentPacketHandler, update_loss_detection_alarm,
}
use mpquic_latency.Ackhandler.Sent.Acked.{determine_newly_acked_packets}
use mpquic_latency.Ackhandler.Sent.Loss.{remove_packet, queue_lost, detect_lost_packets}
use mpquic_latency.Ackhandler.Sent.Ops.{
  ack_packets, finish_ack, received_ack, maybe_update_rtt, largest_in_order_acked,
}
use mpquic_latency.Ackhandler.Sent.Flight.{Ascends, remove_packet-All}
use mpquic_latency.Ackhandler.Sent.Walk.{select}
use mpquic_latency.Ackhandler.Sent.Validated.{Fits, determine_newly_acked_packets-select}
use mpquic_latency.Ackhandler.Sent.Inv.{IsValid}

abbrev remove_each : List Packet → List Packet → List Packet
remove_each [] l = l
remove_each (p ∷ ps) l = remove_each ps (remove_packet p.packet_number l)

remove_each-cons :
    (q : Packet) (ps l : List Packet)
    → All (λ p. q.packet_number < p.packet_number) ps
    → remove_each ps (q ∷ l) ≡ q ∷ remove_each ps l
unfolding remove_packet
remove_each-cons q [] l a = refl
remove_each-cons q (p ∷ ps) l a =
    let e : (q.packet_number == p.packet_number) ≡ false = ground arith in
    rw e (remove_each-cons q ps (remove_packet p.packet_number l) a.1)

remove_packet-head : (p : Packet) (l : List Packet) → remove_packet p.packet_number (p ∷ l) ≡ l
unfolding remove_packet
remove_packet-head p l = ground arith

remove_each-head :
    (p : Packet) (ps l : List Packet) → remove_each (p ∷ ps) (p ∷ l) ≡ remove_each ps l
remove_each-head p ps l = ap (remove_each ps) (remove_packet-head p l)

select-above :
    (acked : ℕ → Bool) (lo lo' : ℕ) (l : List Packet)
    → lo' ≤ lo
    → Ascends lo l
    → All (λ p. lo' < p.packet_number) (select acked l)
select-above acked lo lo' [] b a = tt
select-above acked lo lo' (p ∷ l) b a = elim (Bool-cases (acked p.packet_number)) [
  | inl e ↦ rw e (omega arith, select-above acked p.packet_number lo' l (omega arith) a.1)
  | inr e ↦ rw e (select-above acked p.packet_number lo' l (omega arith) a.1)
]

-- Taking out what was selected leaves what was not.
remove_each-select :
    (acked : ℕ → Bool) (lo : ℕ) (l : List Packet)
    → Ascends lo l
    → remove_each (select acked l) l ≡ select (λ n. not (acked n)) l
unfolding remove_packet
remove_each-select acked lo [] a = refl
remove_each-select acked lo (p ∷ l) a = elim (Bool-cases (acked p.packet_number)) [
  | inl e ↦
      rw e (remove_each-head p (select acked l) l ∙ remove_each-select acked p.packet_number l a.1)
  | inr e ↦ rw e (
      remove_each-cons p (select acked l) l
        (select-above acked p.packet_number p.packet_number l (omega arith) a.1)
      ∙ ap (λ (r : List Packet). p ∷ r) (remove_each-select acked p.packet_number l a.1))
]

select-All :
    (acked : ℕ → Bool) (l : List Packet)
    → All (λ p. acked p.packet_number ≡ false) (select (λ n. not (acked n)) l)
select-All acked [] = tt
select-All acked (p ∷ l) = elim (Bool-cases (acked p.packet_number)) [
  | inl e ↦ rw e (select-All acked l)
  | inr e ↦ rw e (e, select-All acked l)
]

module _ {E : Type 0} (c : Environment E) where
  ack_packets-history :
      (ps : List Packet) (h : SentPacketHandler E)
      → (ack_packets c ps h).packet_history ≡ remove_each ps h.packet_history
  unfolding ack_packets
  ack_packets-history [] h = refl
  ack_packets-history (p ∷ ps) h = ack_packets-history ps _

  queue_lost-All :
      (P : Packet → Type 0) (ps : List Packet) (h : SentPacketHandler E)
      → All P h.packet_history
      → All P (queue_lost c ps h).packet_history
  unfolding queue_lost
  queue_lost-All P [] h a = a
  queue_lost-All P (p ∷ ps) h a =
      queue_lost-All P ps _ (remove_packet-All P p.packet_number h.packet_history a)

  alarm-history :
      (h : SentPacketHandler E)
      → (update_loss_detection_alarm c h).packet_history ≡ h.packet_history
  unfolding update_loss_detection_alarm
  alarm-history h = ground arith

  finish_ack-All :
      (P : Packet → Type 0) (largest now : ℕ) (ps : List Packet) (h : SentPacketHandler E)
      → All P (remove_each ps h.packet_history)
      → All P (finish_ack c largest now (some ps) h).1.packet_history
  unfolding finish_ack detect_lost_packets
  finish_ack-All P largest now ps h a =
      rw alarm-history (queue_lost-All P _ _ (rw ack_packets-history a))

  larger : AckFrame → ℕ → ℕ → ℕ → SentPacketHandler E → SentPacketHandler E
  larger f pn rcv now_rtt h = record h {
    largest_received_packet_with_ack = pn;
    largest_acked = f.largest_acked;
    env = maybe_update_rtt c f.largest_acked f.delay_time rcv now_rtt h.packet_history h.env;
  }

  -- The way through ReceivedAck that is neither refused nor ignored.
  received_ack_accepted :
      (f : AckFrame) (pn rcv now_rtt now : ℕ) (h : SentPacketHandler E)
      → largest_in_order_acked c h < f.largest_acked
      → (received_ack c f pn rcv now_rtt now h).0 ≡ none
      → received_ack c f pn rcv now_rtt now h
        ≡ finish_ack c f.largest_acked now
            (determine_newly_acked_packets f.lowest_acked f.largest_acked f.ack_ranges
              h.packet_history)
            (larger f pn rcv now_rtt h)
  unfolding received_ack larger
  received_ack_accepted f pn rcv now_rtt now h new e = ground arith

  -- An ACK frame with valid ranges that is not refused and reports something new: afterwards no
  -- packet in flight is one that the frame acknowledges.
  pub received_ack_settles :
      (f : AckFrame) (pn rcv now_rtt now : ℕ) (h : SentPacketHandler E)
      → IsValid h
      → Fits f.ack_ranges
      → validate_ack_ranges f.largest_acked f.ack_ranges ≡ true
      → largest_in_order_acked c h < f.largest_acked
      → (received_ack c f pn rcv now_rtt now h).0 ≡ none
      → All
          (λ p. acks_packet f p.packet_number ≡ false)
          (received_ack c f pn rcv now_rtt now h).1.packet_history
  unfolding acks_packet larger
  received_ack_settles f pn rcv now_rtt now h v fits valid new e =
      let cut =
        determine_newly_acked_packets-select f.lowest_acked f.largest_acked f.ack_ranges
          h.packet_history fits valid v.flight.ascends in
      let quiet = received_ack_accepted f pn rcv now_rtt now h new e in
      rw quiet (
        rw cut (
          finish_ack-All _ f.largest_acked now _ _ (
            rw (remove_each-select (acks_packet f) 0 h.packet_history v.flight.ascends)
              (select-All (acks_packet f) h.packet_history))))
