-- ===== src/Ackhandler/Sent/Inv.antt =====
-- The invariant of the sending side, through the loops that take packets out of the history.
use mpquic_latency.Base.{
  ℕ, ◌+◌, ◌-◌, if◌then◌else◌, ◌≤◌, ◌≡◌, List, [], ◌∷◌, Option, some, length, ltb, Bool-cases, inl,
  inr, is_none, ◌==◌,
}
use mpquic_latency.Ackhandler.Packet.{Packet}
use mpquic_latency.Ackhandler.Sent.State.{
  Environment, SentPacketHandler, update_loss_detection_alarm,
}
use mpquic_latency.Ackhandler.Sent.Loss.{
  queue_packet_for_retransmission, report_lost, queue_lost, find_lost, up_to, last_packet,
}
use mpquic_latency.Ackhandler.Sent.Flight.{Flight, Sub, nothing, skip, take, Flight-take}

pub record IsValid {E : Type 0} (h : SentPacketHandler E) : Type 0 where
  pub flight : Flight h.last_sent_packet_number h.packet_history h.bytes_in_flight
  pub acked_sent : h.largest_acked ≤ h.last_sent_packet_number

pub Sub-refl : (l : List Packet) → Sub l l
Sub-refl [] = nothing
Sub-refl (p ∷ l) = take (Sub-refl l)

pub find_lost-Sub :
    (now delay largest : ℕ) (time : Option ℕ) (l : List Packet)
    → Sub (find_lost now delay largest time l).0 l
unfolding find_lost
find_lost-Sub now delay largest time [] = nothing
find_lost-Sub now delay largest time (p ∷ l) = elim (Bool-cases (ltb largest p.packet_number)) [
  | inl e ↦ rw e nothing
  | inr e ↦ rw e (elim (Bool-cases (ltb delay (now - p.send_time))) [
    | inl f ↦ rw f (take (find_lost-Sub now delay largest time l))
    | inr f ↦ rw f (
        skip (
          find_lost-Sub now delay largest
            (if is_none time then some (now + (delay - (now - p.send_time))) else time) l))
  ])
]

pub up_to-Sub : (largest : ℕ) (l : List Packet) → Sub (up_to largest l) l
unfolding up_to
up_to-Sub largest [] = nothing
up_to-Sub largest (p ∷ l) = elim (Bool-cases (ltb largest p.packet_number)) [
  | inl e ↦ rw e nothing
  | inr e ↦ rw e (take (up_to-Sub largest l))
]

pub last_packet-Sub : (p : Packet) (l : List Packet) → last_packet l ≡ some p → Sub (p ∷ []) l
unfolding last_packet
last_packet-Sub p [] e = cc
last_packet-Sub p (q ∷ []) e = let same : q ≡ p = cc in rw same (take nothing)
last_packet-Sub p (q ∷ r ∷ l) e = skip (last_packet-Sub p (r ∷ l) e)

module _ {E : Type 0} (c : Environment E) where
  pub update_loss_detection_alarm-IsValid :
      {h : SentPacketHandler E} → IsValid h → IsValid (update_loss_detection_alarm c h)
  unfolding update_loss_detection_alarm
  update_loss_detection_alarm-IsValid {h} v = elim (Bool-cases (length h.packet_history == 0)) [
    | inl e ↦ rw e (record { flight = v.flight; acked_sent = v.acked_sent })
    | inr e ↦ rw e (record { flight = v.flight; acked_sent = v.acked_sent })
  ]

  pub queue_packet-IsValid :
      {p : Packet} {ps : List Packet} {h : SentPacketHandler E}
      → Sub (p ∷ ps) h.packet_history
      → IsValid h
      → Sub ps (queue_packet_for_retransmission c p h).packet_history
        × IsValid (queue_packet_for_retransmission c p h)
  unfolding queue_packet_for_retransmission
  queue_packet-IsValid s v =
      let (sub, f) = Flight-take s v.flight in
      (sub, record { flight = f; acked_sent = v.acked_sent })

  pub queue_lost-IsValid :
      (ps : List Packet) {h : SentPacketHandler E}
      → Sub ps h.packet_history
      → IsValid h
      → IsValid (queue_lost c ps h)
  unfolding queue_lost
  queue_lost-IsValid [] s v = v
  queue_lost-IsValid (p ∷ ps) {h} s v =
      let (sub, w) = queue_packet-IsValid s v in
      queue_lost-IsValid ps {h = report_lost c p (queue_packet_for_retransmission c p h)} sub
        (record { flight = w.flight; acked_sent = w.acked_sent })
