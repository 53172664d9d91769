-- ===== src/Ackhandler/Sent/Keeps.antt =====
-- Every operation of the sending side keeps the packets in flight in order and their bytes counted.
use mpquic_latency.Base.{
  ℕ, ◌+◌, ◌%◌, ◌^◌, List, [], ◌∷◌, none, ltb, Bool-cases, inl, inr, is_none, Option-cases,
}
use mpquic_latency.Ackhandler.Packet.{Packet}
use mpquic_latency.Ackhandler.Sent.State.{Environment, SentPacketHandler, max_tail_loss_probes}
use mpquic_latency.Ackhandler.Sent.Loss.{
  last_packet, detect_lost_packets, set_inflight_as_lost, queue_rto, queue_all_rto, retransmit_tlp,
  retransmit_all_packets, retransmit_front, retransmit_oldest_packet, retransmit_oldest_two_packets,
  retransmission_timeout, on_rto, on_alarm, has_outstanding_retransmittable_packet,
}
use mpquic_latency.Ackhandler.Sent.Flight.{Sub}
use mpquic_latency.Ackhandler.Sent.Inv.{
  IsValid, Sub-refl, find_lost-Sub, up_to-Sub, last_packet-Sub, update_loss_detection_alarm-IsValid,
  queue_packet-IsValid, queue_lost-IsValid,
}

module _ {E : Type 0} (c : Environment E) where
  pub detect_lost_packets-IsValid :
      (now : ℕ) {h : SentPacketHandler E} → IsValid h → IsValid (detect_lost_packets c now h)
  unfolding detect_lost_packets
  detect_lost_packets-IsValid now {h} v =
      queue_lost-IsValid c _ (find_lost-Sub now _ h.largest_acked none h.packet_history)
        (record { flight = v.flight; acked_sent = v.acked_sent })

  pub set_inflight_as_lost-IsValid :
      {h : SentPacketHandler E} → IsValid h → IsValid (set_inflight_as_lost c h)
  unfolding set_inflight_as_lost
  set_inflight_as_lost-IsValid {h} v =
      queue_lost-IsValid c _ (up_to-Sub h.largest_acked h.packet_history)
        (record { flight = v.flight; acked_sent = v.acked_sent })

  queue_rto-IsValid :
      {p : Packet} {ps : List Packet} {h : SentPacketHandler E}
      → Sub (p ∷ ps) h.packet_history
      → IsValid h
      → Sub ps (queue_rto c p h).packet_history × IsValid (queue_rto c p h)
  unfolding queue_rto
  queue_rto-IsValid s v =
      let (sub, w) = queue_packet-IsValid c s v in
      (sub, record { flight = w.flight; acked_sent = w.acked_sent })

  queue_all_rto-IsValid :
      (ps : List Packet) {h : SentPacketHandler E}
      → Sub ps h.packet_history
      → IsValid h
      → IsValid (queue_all_rto c ps h)
  unfolding queue_all_rto
  queue_all_rto-IsValid [] s v = v
  queue_all_rto-IsValid (p ∷ ps) s v =
      let (sub, w) = queue_rto-IsValid s v in queue_all_rto-IsValid ps sub w

  retransmit_front-IsValid :
      (l : List Packet) {h : SentPacketHandler E}
      → Sub l h.packet_history
      → IsValid h
      → IsValid (retransmit_front c l h)
  unfolding retransmit_front
  retransmit_front-IsValid [] s v = v
  retransmit_front-IsValid (p ∷ l) s v = (queue_rto-IsValid s v).1

  retransmission_timeout-IsValid :
      {h : SentPacketHandler E} → IsValid h → IsValid (retransmission_timeout c h)
  unfolding retransmission_timeout
  retransmission_timeout-IsValid v = record { flight = v.flight; acked_sent = v.acked_sent }

  retransmit_oldest_packet-IsValid :
      {h : SentPacketHandler E} → IsValid h → IsValid (retransmit_oldest_packet c h)
  unfolding retransmit_oldest_packet
  retransmit_oldest_packet-IsValid {h} v =
      retransmit_front-IsValid h.packet_history (Sub-refl h.packet_history) v

  retransmit_oldest_two_packets-IsValid :
      {h : SentPacketHandler E} → IsValid h → IsValid (retransmit_oldest_two_packets c h)
  unfolding retransmit_oldest_two_packets
  retransmit_oldest_two_packets-IsValid v =
      retransmission_timeout-IsValid
        (retransmit_oldest_packet-IsValid (retransmit_oldest_packet-IsValid v))

  retransmit_all_packets-IsValid :
      {h : SentPacketHandler E} → IsValid h → IsValid (retransmit_all_packets c h)
  unfolding retransmit_all_packets
  retransmit_all_packets-IsValid {h} v =
      retransmission_timeout-IsValid
        (queue_all_rto-IsValid h.packet_history (Sub-refl h.packet_history) v)

  retransmit_tlp-IsValid : {h : SentPacketHandler E} → IsValid h → IsValid (retransmit_tlp c h)
  unfolding retransmit_tlp
  retransmit_tlp-IsValid {h} v = elim (Option-cases (last_packet h.packet_history)) [
    | inl e ↦ rw (e, retransmit_tlp) v
    | inr (p, e) ↦
        rw (e, retransmit_tlp) (queue_packet-IsValid c (last_packet-Sub p h.packet_history e) v).1
  ]

  on_rto-IsValid : {h : SentPacketHandler E} → IsValid h → IsValid (on_rto c h)
  unfolding on_rto
  on_rto-IsValid {h} v = elim (Option-cases c.on_rto_callback) [
    | inl e ↦ rw (e, on_rto) (retransmit_oldest_two_packets-IsValid v)
    | inr (f, e) ↦
        let w : (env' : E) → IsValid (record h { env = env' }) =
          λ env'. record { flight = v.flight; acked_sent = v.acked_sent } in
        elim (Bool-cases (f h.last_sent_time h.env).0) [
          | inl failed ↦ rw (e, on_rto, failed) (retransmit_all_packets-IsValid (w _))
          | inr alive ↦ rw (e, on_rto, alive) (retransmit_oldest_two_packets-IsValid (w _))
        ]
  ]

  -- Whatever the alarm finds, it keeps the invariant.
  pub on_alarm-IsValid :
      (now : ℕ) {h : SentPacketHandler E} → IsValid h → IsValid (on_alarm c now h)
  unfolding on_alarm
  on_alarm-IsValid now {h} v = elim (Bool-cases (has_outstanding_retransmittable_packet c h)) [
    | inr none_left ↦ rw none_left (record { flight = v.flight; acked_sent = v.acked_sent })
    | inl left ↦ elim (Bool-cases (is_none h.loss_time)) [
      | inr timed ↦
          rw (left, timed)
            (update_loss_detection_alarm-IsValid c (detect_lost_packets-IsValid now v))
      | inl untimed ↦ elim (Bool-cases (ltb h.tlp_count max_tail_loss_probes)) [
        | inl few ↦
            let w = retransmit_tlp-IsValid v in
            rw (left, untimed, few)
              (update_loss_detection_alarm-IsValid c
                {h = record (retransmit_tlp c h) { tlp_count = (retransmit_tlp c h).tlp_count + 1 }}
                (record { flight = w.flight; acked_sent = w.acked_sent }))
        | inr many ↦
            let w = on_rto-IsValid v in
            rw (left, untimed, many)
              (update_loss_detection_alarm-IsValid c
                {h = record (on_rto c h) { rto_count = ((on_rto c h).rto_count + 1) % 2 ^ 32 }}
                (record { flight = w.flight; acked_sent = w.acked_sent }))
      ]
    ]
  ]
