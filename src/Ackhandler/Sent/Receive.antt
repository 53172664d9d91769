-- ===== src/Ackhandler/Sent/Receive.antt =====
-- Sending a packet, and an ACK or CLOSE_PATH frame of any content, keep the packets in flight in order
-- and their bytes counted.
use mpquic_latency.Base.{
  ℕ, ◌≡◌, refl, Bool, true, false, List, [], ◌∷◌, Option, none, some, arith, ltb, leb, Bool-cases,
  inl, inr,
}
use mpquic_latency.Wire.AckFrame.{AckFrame, ClosePathFrame, AckRange}
use mpquic_latency.Ackhandler.Packet.{Packet}
use mpquic_latency.Ackhandler.Sent.State.{Environment, SentPacketHandler}
use mpquic_latency.Ackhandler.Sent.Acked.{
  determine_newly_acked_packets, skipped_packets_acked, walk, keep, in_current_range, advance,
}
use mpquic_latency.Ackhandler.Sent.Ops.{
  ack_packets, finish_ack, finish_close_path, received_ack, received_close_path,
  largest_in_order_acked, garbage_collect_skipped_packets, remove_packet_by_number, removed_bytes,
  has_packet,
}
use mpquic_latency.Ackhandler.Sent.Flight.{Sub, nothing, skip, take, Flight-take, Flight-removed}
use mpquic_latency.Ackhandler.Sent.Inv.{IsValid, update_loss_detection_alarm-IsValid}
use mpquic_latency.Ackhandler.Sent.Keeps.{detect_lost_packets-IsValid, set_inflight_as_lost-IsValid}

keep-Sub :
    (p : Packet) (l : List Packet) (o : Option Bool) (others : Option (List Packet))
    (ps : List Packet)
    → keep p o others ≡ some ps
    → ((qs : List Packet) → others ≡ some qs → Sub qs l)
    → Sub ps (p ∷ l)
unfolding keep
keep-Sub p l none others ps e h = cc
keep-Sub p l (some b) none ps e h = cc
keep-Sub p l (some true) (some qs) ps e h =
    let same : ps ≡ p ∷ qs = cc in rw same (take (h qs refl))
keep-Sub p l (some false) (some qs) ps e h = let same : ps ≡ qs = cc in rw same (skip (h qs refl))

walk-Sub :
    (lowest largest : ℕ) (cursor : List AckRange) (l ps : List Packet)
    → walk lowest largest cursor l ≡ some ps
    → Sub ps l
unfolding walk
walk-Sub lowest largest cursor [] ps e = let same : ps ≡ [] = cc in rw same nothing
walk-Sub lowest largest cursor (p ∷ l) ps e = elim (Bool-cases (ltb p.packet_number lowest)) [
  | inl a ↦ skip (walk-Sub lowest largest cursor l ps (rw a at e))
  | inr a ↦ elim (Bool-cases (ltb largest p.packet_number)) [
    | inl b ↦
        let f : some [] ≡ some ps = rw (a, b) at e in let same : ps ≡ [] = cc in rw same nothing
    | inr b ↦
        keep-Sub p l (in_current_range p.packet_number (advance p.packet_number cursor)) _ ps
          (rw (a, b) at e) (λ qs. walk-Sub lowest largest (advance p.packet_number cursor) l qs)
  ]
]

determine-Sub :
    (lowest largest : ℕ) (ranges : List AckRange) (l ps : List Packet)
    → determine_newly_acked_packets lowest largest ranges l ≡ some ps
    → Sub ps l
unfolding determine_newly_acked_packets
determine-Sub lowest largest ranges l ps e = walk-Sub lowest largest _ l ps e

module _ {E : Type 0} (c : Environment E) where
  ack_packets-IsValid :
      (ps : List Packet) {h : SentPacketHandler E}
      → Sub ps h.packet_history
      → IsValid h
      → IsValid (ack_packets c ps h)
  unfolding ack_packets
  ack_packets-IsValid [] s v = v
  ack_packets-IsValid (p ∷ ps) {h} s v =
      let (sub, f) = Flight-take s v.flight in
      ack_packets-IsValid ps sub (record { flight = f; acked_sent = v.acked_sent })

  garbage_collect-IsValid :
      {h : SentPacketHandler E} → IsValid h → IsValid (garbage_collect_skipped_packets c h)
  unfolding garbage_collect_skipped_packets
  garbage_collect-IsValid v = record { flight = v.flight; acked_sent = v.acked_sent }

  finish_ack-IsValid :
      (largest now : ℕ) (acked : Option (List Packet)) {h : SentPacketHandler E}
      → ((ps : List Packet) → acked ≡ some ps → Sub ps h.packet_history)
      → IsValid h
      → IsValid (finish_ack c largest now acked h).1
  unfolding finish_ack
  finish_ack-IsValid largest now none s v = v
  finish_ack-IsValid largest now (some ps) s v =
      let w = garbage_collect-IsValid (
        update_loss_detection_alarm-IsValid c
          (detect_lost_packets-IsValid c now (ack_packets-IsValid ps (s ps refl) v))) in
      record { flight = w.flight; acked_sent = w.acked_sent }

  -- An ACK frame of any content, on every branch.
  pub received_ack-IsValid :
      (f : AckFrame) (pn rcv now_rtt now : ℕ) {h : SentPacketHandler E}
      → IsValid h
      → IsValid (received_ack c f pn rcv now_rtt now h).1
  unfolding received_ack
  received_ack-IsValid f pn rcv now_rtt now {h} v =
      elim (Bool-cases (ltb h.last_sent_packet_number f.largest_acked)) [
        | inl a ↦ rw a v
        | inr a ↦ elim (Bool-cases (leb pn h.largest_received_packet_with_ack)) [
          | inl b ↦ rw (a, b) v
          | inr b ↦ elim (Bool-cases (leb f.largest_acked (largest_in_order_acked c h))) [
            | inl d ↦ rw (a, b, d) (record { flight = v.flight; acked_sent = v.acked_sent })
            | inr d ↦
                elim (Bool-cases (
                  skipped_packets_acked f.lowest_acked f.largest_acked f.ack_ranges
                    h.skipped_packets)) [
                      | inl e ↦
                          rw (a, b, d, e) (record { flight = v.flight; acked_sent = ground arith })
                      | inr e ↦
                          rw (a, b, d, e)
                            (finish_ack-IsValid f.largest_acked now _
                              (λ ps.
                                determine-Sub f.lowest_acked f.largest_acked f.ack_ranges
                                  h.packet_history ps)
                              (record { flight = v.flight; acked_sent = ground arith }))
                    ]
          ]
        ]
      ]

  finish_close_path-IsValid :
      (acked : Option (List Packet)) {h : SentPacketHandler E}
      → ((ps : List Packet) → acked ≡ some ps → Sub ps h.packet_history)
      → IsValid h
      → IsValid (finish_close_path c acked h).1
  unfolding finish_close_path
  finish_close_path-IsValid none s v = v
  finish_close_path-IsValid (some ps) s v =
      garbage_collect-IsValid
        (set_inflight_as_lost-IsValid c (ack_packets-IsValid ps (s ps refl) v))

  -- A CLOSE_PATH frame of any content, on every branch.
  pub received_close_path-IsValid :
      (f : ClosePathFrame) (pn : ℕ) {h : SentPacketHandler E}
      → IsValid h
      → IsValid (received_close_path c f pn h).1
  unfolding received_close_path
  received_close_path-IsValid f pn {h} v =
      elim (Bool-cases (ltb h.last_sent_packet_number f.largest_acked)) [
        | inl a ↦ rw a v
        | inr a ↦ elim (Bool-cases (leb pn h.largest_received_packet_with_ack)) [
          | inl b ↦ rw (a, b) v
          | inr b ↦
              elim (Bool-cases (
                skipped_packets_acked f.lowest_acked f.largest_acked f.ack_ranges
                  h.skipped_packets)) [
                    | inl e ↦ rw (a, b, e) (record { flight = v.flight; acked_sent = v.acked_sent })
                    | inr e ↦
                        rw (a, b, e)
                          (finish_close_path-IsValid _
                            (λ ps.
                              determine-Sub f.lowest_acked f.largest_acked f.ack_ranges
                                h.packet_history ps)
                            (record { flight = v.flight; acked_sent = v.acked_sent }))
                  ]
        ]
      ]

  -- The scheduler takes out a packet that was acknowledged on another path.
  pub remove_packet_by_number-IsValid :
      (n : ℕ) {h : SentPacketHandler E} → IsValid h → IsValid (remove_packet_by_number c n h).1
  unfolding remove_packet_by_number
  remove_packet_by_number-IsValid n {h} v =
      let f =
        Flight-removed h.last_sent_packet_number n h.packet_history h.bytes_in_flight v.flight in
      elim (Bool-cases (ltb 0 (removed_bytes n h.packet_history))) [
        | inl a ↦ rw a (record { flight = f; acked_sent = v.acked_sent })
        | inr a ↦ elim (Bool-cases (has_packet n h.retransmission_queue)) [
          | inl b ↦ rw (a, b) (record { flight = f; acked_sent = v.acked_sent })
          | inr b ↦ rw (a, b) (record { flight = f; acked_sent = v.acked_sent })
        ]
      ]
