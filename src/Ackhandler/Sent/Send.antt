-- ===== src/Ackhandler/Sent/Send.antt =====
-- SentPacket appends to the packets in flight, and every sequence of calls keeps them in order.
use mpquic_latency.Base.{
  ℕ, ◌+◌, ◌<◌, ◌≤◌, ◌^◌, ◌≡◌, refl, true, List, [], ◌∷◌, ◌++◌, arith, length, ltb, leb, Bool-cases,
  inl, inr, All,
}
use mpquic_latency.Wire.Frame.{Frame}
use mpquic_latency.Ackhandler.Packet.{
  Packet, strip_non_retransmittable_frames, has_retransmittable_frames, is_frame_retransmittable,
}
use mpquic_latency.Ackhandler.Sent.State.{Environment, SentPacketHandler, max_tracked_sent_packets}
use mpquic_latency.Ackhandler.Sent.Ops.{sent_packet, count_sent, strip, track, report_sent}
use mpquic_latency.Ackhandler.Sent.Flight.{Flight, Ascends, total, IsTracked}
use mpquic_latency.Ackhandler.Sent.Inv.{IsValid, update_loss_detection_alarm-IsValid}

Ascends-append :
    (lo last : ℕ) (l : List Packet) (p : Packet)
    → Ascends lo l
    → All (IsTracked last) l
    → lo ≤ last
    → last < p.packet_number
    → Ascends lo (l ++ (p ∷ []))
Ascends-append lo last [] p a t b h = (omega arith, tt)
Ascends-append lo last (q ∷ l) p a t b h =
    (a.0, Ascends-append q.packet_number last l p a.1 t.1 t.0.0 h)

IsTracked-append :
    (last : ℕ) (l : List Packet) (p : Packet)
    → All (IsTracked last) l
    → last < p.packet_number
    → IsTracked p.packet_number p
    → All (IsTracked p.packet_number) (l ++ (p ∷ []))
IsTracked-append last [] p t h q = (q, tt)
IsTracked-append last (r ∷ l) p t h q =
    ((omega arith, t.0.1, t.0.2), IsTracked-append last l p t.1 h q)

IsTracked-weaken :
    (last n : ℕ) (l : List Packet) → last ≤ n → All (IsTracked last) l → All (IsTracked n) l
IsTracked-weaken last n [] h t = tt
IsTracked-weaken last n (r ∷ l) h t = ((omega arith, t.0.1, t.0.2), IsTracked-weaken last n l h t.1)

total-append : (l : List Packet) (p : Packet) → total (l ++ (p ∷ [])) ≡ total l + p.length
total-append [] p = omega arith
total-append (q ∷ l) p = omega (arith, total-append l p)

-- What is left of the frames is something to retransmit.
stripped_retransmittable :
    (fs : List Frame)
    → ltb 0 (length (strip_non_retransmittable_frames fs)) ≡ true
    → has_retransmittable_frames (strip_non_retransmittable_frames fs) ≡ true
unfolding has_retransmittable_frames strip_non_retransmittable_frames
stripped_retransmittable [] h = cc
stripped_retransmittable (f ∷ fs) h = elim (Bool-cases (is_frame_retransmittable f)) [
  | inl e ↦ rw (e, e)
  | inr e ↦ rw e (stripped_retransmittable fs (rw e at h))
]

module _ {E : Type 0} (c : Environment E) where
  track-IsValid :
      (now last : ℕ) (p : Packet) (h : SentPacketHandler E)
      → h.last_sent_packet_number ≡ p.packet_number
      → last < p.packet_number
      → p.length < 2 ^ 64
      → (ltb 0 (length p.frames) ≡ true → has_retransmittable_frames p.frames ≡ true)
      → Flight last h.packet_history h.bytes_in_flight
      → h.largest_acked ≤ h.last_sent_packet_number
      → IsValid (track c now p h)
  unfolding track
  track-IsValid now last p h e b fits keep f a = elim (Bool-cases (ltb 0 (length p.frames))) [
    | inl some_left ↦ rw some_left (record {
      flight = record {
        ascends = Ascends-append 0 last h.packet_history _ f.ascends f.tracked (omega arith) b;
        tracked = rw e (
            IsTracked-append last h.packet_history (record p { send_time = now }) f.tracked b
              (omega arith, fits, keep some_left));
        in_flight = rw total-append (omega (arith, f.in_flight));
      };
      acked_sent = a;
    })
    | inr none_left ↦ rw none_left (record {
      flight = record {
        ascends = f.ascends;
        tracked =
            rw e (IsTracked-weaken last p.packet_number h.packet_history (omega arith) f.tracked);
        in_flight = f.in_flight;
      };
      acked_sent = a;
    })
  ]

  -- SentPacket, refused or not.
  pub sent_packet-IsValid :
      (now : ℕ) (p : Packet) {h : SentPacketHandler E}
      → p.length < 2 ^ 64
      → IsValid h
      → IsValid (sent_packet c now p h).1
  unfolding sent_packet
  sent_packet-IsValid now p {h} fits v =
      elim (Bool-cases (leb p.packet_number h.last_sent_packet_number)) [
        | inl a ↦ rw a v
        | inr a ↦
            elim (Bool-cases (
              ltb max_tracked_sent_packets
                (length h.retransmission_queue + length h.packet_history + 1))) [
                  | inl b ↦ rw (a, b) v
                  | inr b ↦
                      let w =
                        track-IsValid now h.last_sent_packet_number (strip c p)
                          (count_sent c now p h) refl (ground arith) fits
                          (stripped_retransmittable p.frames) v.flight (ground arith) in
                      rw (a, b)
                        (update_loss_detection_alarm-IsValid c
                          {h = report_sent c now (strip c p)
                            (track c now (strip c p) (count_sent c now p h))}
                          (record { flight = w.flight; acked_sent = w.acked_sent }))
                ]
      ]
