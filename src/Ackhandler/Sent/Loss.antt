-- ===== src/Ackhandler/Sent/Loss.antt =====
-- ackhandler/sent_packet_handler.go: packets that leave the history, acked, lost or timed out. An
-- element of the linked list is named by its packet number, which is unique in the history.
use mpquic_latency.Base.{
  ℕ, ◌+◌, ◌-◌, ◌*◌, ◌/◌, ◌%◌, ◌^◌, Bool, true, not, List, [], ◌∷◌, ◌++◌, ltb, ◌==◌, max, any,
  length, if◌then◌else◌, Option, none, some, u64, sub64, is_none,
}
use mpquic_latency.Ackhandler.Packet.{Packet, is_retransmittable}
use mpquic_latency.Ackhandler.StopWaiting.{queued_retransmission_for_packet_number}
use mpquic_latency.Ackhandler.Sent.State.{
  Environment, SentPacketHandler, max_tail_loss_probes, update_loss_detection_alarm,
}

unfoldable pub remove_packet : ℕ → List Packet → List Packet
remove_packet n [] = []
remove_packet n (p ∷ rest) =
    let others = remove_packet n rest in if p.packet_number == n then rest else p ∷ others

-- (1.0 + 1.0/8) * maxRTT, which float64 computes without error below 2 ^ 50, cut to an integer.
abbrev pub loss_delay : ℕ → ℕ
loss_delay rtt = 9 * rtt / 8

-- The first loop of detectLostPackets: the lost packets, and the loss time that is left. `now` is not
-- before a send time, since both are readings of one monotonic clock.
unfoldable pub find_lost : ℕ → ℕ → ℕ → Option ℕ → List Packet → List Packet × Option ℕ
find_lost now delay largest loss_time [] = ([], loss_time)
find_lost now delay largest loss_time (p ∷ rest) =
    let since = now - p.send_time in
    let lost = ltb delay since in
    let time =
      if lost
      then loss_time
      else if is_none loss_time
      then some (now + (delay - since))
      else loss_time in
    let further = find_lost now delay largest time rest in
    if ltb largest p.packet_number
    then ([], loss_time)
    else if lost
    then (p ∷ further.0, further.1)
    else further

-- The first loop of SetInflightAsLost.
unfoldable pub up_to : ℕ → List Packet → List Packet
up_to largest [] = []
up_to largest (p ∷ rest) =
    let others = up_to largest rest in if ltb largest p.packet_number then [] else p ∷ others

unfoldable pub last_packet : List Packet → Option Packet
last_packet [] = none
last_packet (p ∷ []) = some p
last_packet (p ∷ q ∷ rest) = last_packet (q ∷ rest)

module _ {E : Type 0} (c : Environment E) where
  unfoldable pub on_packet_acked : Packet → SentPacketHandler E → SentPacketHandler E
  on_packet_acked p h = record h {
    bytes_in_flight = sub64 h.bytes_in_flight p.length;
    rto_count = 0;
    tlp_count = 0;
    packet_history = remove_packet p.packet_number h.packet_history;
  }

  unfoldable pub queue_packet_for_retransmission :
      Packet → SentPacketHandler E → SentPacketHandler E
  queue_packet_for_retransmission p h = record h {
    bytes_in_flight = sub64 h.bytes_in_flight p.length;
    retransmission_queue = h.retransmission_queue ++ (p ∷ []);
    packet_history = remove_packet p.packet_number h.packet_history;
    stop_waiting_manager =
        queued_retransmission_for_packet_number p.packet_number h.stop_waiting_manager;
  }

  -- `h.congestion.OnPacketLost`, with the bytes in flight as they are now.
  unfoldable pub report_lost : Packet → SentPacketHandler E → SentPacketHandler E
  report_lost p h = record h {
    env = c.on_packet_lost p.packet_number p.length h.bytes_in_flight h.env;
  }

  -- The second loop of detectLostPackets and of SetInflightAsLost.
  unfoldable pub queue_lost : List Packet → SentPacketHandler E → SentPacketHandler E
  unfolding queue_packet_for_retransmission report_lost
  queue_lost [] h = h
  queue_lost (p ∷ ps) h = queue_lost ps (report_lost p (queue_packet_for_retransmission p h))

  unfoldable pub detect_lost_packets : ℕ → SentPacketHandler E → SentPacketHandler E
  unfolding find_lost
  detect_lost_packets now h =
      let delay = loss_delay (max (c.latest_rtt h.env) (c.smoothed_rtt h.env)) in
      let (lost, time) = find_lost now delay h.largest_acked none h.packet_history in
      queue_lost lost (record h { loss_time = time; losses = u64 (h.losses + length lost) })

  unfoldable pub set_inflight_as_lost : SentPacketHandler E → SentPacketHandler E
  unfolding up_to
  set_inflight_as_lost h =
      let lost = up_to h.largest_acked h.packet_history in
      queue_lost lost (record h { losses = u64 (h.losses + length lost) })

  unfoldable pub queue_rto : Packet → SentPacketHandler E → SentPacketHandler E
  unfolding queue_packet_for_retransmission report_lost
  queue_rto p h =
      let queued = queue_packet_for_retransmission p h in
      report_lost p (record queued { losses = u64 (queued.losses + 1) })

  unfoldable pub retransmit_tlp : SentPacketHandler E → SentPacketHandler E
  unfolding last_packet queue_packet_for_retransmission
  retransmit_tlp h = elim (last_packet h.packet_history) [
    | none ↦ h
    | some p ↦ queue_packet_for_retransmission p h
  ]

  unfoldable pub retransmission_timeout : SentPacketHandler E → SentPacketHandler E
  retransmission_timeout h = record h { env = c.on_retransmission_timeout true h.env }

  -- `for h.packetHistory.Len() > 0 { h.queueRTO(h.packetHistory.Front()) }`. Each round removes the
  -- front, so the list is the one that the loop started with.
  unfoldable pub queue_all_rto : List Packet → SentPacketHandler E → SentPacketHandler E
  unfolding queue_rto
  queue_all_rto [] h = h
  queue_all_rto (p ∷ ps) h = queue_all_rto ps (queue_rto p h)

  unfoldable pub retransmit_all_packets : SentPacketHandler E → SentPacketHandler E
  unfolding queue_all_rto retransmission_timeout
  retransmit_all_packets h = retransmission_timeout (queue_all_rto h.packet_history h)

  unfoldable pub retransmit_front : List Packet → SentPacketHandler E → SentPacketHandler E
  unfolding queue_rto
  retransmit_front [] h = h
  retransmit_front (p ∷ ps) h = queue_rto p h

  unfoldable pub retransmit_oldest_packet : SentPacketHandler E → SentPacketHandler E
  unfolding retransmit_front
  retransmit_oldest_packet h = retransmit_front h.packet_history h

  unfoldable pub retransmit_oldest_two_packets : SentPacketHandler E → SentPacketHandler E
  unfolding retransmit_oldest_packet retransmission_timeout
  retransmit_oldest_two_packets h =
      retransmission_timeout (retransmit_oldest_packet (retransmit_oldest_packet h))

  unfoldable pub has_outstanding_retransmittable_packet : SentPacketHandler E → Bool
  has_outstanding_retransmittable_packet h = any is_retransmittable h.packet_history

  -- The RTO branch of OnAlarm: the callback may be nil.
  unfoldable pub on_rto : SentPacketHandler E → SentPacketHandler E
  unfolding retransmit_all_packets retransmit_oldest_two_packets
  on_rto h = elim c.on_rto_callback [
    | none ↦ retransmit_oldest_two_packets h
    | some callback ↦
        let (failed, env') = callback h.last_sent_time h.env in
        if failed
        then retransmit_all_packets (record h { env = env' })
        else retransmit_oldest_two_packets (record h { env = env' })
  ]

  unfoldable pub on_alarm : ℕ → SentPacketHandler E → SentPacketHandler E
  unfolding has_outstanding_retransmittable_packet detect_lost_packets retransmit_tlp on_rto
      update_loss_detection_alarm
  on_alarm now h =
      if not (has_outstanding_retransmittable_packet h)
      then record h { alarm = none }
      else if not (is_none h.loss_time)
      then update_loss_detection_alarm c (detect_lost_packets now h)
      else if ltb h.tlp_count max_tail_loss_probes
      then (let t = retransmit_tlp h in
          update_loss_detection_alarm c (record t { tlp_count = t.tlp_count + 1 }))
      else (let t = on_rto h in
          update_loss_detection_alarm c (record t { rto_count = (t.rto_count + 1) % 2 ^ 32 }))
