-- ===== src/Ackhandler/Sent/Ops.antt =====
-- ackhandler/sent_packet_handler.go: sending, acknowledgements and the retransmission queue.
use mpquic_latency.Base.{
  ℕ, zero, suc, ◌+◌, ◌-◌, Bool, true, false, ◌&&◌, ◌||◌, not, List, [], ◌∷◌, ◌++◌, ltb, leb, ◌==◌,
  drop, if◌then◌else◌, Option, none, some, u64, sub64, length,
}
use mpquic_latency.Wire.AckFrame.{AckFrame, ClosePathFrame}
use mpquic_latency.Ackhandler.StopWaiting
use mpquic_latency.Ackhandler.Packet.{
  Packet, strip_non_retransmittable_frames, get_stream_frame_length,
}
use mpquic_latency.Ackhandler.Sent.State.{
  Environment, SentPacketHandler, SentError, duplicate_or_out_of_order_ack,
  too_many_tracked_sent_packets, ack_for_skipped_packet, ack_for_unsent_packet,
  packet_number_not_increasing, would_have_acked_wrong_packet, max_tracked_sent_packets,
  max_tracked_skipped_packets, max_non_retransmittable_packets, update_loss_detection_alarm,
}
use mpquic_latency.Ackhandler.Sent.Acked.{determine_newly_acked_packets, skipped_packets_acked}
use mpquic_latency.Ackhandler.Sent.Loss.{
  on_packet_acked, detect_lost_packets, set_inflight_as_lost, remove_packet,
}

-- One round of the loop over skipped packet numbers.
unfoldable pub add_skipped : ℕ → List ℕ → List ℕ
add_skipped p skipped =
    let longer = skipped ++ (p ∷ []) in
    if ltb max_tracked_skipped_packets (length longer) then drop 1 longer else longer

-- The loop from `p`, with the rounds that are left.
unfoldable pub skip_packets : ℕ → ℕ → List ℕ → List ℕ
unfolding add_skipped
skip_packets zero p skipped = skipped
skip_packets (suc rounds) p skipped = skip_packets rounds (p + 1) (add_skipped p skipped)

-- The index behind the last skipped number that is at most `lioa`; `i` is the index of the head.
unfoldable pub delete_index : ℕ → ℕ → ℕ → List ℕ → ℕ
delete_index lioa i index [] = index
delete_index lioa i index (p ∷ ps) =
    delete_index lioa (i + 1) (if leb p lioa then i + 1 else index) ps

-- PacketList.RemovePacketByNumber: the length of the packet that is removed, 0 where there is none.
unfoldable pub removed_bytes : ℕ → List Packet → ℕ
removed_bytes n [] = 0
removed_bytes n (p ∷ rest) =
    let others = removed_bytes n rest in if p.packet_number == n then p.length else others

unfoldable pub has_packet : ℕ → List Packet → Bool
has_packet n [] = false
has_packet n (p ∷ rest) = p.packet_number == n || has_packet n rest

module _ {E : Type 0} (c : Environment E) where
  unfoldable pub largest_in_order_acked : SentPacketHandler E → ℕ
  largest_in_order_acked h = front h.packet_history
    where
      front : List Packet → ℕ
      front [] = h.largest_acked
      front (p ∷ rest) = sub64 p.packet_number 1

  unfoldable pub get_least_unacked : SentPacketHandler E → ℕ
  unfolding largest_in_order_acked
  get_least_unacked h = u64 (largest_in_order_acked h + 1)

  unfoldable pub should_send_retransmittable_packet : SentPacketHandler E → Bool
  should_send_retransmittable_packet h =
      leb max_non_retransmittable_packets h.num_non_retransmittable_packets

  unfoldable pub sending_allowed : SentPacketHandler E → Bool
  sending_allowed h =
      let congestion_limited = ltb (c.get_congestion_window h.env) h.bytes_in_flight in
      let max_tracked_limited =
        leb max_tracked_sent_packets (length h.retransmission_queue + length h.packet_history) in
      not max_tracked_limited && (not congestion_limited || ltb 0 (length h.retransmission_queue))

  -- The part of SentPacket behind its two errors, with the frames that were stripped.
  unfoldable pub track : ℕ → Packet → SentPacketHandler E → SentPacketHandler E
  track now p h =
      if ltb 0 (length p.frames)
      then record h {
        bytes_in_flight = u64 (h.bytes_in_flight + p.length);
        packet_history = h.packet_history ++ (record p { send_time = now } ∷ []);
        num_non_retransmittable_packets = 0;
      }
      else record h { num_non_retransmittable_packets = h.num_non_retransmittable_packets + 1 }

  unfoldable pub report_sent : ℕ → Packet → SentPacketHandler E → SentPacketHandler E
  report_sent now p h = record h {
    env =
        c.on_packet_sent now h.bytes_in_flight p.packet_number p.length (ltb 0 (length p.frames))
          h.env;
  }

  -- What SentPacket records of the packet before it strips the frames.
  unfoldable pub count_sent : ℕ → Packet → SentPacketHandler E → SentPacketHandler E
  unfolding skip_packets
  count_sent now packet h = record h {
    skipped_packets =
        skip_packets (packet.packet_number - (h.last_sent_packet_number + 1))
          (h.last_sent_packet_number + 1) h.skipped_packets;
    last_sent_packet_number = packet.packet_number;
    packets = u64 (h.packets + 1);
    sent_stream_frame_bytes =
        u64 (h.sent_stream_frame_bytes + get_stream_frame_length packet.frames);
    last_sent_time = now;
  }

  unfoldable pub strip : Packet → Packet
  strip packet = record packet { frames = strip_non_retransmittable_frames packet.frames }

  unfoldable pub sent_packet :
      ℕ → Packet → SentPacketHandler E → Option SentError × SentPacketHandler E
  unfolding count_sent strip track report_sent
  sent_packet now packet h =
      if leb packet.packet_number h.last_sent_packet_number
      then (some packet_number_not_increasing, h)
      else if ltb max_tracked_sent_packets
          (length h.retransmission_queue + length h.packet_history + 1)
      then (some too_many_tracked_sent_packets, h)
      else (
        none,
        update_loss_detection_alarm c
            (report_sent now (strip packet) (track now (strip packet) (count_sent now packet h))),
      )

  -- maybeUpdateRTT, and MaybeExitSlowStart if it did.
  unfoldable pub maybe_update_rtt : ℕ → ℕ → ℕ → ℕ → List Packet → E → E
  maybe_update_rtt largest delay rcv_time now [] env = env
  maybe_update_rtt largest delay rcv_time now (p ∷ rest) env =
      let further = maybe_update_rtt largest delay rcv_time now rest env in
      if p.packet_number == largest
      then c.maybe_exit_slow_start (c.update_rtt rcv_time p.send_time delay now env)
      else if ltb largest p.packet_number
      then env
      else further

  -- The loop over the newly acked packets.
  unfoldable pub ack_packets : List Packet → SentPacketHandler E → SentPacketHandler E
  unfolding on_packet_acked
  ack_packets [] h = h
  ack_packets (p ∷ ps) h =
      let called = record h { env = c.on_ack_callback h.path_id p.packet_number h.env } in
      let acked = on_packet_acked c p called in
      ack_packets ps (record acked {
        env = c.on_packet_acked p.packet_number p.length acked.bytes_in_flight acked.env;
      })

  unfoldable pub garbage_collect_skipped_packets : SentPacketHandler E → SentPacketHandler E
  unfolding delete_index largest_in_order_acked
  garbage_collect_skipped_packets h = record h {
    skipped_packets =
        drop (delete_index (largest_in_order_acked h) 0 0 h.skipped_packets) h.skipped_packets;
  }

  -- The end of ReceivedAck, behind determineNewlyAckedPackets.
  unfoldable pub finish_ack :
      ℕ → ℕ → Option (List Packet) → SentPacketHandler E → Option SentError × SentPacketHandler E
  unfolding ack_packets detect_lost_packets update_loss_detection_alarm
      garbage_collect_skipped_packets
  finish_ack largest now none h = (some would_have_acked_wrong_packet, h)
  finish_ack largest now (some acked) h =
      let done =
        garbage_collect_skipped_packets
          (update_loss_detection_alarm c (detect_lost_packets c now (ack_packets acked h))) in
      (
        none,
        record done {
          stop_waiting_manager = StopWaiting.received_ack largest done.stop_waiting_manager;
        },
      )

  -- ReceivedAck. `now_rtt` and `now` are its two readings of the clock.
  unfoldable pub received_ack :
      AckFrame → ℕ → ℕ → ℕ → ℕ → SentPacketHandler E → Option SentError × SentPacketHandler E
  unfolding maybe_update_rtt finish_ack
  received_ack f with_packet_number rcv_time now_rtt now h =
      if ltb h.last_sent_packet_number f.largest_acked
      then (some ack_for_unsent_packet, h)
      else if leb with_packet_number h.largest_received_packet_with_ack
      then (some duplicate_or_out_of_order_ack, h)
      else let noted = record h { largest_received_packet_with_ack = with_packet_number } in
        if leb f.largest_acked (largest_in_order_acked h)
        then (none, noted)
        else let larger = record noted { largest_acked = f.largest_acked } in
          if skipped_packets_acked f.lowest_acked f.largest_acked f.ack_ranges h.skipped_packets
          then (some ack_for_skipped_packet, larger)
          else finish_ack f.largest_acked now
              (determine_newly_acked_packets f.lowest_acked f.largest_acked f.ack_ranges
                h.packet_history)
              (record larger {
                env =
                    maybe_update_rtt f.largest_acked f.delay_time rcv_time now_rtt h.packet_history
                      h.env;
              })

  unfoldable pub finish_close_path :
      Option (List Packet) → SentPacketHandler E → Option SentError × SentPacketHandler E
  unfolding ack_packets set_inflight_as_lost garbage_collect_skipped_packets
  finish_close_path none h = (some would_have_acked_wrong_packet, h)
  finish_close_path (some acked) h =
      (none, garbage_collect_skipped_packets (set_inflight_as_lost c (ack_packets acked h)))

  unfoldable pub received_close_path :
      ClosePathFrame → ℕ → SentPacketHandler E → Option SentError × SentPacketHandler E
  unfolding finish_close_path
  received_close_path f with_packet_number h =
      if ltb h.last_sent_packet_number f.largest_acked
      then (some ack_for_unsent_packet, h)
      else if leb with_packet_number h.largest_received_packet_with_ack
      then (some duplicate_or_out_of_order_ack, h)
      else let noted = record h { largest_received_packet_with_ack = with_packet_number } in
        if skipped_packets_acked f.lowest_acked f.largest_acked f.ack_ranges h.skipped_packets
        then (some ack_for_skipped_packet, noted)
        else finish_close_path
            (determine_newly_acked_packets f.lowest_acked f.largest_acked f.ack_ranges
              h.packet_history)
            noted

  unfoldable pub pop_queue : List Packet → SentPacketHandler E → Option Packet × SentPacketHandler E
  pop_queue [] h = (none, h)
  pop_queue (p ∷ rest) h = (
    some p,
    record h { retransmission_queue = rest; retransmissions = u64 (h.retransmissions + 1) },
  )

  -- DequeuePacketForRetransmission; `none` is nil.
  unfoldable pub dequeue_packet_for_retransmission :
      SentPacketHandler E → Option Packet × SentPacketHandler E
  unfolding pop_queue
  dequeue_packet_for_retransmission h = pop_queue h.retransmission_queue h

  unfoldable pub duplicate_packet : Packet → SentPacketHandler E → SentPacketHandler E
  duplicate_packet p h = record h { retransmission_queue = h.retransmission_queue ++ (p ∷ []) }

  unfoldable pub remove_packet_by_number : ℕ → SentPacketHandler E → Bool × SentPacketHandler E
  unfolding removed_bytes remove_packet
  remove_packet_by_number n h =
      let bytes = removed_bytes n h.packet_history in
      let removed = record h {
        packet_history = remove_packet n h.packet_history;
        bytes_in_flight = sub64 h.bytes_in_flight bytes;
      } in
      if ltb 0 bytes
      then (true, record removed { rto_count = 0; tlp_count = 0 })
      else if has_packet n h.retransmission_queue
      then (true, record removed { retransmission_queue = remove_packet n h.retransmission_queue })
      else (false, removed)
