-- ===== src/Congestion/Prr/Bound.antt =====
-- How much is sent while a loss is recovered from with the congestion window open.
use mpquic_latency.Base.{ℕ, ◌+◌, ◌*◌, ◌^◌, ◌<◌, ◌≤◌, ◌≡◌, arith}
use mpquic_latency.Congestion.Prr.{
  PrrSender, default_tcp_mss, on_packet_sent, on_packet_lost, on_packet_acked, time_until_send,
}

-- A segment that TimeUntilSend lets go at once, with room in the congestion window, or an
-- acknowledgement; the counters are far from their end.
pub data Step : PrrSender → PrrSender → Type 0 where
  send :
      {p : PrrSender} (n congestion_window bytes_in_flight slowstart_threshold : ℕ)
      → n ≤ default_tcp_mss
      → default_tcp_mss ≤ bytes_in_flight
      → bytes_in_flight < congestion_window
      → time_until_send congestion_window bytes_in_flight slowstart_threshold p ≡ 0
      → Step p (on_packet_sent n p)
  ack :
      {p : PrrSender} (n : ℕ)
      → p.bytes_delivered_since_loss + n < 2 ^ 40
      → p.ack_count_since_loss < 2 ^ 40
      → Step p (on_packet_acked n p)

-- The recovery that begins with a loss.
pub data Recovery (before : ℕ) : PrrSender → Type 0 where
  loss : (p : PrrSender) → Recovery before (on_packet_lost before p)
  next : {p p' : PrrSender} → Recovery before p → Step p p' → Recovery before p'

pub record IsLimited (p : PrrSender) : Type 0 where
  pub sent_limited :
      p.bytes_sent_since_loss
      ≤ p.bytes_delivered_since_loss + (p.ack_count_since_loss + 1) * default_tcp_mss
  pub delivered_fits : p.bytes_delivered_since_loss < 2 ^ 40
  pub acks_fit : p.ack_count_since_loss ≤ 2 ^ 40

send-IsLimited :
    (p : PrrSender) (n congestion_window bytes_in_flight slowstart_threshold : ℕ)
    → n ≤ default_tcp_mss
    → default_tcp_mss ≤ bytes_in_flight
    → bytes_in_flight < congestion_window
    → time_until_send congestion_window bytes_in_flight slowstart_threshold p ≡ 0
    → IsLimited p
    → IsLimited (on_packet_sent n p)
unfolding time_until_send on_packet_sent
send-IsLimited p n cw inf ss a b d e v = record {
  sent_limited = ground (arith, v.sent_limited, v.delivered_fits, v.acks_fit);
  delivered_fits = v.delivered_fits;
  acks_fit = v.acks_fit;
}

ack-IsLimited :
    (p : PrrSender) (n : ℕ)
    → p.bytes_delivered_since_loss + n < 2 ^ 40
    → p.ack_count_since_loss < 2 ^ 40
    → IsLimited p
    → IsLimited (on_packet_acked n p)
unfolding on_packet_acked
ack-IsLimited p n a b v = record {
  sent_limited = omega (arith, v.sent_limited);
  delivered_fits = omega arith;
  acks_fit = omega arith;
}

Recovery-IsLimited : {before : ℕ} {p : PrrSender} → Recovery before p → IsLimited p
Recovery-IsLimited (loss p) =
    unfold on_packet_lost in
    record { sent_limited = omega arith; delivered_fits = omega arith; acks_fit = omega arith }
Recovery-IsLimited (next r (send {p} n cw inf ss a b d e)) =
    send-IsLimited p n cw inf ss a b d e (Recovery-IsLimited r)
Recovery-IsLimited (next r (ack {p} n a b)) = ack-IsLimited p n a b (Recovery-IsLimited r)

-- Since a loss, while segments of at most DefaultTCPMSS bytes are sent only with a whole
-- DefaultTCPMSS or more in flight, room in the congestion window and the leave of TimeUntilSend, and
-- while the bytes delivered and the acknowledgements stay below 2 ^ 40, no more bytes are sent than were
-- delivered, and one segment for every acknowledgement and one more.
pub Recovery-limits :
    {before : ℕ} {p : PrrSender}
    → Recovery before p
    → p.bytes_sent_since_loss
      ≤ p.bytes_delivered_since_loss + (p.ack_count_since_loss + 1) * default_tcp_mss
Recovery-limits r = (Recovery-IsLimited r).sent_limited
