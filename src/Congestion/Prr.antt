-- ===== src/Congestion/Prr.antt =====
-- congestion/prr_sender.go: Proportional Rate Reduction, while a loss is recovered from.
pub mod Bound
use mpquic_latency.Base.{ℕ, ◌+◌, ◌-◌, ◌*◌, ◌^◌, ◌||◌, ltb, leb, ◌==◌, if◌then◌else◌, u64}

pub record PrrSender : Type 0 where
  pub bytes_sent_since_loss : ℕ
  pub bytes_delivered_since_loss : ℕ
  pub ack_count_since_loss : ℕ
  pub bytes_in_flight_before_loss : ℕ

-- protocol.DefaultTCPMSS
abbrev pub default_tcp_mss : ℕ
default_tcp_mss = 1460

-- utils.InfDuration
abbrev pub inf_duration : ℕ
inf_duration = 2 ^ 63 - 1

unfoldable pub on_packet_sent : ℕ → PrrSender → PrrSender
on_packet_sent sent_bytes p = record p {
  bytes_sent_since_loss = u64 (p.bytes_sent_since_loss + sent_bytes);
}

unfoldable pub on_packet_lost : ℕ → PrrSender → PrrSender
on_packet_lost bytes_in_flight p = record {
  bytes_sent_since_loss = 0;
  bytes_delivered_since_loss = 0;
  ack_count_since_loss = 0;
  bytes_in_flight_before_loss = bytes_in_flight;
}

unfoldable pub on_packet_acked : ℕ → PrrSender → PrrSender
on_packet_acked acked_bytes p = record p {
  bytes_delivered_since_loss = u64 (p.bytes_delivered_since_loss + acked_bytes);
  ack_count_since_loss = u64 (p.ack_count_since_loss + 1);
}

unfoldable pub time_until_send : ℕ → ℕ → ℕ → PrrSender → ℕ
time_until_send congestion_window bytes_in_flight slowstart_threshold p =
    if p.bytes_sent_since_loss == 0 || ltb bytes_in_flight default_tcp_mss
    then 0
    else if ltb bytes_in_flight congestion_window
    then (if leb
          (u64 (p.bytes_delivered_since_loss + u64 (p.ack_count_since_loss * default_tcp_mss)))
          p.bytes_sent_since_loss
        then inf_duration
        else 0)
    else if ltb (u64 (p.bytes_sent_since_loss * p.bytes_in_flight_before_loss))
        (u64 (p.bytes_delivered_since_loss * slowstart_threshold))
    then 0
    else inf_duration
