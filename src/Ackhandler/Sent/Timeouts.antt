-- ===== src/Ackhandler/Sent/Timeouts.antt =====
-- The retransmission timeout with its backoff, and the packets that the alarm passes over.
use mpquic_latency.Base.{
  ℕ, ◌*◌, ◌<◌, ◌≤◌, ◌^◌, ◌%◌, ◌≡◌, arith, u64, max, min, pos, signed64, if◌then◌else◌, ◌==◌,
}
use mpquic_latency.Ackhandler.Packet.{
  strip_non_retransmittable_frames, Packet, strip_non_retransmittable_frames,
}
use mpquic_latency.Ackhandler.Sent.State.{
  Environment, SentPacketHandler, compute_rto_timeout, max_duration, min_ℤ, min_retransmission_time,
  max_rto_timeout, min_rto_timeout, default_rto_timeout,
}

pub clamp_bounds :
    (w : ℕ)
    → (min_retransmission_time
        ≤ max_duration (min_ℤ (signed64 w) (pos max_rto_timeout)) min_retransmission_time)
      × (max_duration (min_ℤ (signed64 w) (pos max_rto_timeout)) min_retransmission_time
          ≤ max_rto_timeout)
clamp_bounds w = ground arith

pub clamp_exact :
    (w : ℕ)
    → w < 2 ^ 63
    → max_duration (min_ℤ (signed64 w) (pos max_rto_timeout)) min_retransmission_time
      ≡ max (min w max_rto_timeout) min_retransmission_time
clamp_exact w h = ground arith

clamp_negative :
    (w : ℕ)
    → 2 ^ 63 ≤ w
    → max_duration (min_ℤ (signed64 w) (pos max_rto_timeout)) min_retransmission_time
      ≡ min_retransmission_time
clamp_negative w h = ground arith

module _ {E : Type 0} (c : Environment E) where
  -- The base of the backoff: the delay that congestion control asks for, with its default and floor.
  abbrev pub base_rto : SentPacketHandler E → ℕ
  base_rto h =
      max
        (if c.retransmission_delay h.env == 0
          then default_rto_timeout
          else c.retransmission_delay h.env)
        min_rto_timeout

  -- The time from the last packet to an RTO alarm.
  abbrev pub rto_interval : SentPacketHandler E → ℕ
  rto_interval h = max_duration (compute_rto_timeout c h) min_retransmission_time

  -- Where the shifted delay has its top bit set, the backoff is lost and the interval falls to 200 ms.
  pub rto_interval_overflow :
      (h : SentPacketHandler E)
      → 2 ^ 63 ≤ base_rto h * 2 ^ h.rto_count % 2 ^ 64
      → rto_interval h ≡ min_retransmission_time
  unfolding compute_rto_timeout
  rto_interval_overflow h big = clamp_negative (u64 (base_rto h * 2 ^ h.rto_count)) big
