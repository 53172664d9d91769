-- ===== src/Ackhandler/Sent/Backoff.antt =====
-- The alarm of updateLossDetectionAlarm when the tail loss probes are used up, and the backoff from
-- one OnAlarm to the next.
use mpquic_latency.Base.{
  ℕ, suc, ◌+◌, ◌-◌, ◌*◌, ◌<◌, ◌≤◌, ◌^◌, ◌%◌, ◌≡◌, ◌≢◌, refl, ◌∙◌, sym, ap, true, false, Bool-cases,
  Option-cases, List, [], ◌∷◌, none, some, arith, u64, max, min, length, inl, inr, ltb, ◌==◌,
  if◌then◌else◌,
}
use native.Mathlib.Nat.{pow-le-pow_right, pow-succ', mul-le-mul_left, mul_left_comm}
use mpquic_latency.Ackhandler.Packet.{Packet}
use mpquic_latency.Ackhandler.Sent.State.{
  Environment, SentPacketHandler, compute_rto_timeout, alarm_time, update_loss_detection_alarm,
  min_retransmission_time, max_rto_timeout, min_rto_timeout, default_rto_timeout,
}
use mpquic_latency.Ackhandler.Sent.Loss.{
  on_alarm, on_rto, queue_packet_for_retransmission, report_lost, queue_rto, queue_all_rto,
  retransmit_front, retransmit_oldest_packet, retransmit_oldest_two_packets, retransmit_all_packets,
  retransmission_timeout, has_outstanding_retransmittable_packet,
}
use mpquic_latency.Ackhandler.Sent.Timeouts.{
  base_rto, rto_interval, rto_interval_overflow, clamp_bounds, clamp_exact,
}

module _ {E : Type 0} (c : Environment E) where
  outstanding : (ps : List Packet) → ps ≢ [] → (length ps == 0) ≡ false
  outstanding [] some_left = absurd (some_left refl)
  outstanding (p ∷ ps) some_left = ground arith

  -- The alarm is the RTO's when no loss time is set and the probes are used up.
  alarm_time-rto_interval :
      (h : SentPacketHandler E)
      → h.loss_time ≡ none
      → 2 ≤ h.tlp_count
      → alarm_time c h ≡ h.last_sent_time + rto_interval c h
  unfolding alarm_time
  alarm_time-rto_interval h untimed used =
      let sent : ltb h.tlp_count 2 ≡ false = ground arith in
      elim (Bool-cases (c.smoothed_rtt h.env == 0)) [
        | inl e ↦ rw (untimed, e) refl
        | inr e ↦ rw (untimed, e, sent) refl
      ]

  alarm_set :
      (h : SentPacketHandler E)
      → h.packet_history ≢ []
      → (update_loss_detection_alarm c h).alarm ≡ some (alarm_time c h)
  unfolding update_loss_detection_alarm
  alarm_set h some_left = rw (outstanding h.packet_history some_left) refl

  -- While packets are in flight, no loss time is set and both tail loss probes were sent,
  -- updateLossDetectionAlarm sets the alarm at least 200 ms and at most 60 s after the last packet,
  -- whatever the delay of congestion control and the number of timeouts so far.
  pub rto_alarm_bounds :
      (h : SentPacketHandler E)
      → h.packet_history ≢ []
      → h.loss_time ≡ none
      → 2 ≤ h.tlp_count
      → (t : ℕ) × ((update_loss_detection_alarm c h).alarm ≡ some t)
        × (h.last_sent_time + 200_000_000 ≤ t)
        × (t ≤ h.last_sent_time + 60_000_000_000)
  unfolding compute_rto_timeout
  rto_alarm_bounds h some_left untimed used = (
    h.last_sent_time + rto_interval c h,
    alarm_set h some_left ∙ ap some (alarm_time-rto_interval h untimed used),
    omega (arith, (clamp_bounds (u64 (base_rto c h * 2 ^ h.rto_count))).0),
    omega (arith, (clamp_bounds (u64 (base_rto c h * 2 ^ h.rto_count))).1),
  )

  -- Where the shifted delay has the top bit of an int64 set, the backoff is lost: while packets are in
  -- flight, no loss time is set and both tail loss probes were sent, updateLossDetectionAlarm sets the
  -- alarm 200 ms after the last packet.
  pub rto_alarm_overflow :
      (h : SentPacketHandler E)
      → h.packet_history ≢ []
      → h.loss_time ≡ none
      → 2 ≤ h.tlp_count
      → 2 ^ 63 ≤ base_rto c h * 2 ^ h.rto_count % 2 ^ 64
      → (update_loss_detection_alarm c h).alarm ≡ some (h.last_sent_time + 200_000_000)
  rto_alarm_overflow h some_left untimed used big =
      alarm_set h some_left
      ∙ ap some (
          alarm_time-rto_interval h untimed used
          ∙ ap (λ (t : ℕ). h.last_sent_time + t) (rto_interval_overflow c h big))

  -- What a retransmission leaves as it was.
  abbrev Kept : SentPacketHandler E → SentPacketHandler E → Type 0
  Kept h h' =
      (h'.rto_count ≡ h.rto_count)
      × (h'.tlp_count ≡ h.tlp_count)
      × (h'.loss_time ≡ h.loss_time)
      × (h'.last_sent_time ≡ h.last_sent_time)

  Kept-trans : (a b d : SentPacketHandler E) → Kept a b → Kept b d → Kept a d
  Kept-trans a b d x y = (y.0 ∙ x.0, y.1 ∙ x.1, y.2 ∙ x.2, y.3 ∙ x.3)

  queue_rto_keeps : (p : Packet) (h : SentPacketHandler E) → Kept h (queue_rto c p h)
  unfolding queue_rto report_lost queue_packet_for_retransmission
  queue_rto_keeps p h = (refl, refl, refl, refl)

  queue_all_rto_keeps : (ps : List Packet) (h : SentPacketHandler E) → Kept h (queue_all_rto c ps h)
  unfolding queue_all_rto
  queue_all_rto_keeps [] h = (refl, refl, refl, refl)
  queue_all_rto_keeps (p ∷ ps) h =
      Kept-trans h (queue_rto c p h) (queue_all_rto c ps (queue_rto c p h)) (queue_rto_keeps p h)
        (queue_all_rto_keeps ps (queue_rto c p h))

  oldest_keeps : (ps : List Packet) (h : SentPacketHandler E) → Kept h (retransmit_front c ps h)
  unfolding retransmit_front
  oldest_keeps [] h = (refl, refl, refl, refl)
  oldest_keeps (p ∷ ps) h = queue_rto_keeps p h

  two_keep : (h : SentPacketHandler E) → Kept h (retransmit_oldest_two_packets c h)
  unfolding retransmit_oldest_two_packets retransmission_timeout retransmit_oldest_packet
  two_keep h =
      let first = retransmit_front c h.packet_history h in
      Kept-trans h first (retransmit_front c first.packet_history first)
        (oldest_keeps h.packet_history h) (oldest_keeps first.packet_history first)

  all_keep : (h : SentPacketHandler E) → Kept h (retransmit_all_packets c h)
  unfolding retransmit_all_packets retransmission_timeout
  all_keep h = queue_all_rto_keeps h.packet_history h

  on_rto_keeps : (h : SentPacketHandler E) → Kept h (on_rto c h)
  unfolding on_rto
  on_rto_keeps h = elim (Option-cases c.on_rto_callback) [
    | inl e ↦ rw (e, on_rto) (two_keep h)
    | inr (f, e) ↦
        let g = record h { env = (f h.last_sent_time h.env).1 } in
        elim (Bool-cases (f h.last_sent_time h.env).0) [
          | inl failed ↦ rw (e, on_rto, failed) (all_keep g)
          | inr alive ↦ rw (e, on_rto, alive) (two_keep g)
        ]
  ]

  -- One timeout more doubles what is cut to 60 s, as long as it fits.
  doubled :
      (w : ℕ)
      → 200_000_000 ≤ w
      → w < 2 ^ 62
      → max (min (2 * w) max_rto_timeout) min_retransmission_time
        ≡ min (2 * max (min w max_rto_timeout) min_retransmission_time) 60_000_000_000
  doubled w low fits = ground arith

  base_rto_bounds :
      (h : SentPacketHandler E)
      → c.retransmission_delay h.env ≤ 60_000_000_000
      → (200_000_000 ≤ base_rto c h) × (base_rto c h ≤ 60_000_000_000)
  base_rto_bounds h slow = ground arith

  -- The shifted delay does not overflow in 27 timeouts.
  shifted_bounds :
      (b r : ℕ)
      → 200_000_000 ≤ b
      → b ≤ 60_000_000_000
      → r < 27
      → (200_000_000 ≤ b * 2 ^ r) × (b * 2 ^ r < 2 ^ 62)
  shifted_bounds b r low high few =
      let one : 1 ≤ 2 ^ r = pow-le-pow_right (omega arith) {i = 0} {j = r} (omega arith) in
      let most : 2 ^ r ≤ 2 ^ 26 = pow-le-pow_right (omega arith) {i = r} {j = 26} (omega arith) in
      let least : b * 1 ≤ b * 2 ^ r = mul-le-mul_left b one in
      let largest : b * 2 ^ r ≤ b * 2 ^ 26 = mul-le-mul_left b most in (omega arith, omega arith)

  twice_shifted : (b r : ℕ) → b * 2 ^ suc r ≡ 2 * (b * 2 ^ r)
  twice_shifted b r = ap (λ (x : ℕ). b * x) (pow-succ' 2 r) ∙ mul_left_comm b 2 (2 ^ r)

  rto_interval_shifted :
      (h : SentPacketHandler E) (w : ℕ)
      → base_rto c h * 2 ^ h.rto_count ≡ w
      → w < 2 ^ 63
      → rto_interval c h ≡ max (min w max_rto_timeout) min_retransmission_time
  unfolding compute_rto_timeout
  rto_interval_shifted h w e fits =
      let same : u64 (base_rto c h * 2 ^ h.rto_count) ≡ w = omega arith in
      rw same (clamp_exact w fits)

  update_keeps :
      (h : SentPacketHandler E)
      → ((update_loss_detection_alarm c h).env ≡ h.env)
        × ((update_loss_detection_alarm c h).packet_history ≡ h.packet_history)
  unfolding update_loss_detection_alarm
  update_keeps h = elim (Bool-cases (length h.packet_history == 0)) [
    | inl e ↦ rw e (refl, refl)
    | inr e ↦ rw e (refl, refl)
  ]

  module _ (h : SentPacketHandler E) (now : ℕ) where
    -- The state that the RTO branch of OnAlarm sets the alarm in.
    abbrev after_rto : SentPacketHandler E
    after_rto = record (on_rto c h) { rto_count = ((on_rto c h).rto_count + 1) % 2 ^ 32 }

    on_alarm-after_rto :
        has_outstanding_retransmittable_packet c h ≡ true
        → h.loss_time ≡ none
        → 2 ≤ h.tlp_count
        → on_alarm c now h ≡ update_loss_detection_alarm c after_rto
    unfolding on_alarm
    on_alarm-after_rto left untimed used =
        let sent : ltb h.tlp_count 2 ≡ false = ground arith in rw (left, untimed, sent) refl

    backs_off :
        h.loss_time ≡ none
        → 2 ≤ h.tlp_count
        → h.rto_count < 27
        → c.retransmission_delay h.env ≤ 60_000_000_000
        → c.retransmission_delay (on_rto c h).env ≡ c.retransmission_delay h.env
        → alarm_time c after_rto
          ≡ h.last_sent_time + min (2 * (alarm_time c h - h.last_sent_time)) 60_000_000_000
    backs_off untimed used few slow steady =
        let kept = on_rto_keeps h in
        let bounds = base_rto_bounds h slow in
        let shifted = shifted_bounds (base_rto c h) h.rto_count bounds.0 bounds.1 few in
        let w = base_rto c h * 2 ^ h.rto_count in
        let count : after_rto.rto_count ≡ suc h.rto_count = omega (arith, kept.0) in
        let before = alarm_time-rto_interval h untimed used in
        let after = alarm_time-rto_interval after_rto (kept.2 ∙ untimed) (omega (arith, kept.1)) in
        let same_base : base_rto c after_rto ≡ base_rto c h =
          ap (λ (d : ℕ). max (if d == 0 then default_rto_timeout else d) min_rto_timeout) steady in
        let twice : base_rto c after_rto * 2 ^ after_rto.rto_count ≡ 2 * w =
          ap (λ (b : ℕ). b * 2 ^ after_rto.rto_count) same_base
          ∙ ap (λ (r : ℕ). base_rto c h * 2 ^ r) count
          ∙ twice_shifted (base_rto c h) h.rto_count in
        omega (
          arith,
          before,
          after,
          kept.3,
          rto_interval_shifted h w refl (omega arith),
          rto_interval_shifted after_rto (2 * w) twice (omega arith),
          doubled w shifted.0 shifted.1,
        )

    -- When both tail loss probes were sent, no loss time is set and a packet in flight is
    -- retransmittable, OnAlarm sets the alarm to twice the time after the last packet that it was
    -- due at before, and to no more than 60 s, provided that it leaves a packet in flight, that
    -- congestion control asks for the same delay afterwards, of at most 60 s, and that there were
    -- fewer than 27 timeouts so far.
    pub on_alarm_backs_off :
        has_outstanding_retransmittable_packet c h ≡ true
        → h.loss_time ≡ none
        → 2 ≤ h.tlp_count
        → h.rto_count < 27
        → c.retransmission_delay h.env ≤ 60_000_000_000
        → c.retransmission_delay (on_alarm c now h).env ≡ c.retransmission_delay h.env
        → (on_alarm c now h).packet_history ≢ []
        → (on_alarm c now h).alarm
          ≡ some (h.last_sent_time + min (2 * (alarm_time c h - h.last_sent_time)) 60_000_000_000)
    on_alarm_backs_off left untimed used few slow steady some_left =
        let same = on_alarm-after_rto left untimed used in
        let kept = update_keeps after_rto in
        let delay =
          ap c.retransmission_delay (sym (ap (λ (s : SentPacketHandler E). s.env) same ∙ kept.0))
          ∙ steady in
        ap (λ (s : SentPacketHandler E). s.alarm) same
        ∙ alarm_set after_rto
            (λ e. some_left (ap (λ (s : SentPacketHandler E). s.packet_history) same ∙ kept.1 ∙ e))
        ∙ ap some (backs_off untimed used few slow delay)
