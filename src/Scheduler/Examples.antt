-- ===== src/Scheduler/Examples.antt =====
-- Concrete selections: a fast path, a slow path, a path that was not probed, and the initial path.
use mpquic_latency.Base.{
  ℕ, ◌+◌, ◌-◌, ◌^◌, ◌≤◌, ◌<◌, ◌≡◌, ◌≢◌, refl, ap, true, false, List, [], ◌∷◌, none, some, Option,
  if◌then◌else◌, ◌==◌, returned, arith, inl, inr,
}
use mpquic_latency.Scheduler.Paths.{QuicPath, Quotas, quota_of, is_usable}
use mpquic_latency.Scheduler.RoundRobin.{select_path_round_robin, count_packet, rr_loop, rr_step}
use mpquic_latency.Scheduler.RoundRobin.Least.{PicksLeast, select_path_round_robin-PicksLeast}
use mpquic_latency.Scheduler.RoundRobin.Fair.{Situation, Sends, start, sent, not_sent, sends_serve}
use mpquic_latency.Scheduler.LowLatency.{other_path, select_path_low_latency}
use mpquic_latency.Scheduler.LowLatency.Fastest.{PicksFastest, select_path_low_latency-PicksFastest}
use mpquic_latency.Scheduler.Selection.{low_rtt, select_path, Agrees, select_path_among_redundant}
use mpquic_latency.Scheduler.Duplicates.{
  DupId, Duplicates, add_duplicate, cross_ack_handling, cross_ack_handling_once,
}
use mpquic_latency.Ackhandler.Sent.State.{Environment, SentPacketHandler, new_sent_packet_handler}
use mpquic_latency.Wire.Frame.{ping}
use mpquic_latency.Ackhandler.Sent.Ops.{remove_packet_by_number}

abbrev initial : QuicPath
initial = record {
  path_id = 0;
  sending_allowed = true;
  potentially_failed = false;
  smoothed_rtt = 0;
}

abbrev slow : QuicPath
slow = record { path_id = 1; sending_allowed = true; potentially_failed = false; smoothed_rtt = 90 }

abbrev fast : QuicPath
fast = record { path_id = 3; sending_allowed = true; potentially_failed = false; smoothed_rtt = 20 }

abbrev paths : List QuicPath
paths = initial ∷ slow ∷ fast ∷ []

abbrev five_and_two : Quotas
five_and_two id = if id == 1 then some 5 else if id == 3 then some 2 else none

select_path_round_robin-PicksLeast_example :
    (selected : Option QuicPath) × (quotas' : Quotas) × (select_path_round_robin false five_and_two
        paths
      ≡ returned (selected, quotas'))
    × ((j : ℕ) → quota_of quotas' j ≡ quota_of five_and_two j)
    × PicksLeast false five_and_two paths selected
select_path_round_robin-PicksLeast_example =
    select_path_round_robin-PicksLeast false five_and_two paths (omega arith)
      (omega arith, (omega arith, (omega arith, tt)))

-- The initial path, and the two others in either order. The slow path can be used only when data
-- is retransmitted.
abbrev full : QuicPath
full = record slow { sending_allowed = false }

abbrev at_first : Situation (1 ∷ 3 ∷ []) 3
unfolding is_usable
at_first = record {
  has_retransmission = true;
  paths = initial ∷ full ∷ fast ∷ [];
  many = omega arith;
  known = (λ e. ground arith, (λ e. inl refl, (λ e. inr (inl refl), tt)));
  pth = fast;
  present = inr (inr (inl refl));
  same_id = refl;
  usable = refl;
}

abbrev later : Situation (1 ∷ 3 ∷ []) 3
unfolding is_usable
later = record {
  has_retransmission = false;
  paths = fast ∷ full ∷ [];
  many = omega arith;
  known = (λ e. inr (inl refl), (λ e. inl refl, tt));
  pth = fast;
  present = inl refl;
  same_id = refl;
  usable = refl;
}

abbrev after_two : Quotas
after_two = count_packet fast (count_packet fast five_and_two)

-- A packet, a selection for nothing, and another packet.
two_sends : Sends (1 ∷ 3 ∷ []) 3 five_and_two 2 after_two
unfolding is_usable select_path_round_robin rr_loop rr_step
two_sends =
    sent {p = fast} later (not_sent {p = fast} later (sent {p = fast} at_first start refl) refl)
      refl

some_room : (j : ℕ) → quota_of five_and_two j + 2 < 2 ^ 64 - 1
some_room j = ground arith

sends_serve_example : 2 + 1 ≤ quota_of after_two 3
sends_serve_example =
    sends_serve (1 ∷ 3 ∷ []) 3 1 2 two_sends (inr (inl refl)) (omega arith, (omega arith, tt))
      some_room

select_path_low_latency-PicksFastest_example :
    (selected : Option QuicPath) × (quotas' : Quotas) × (select_path_low_latency false false none
        five_and_two paths
      ≡ returned (selected, quotas'))
    × ((j : ℕ) → quota_of quotas' j ≡ quota_of five_and_two j)
    × PicksFastest false five_and_two paths selected
unfolding other_path
select_path_low_latency-PicksFastest_example =
    select_path_low_latency-PicksFastest false five_and_two false none paths (omega arith) refl

-- Frames of the slow path's streams are sent again before it has an RTT sample.
abbrev unprobed : QuicPath
unprobed = record slow { smoothed_rtt = 0 }

abbrev some_unprobed : List QuicPath
some_unprobed = initial ∷ unprobed ∷ fast ∷ []

select_path_among_redundant_example :
    Agrees true five_and_two some_unprobed
      (omega arith)
      low_rtt
      true
      (some unprobed)
      (select_path low_rtt true true (some unprobed) five_and_two some_unprobed)
unfolding other_path
select_path_among_redundant_example =
    select_path_among_redundant true five_and_two some_unprobed (omega arith) low_rtt true
      (some unprobed) (omega arith, (omega arith, (omega arith, tt))) (λ e. ground arith)

-- Congestion control with a fixed window and fixed times.
abbrev fixed : Environment Unit
fixed = record {
  on_packet_sent = λ now flight n len retransmittable e. e;
  get_congestion_window = λ e. 40000;
  maybe_exit_slow_start = λ e. e;
  on_packet_acked = λ n len flight e. e;
  on_packet_lost = λ n len flight e. e;
  on_retransmission_timeout = λ retransmitted e. e;
  retransmission_delay = λ e. 0;
  congestion_smoothed_rtt = λ e. 50_000_000;
  smoothed_rtt = λ e. 50_000_000;
  latest_rtt = λ e. 60_000_000;
  update_rtt = λ sent delay rcv now e. e;
  on_ack_callback = λ path n e. e;
  on_rto_callback = none;
}

abbrev one_in_flight : SentPacketHandler Unit
one_in_flight = record (new_sent_packet_handler fixed tt 3) {
  packet_history =
      record {
        packet_number = 8;
        frames = ping ∷ [];
        length = 1000;
        encryption_level = 3;
        send_time = 7;
      }
      ∷ [];
  bytes_in_flight = 1000;
}

abbrev no_duplicates : Duplicates Unit
no_duplicates = record {
  dup_packets = λ _. none;
  duplicated_packets = 0;
  dropped_duplicated_packets = 0;
  handlers = λ _. some one_in_flight;
}

abbrev on_slow : DupId
on_slow = record { path_id = 1; packet_number = 5 }

abbrev on_fast : DupId
on_fast = record { path_id = 3; packet_number = 8 }

on_slow-ne-on_fast : on_slow ≢ on_fast
on_slow-ne-on_fast e = absurd (omega (arith, ap (λ (d : DupId). d.path_id) e))

cross_ack_handling_once_example :
    (s' : Duplicates Unit) × (s'' : Duplicates Unit) × (cross_ack_handling fixed 1 5
        (add_duplicate true on_slow on_fast no_duplicates)
      ≡ returned s')
    × (s'.handlers 3 ≡ some (remove_packet_by_number fixed 8 one_in_flight).1)
    × ((j : ℕ) → j ≢ 3 → s'.handlers j ≡ no_duplicates.handlers j)
    × (cross_ack_handling fixed 3 8 s' ≡ returned s'')
    × (s''.handlers ≡ s'.handlers)
    × (s''.dropped_duplicated_packets ≡ s'.dropped_duplicated_packets)
    × (s''.dup_packets on_slow ≡ none)
    × (s''.dup_packets on_fast ≡ none)
    × ((j : DupId) → j ≢ on_slow → j ≢ on_fast → s''.dup_packets j ≡ no_duplicates.dup_packets j)
cross_ack_handling_once_example =
    cross_ack_handling_once fixed false on_slow on_fast no_duplicates one_in_flight
      on_slow-ne-on_fast refl
