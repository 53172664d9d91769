-- ===== src/Congestion/HybridSlowStart/Detection.antt =====
-- What makes hybrid slow start end.
use mpquic_latency.Base.{
  ℕ, ◌+◌, ◌*◌, ◌/◌, ◌<◌, ◌≡◌, refl, true, false, ◌&&◌, List, [], ◌∷◌, ltb, ◌==◌, length, All, min,
  max, arith, ap, ◌∙◌,
}
use mpquic_latency.Congestion.HybridSlowStart.{
  HybridSlowStart, start_receive_round, increase_threshold, sample, should_exit_slow_start,
}

-- The calls of ShouldExitSlowStart for the RTTs of a round.
unfoldable pub round : ℕ → ℕ → List ℕ → HybridSlowStart → HybridSlowStart
unfolding should_exit_slow_start
round min_rtt congestion_window [] s = s
round min_rtt congestion_window (r ∷ rs) s =
    round min_rtt congestion_window rs (should_exit_slow_start r min_rtt congestion_window s).1

-- The smallest of `r` and the list.
unfoldable pub smallest : ℕ → List ℕ → ℕ
smallest r [] = r
smallest r (x ∷ xs) = smallest (min r x) xs

call_inside :
    (r min_rtt cw : ℕ) (s : HybridSlowStart)
    → s.started ≡ true
    → s.hystart_found ≡ false
    → (should_exit_slow_start r min_rtt cw s).1 ≡ sample r min_rtt s
unfolding should_exit_slow_start
call_inside r min_rtt cw s a b = ground arith

sample_inside :
    (r min_rtt : ℕ) (s : HybridSlowStart)
    → 0 < s.current_min_rtt
    → s.rtt_sample_count < 8
    → s.hystart_found ≡ false
    → let t = sample r min_rtt s in
      (t.started ≡ s.started)
      × (t.current_min_rtt ≡ min s.current_min_rtt r)
      × (t.rtt_sample_count ≡ s.rtt_sample_count + 1)
      × (t.hystart_found ≡ (
          s.rtt_sample_count + 1 == 8
          && ltb (min_rtt + increase_threshold min_rtt) (min s.current_min_rtt r)))
unfolding sample
sample_inside r min_rtt s a b c = (refl, ground arith, omega arith, ground arith)

first_sample :
    (r min_rtt : ℕ) (s : HybridSlowStart)
    → s.current_min_rtt ≡ 0
    → s.rtt_sample_count ≡ 0
    → let t = sample r min_rtt s in
      (t.started ≡ s.started)
      × (t.current_min_rtt ≡ r)
      × (t.rtt_sample_count ≡ 1)
      × (t.hystart_found ≡ s.hystart_found)
unfolding sample
first_sample r min_rtt s a b = (refl, ground arith, omega arith, ground arith)

round_call :
    (min_rtt cw r : ℕ) (rs : List ℕ) (s : HybridSlowStart)
    → s.started ≡ true
    → s.hystart_found ≡ false
    → round min_rtt cw (r ∷ rs) s ≡ round min_rtt cw rs (sample r min_rtt s)
unfolding round
round_call min_rtt cw r rs s a b = ap (round min_rtt cw rs) (call_inside r min_rtt cw s a b)

last_sample :
    (r min_rtt cw m : ℕ) (s : HybridSlowStart)
    → (sample r min_rtt s).hystart_found ≡ (
        s.rtt_sample_count + 1 == 8
        && ltb (min_rtt + increase_threshold min_rtt) (min s.current_min_rtt r))
    → s.current_min_rtt ≡ m
    → s.rtt_sample_count ≡ 7
    → (round min_rtt cw [] (sample r min_rtt s)).hystart_found
      ≡ ltb (min_rtt + increase_threshold min_rtt) (min m r)
unfolding round
last_sample r min_rtt cw m s e c f = e ∙ rw (c, f) refl

-- From a state inside a round that has not found an increase, to the eighth sample.
round_detects_from :
    (min_rtt cw m : ℕ) (rs : List ℕ) (s : HybridSlowStart)
    → s.started ≡ true
    → s.hystart_found ≡ false
    → s.current_min_rtt ≡ m
    → 0 < m
    → 0 < length rs
    → s.rtt_sample_count + length rs ≡ 8
    → All (λ r. 0 < r) rs
    → (round min_rtt cw rs s).hystart_found
      ≡ ltb (min_rtt + increase_threshold min_rtt) (smallest m rs)
unfolding smallest
round_detects_from min_rtt cw m [] s a b c d e f h = absurd (omega arith)
round_detects_from min_rtt cw m (r ∷ []) s a b c d e f h =
    let t = sample_inside r min_rtt s (omega arith) (omega arith) b in
    ap (λ x. x.hystart_found) (round_call min_rtt cw r [] s a b)
    ∙ last_sample r min_rtt cw m s (t.3) c (omega arith)
round_detects_from min_rtt cw m (r ∷ r' ∷ rs) s a b c d e f h =
    let t = sample_inside r min_rtt s (omega arith) (omega arith) b in
    ap (λ x. x.hystart_found) (round_call min_rtt cw r (r' ∷ rs) s a b)
    ∙ (round_detects_from min_rtt cw (min m r) (r' ∷ rs) (sample r min_rtt s) (t.0 ∙ a)
        (t.3 ∙ ground arith) (t.1 ∙ ap (λ x. min x r) c) (ground arith) (omega arith)
        (omega (arith, t.2)) h.1)

-- In a round of eight samples, an increase of the delay is found exactly when the smallest of the
-- eight RTTs exceeds the minimum by more than the threshold, which is an eighth of the minimum,
-- but from 4 ms to 16 ms.
pub round_detects :
    (min_rtt cw last_sent r : ℕ) (rs : List ℕ) (s : HybridSlowStart)
    → s.hystart_found ≡ false
    → length rs ≡ 7
    → 0 < r
    → All (λ x. 0 < x) rs
    → (round min_rtt cw (r ∷ rs) (start_receive_round last_sent s)).hystart_found
      ≡ ltb (min_rtt + max (min (min_rtt / 1000 / 8) 16000) 4000 * 1000) (smallest r rs)
unfolding start_receive_round increase_threshold
round_detects min_rtt cw last_sent r rs s b l p h =
    let begun = start_receive_round last_sent s in
    let t = first_sample r min_rtt begun refl refl in
    ap (λ x. x.hystart_found) (round_call min_rtt cw r rs begun refl b)
    ∙ (round_detects_from min_rtt cw r rs (sample r min_rtt begun) t.0 (t.3 ∙ b) t.1 p (omega arith)
        (omega (arith, t.2)) h)
