-- ===== src/Scheduler/RoundRobin/Least.antt =====
-- Round robin picks a usable path that has had the fewest packets.
use mpquic_latency.Base.{
  ℕ, ◌-◌, ◌^◌, ◌≤◌, ◌<◌, ltb, leb, ◌≡◌, refl, Bool, true, false, Bool-cases, Option, none, some,
  List, [], ◌∷◌, length, All, returned, ◌⊎◌, inl, inr, arith,
}
use mathlib.Core.Path.{subst}
use mpquic_latency.Scheduler.Paths.{
  QuicPath, Quotas, quota_of, quota_of-or_set, is_usable, Among, Blocked,
}
use mpquic_latency.Scheduler.RoundRobin.{
  RoundRobin, rr_step, rr_loop, rr_start, select_path_round_robin,
}

-- What the rest of the loop makes of the state, where view are the quotas that the loop began with.
record Chosen (has_retransmission : Bool) (view : ℕ → ℕ) (st : RoundRobin) (paths : List QuicPath)
    (r : RoundRobin) : Type 0 where
  selection :
      ((r.selected_path ≡ st.selected_path) × (r.lower_quota ≡ st.lower_quota))
      ⊎ ((p : QuicPath) × (r.selected_path ≡ some p)
          × Among p paths
          × (is_usable has_retransmission p ≡ true)
          × (r.lower_quota ≡ view p.path_id))
  lower : r.lower_quota ≤ st.lower_quota
  least : All (λ q. is_usable has_retransmission q ≡ true → r.lower_quota ≤ view q.path_id) paths
  same_quotas : (j : ℕ) → quota_of r.quotas j ≡ view j

pub several : (n : ℕ) → 2 ≤ n → leb n 1 ≡ false
several n h = ground arith

module _ (has_retransmission : Bool) (view : ℕ → ℕ) where
  abbrev Views : RoundRobin → Type 0
  Views st = (j : ℕ) → quota_of st.quotas j ≡ view j

  rr_step-Views :
      (p : QuicPath) (st : RoundRobin) → Views st → Views (rr_step has_retransmission p st)
  unfolding rr_step
  rr_step-Views p st h j = ground (arith, h j, quota_of-or_set st.quotas p.path_id j)

  module _ (p : QuicPath) (st : RoundRobin) (h : Views st) where
    rr_step_unusable : is_usable has_retransmission p ≡ false → rr_step has_retransmission p st ≡ st
    unfolding rr_step
    rr_step_unusable e = rw e refl

    rr_step_kept :
        is_usable has_retransmission p ≡ true
        → st.lower_quota ≤ view p.path_id
        → ((rr_step has_retransmission p st).selected_path ≡ st.selected_path)
          × ((rr_step has_retransmission p st).lower_quota ≡ st.lower_quota)
    unfolding rr_step
    rr_step_kept e le = ground (arith, h p.path_id)

    rr_step_taken :
        is_usable has_retransmission p ≡ true
        → view p.path_id < st.lower_quota
        → ((rr_step has_retransmission p st).selected_path ≡ some p)
          × ((rr_step has_retransmission p st).lower_quota ≡ view p.path_id)
    unfolding rr_step
    rr_step_taken e lt = ground (arith, h p.path_id)

    Chosen-step :
        (paths : List QuicPath) (r : RoundRobin)
        → Chosen has_retransmission view (rr_step has_retransmission p st) paths r
        → Chosen has_retransmission view st (p ∷ paths) r
    Chosen-step paths r c = elim (Bool-cases (is_usable has_retransmission p)) [
      | inl use_it ↦ elim (Bool-cases (ltb (view p.path_id) st.lower_quota)) [
        | inl lt ↦ ground (arith, c, rr_step_taken use_it)
        | inr ge ↦ ground (arith, c, rr_step_kept use_it)
      ]
      | inr skip ↦ ground (arith, c, rr_step_unusable skip)
    ]

  rr_loop-Chosen :
      (paths : List QuicPath) (st : RoundRobin)
      → Views st
      → Chosen has_retransmission view st paths (rr_loop has_retransmission paths st)
  unfolding rr_loop
  rr_loop-Chosen [] st h = record {
    selection = inl (refl, refl);
    lower = omega arith;
    least = tt;
    same_quotas = h;
  }
  rr_loop-Chosen (p ∷ paths) st h =
      Chosen-step p st h paths (rr_loop has_retransmission paths (rr_step has_retransmission p st))
        (rr_loop-Chosen paths (rr_step has_retransmission p st) (rr_step-Views p st h))

-- The selection of a usable path with the least quota, or of none when no path can be used.
abbrev pub PicksLeast : Bool → Quotas → List QuicPath → Option QuicPath → Type 0
PicksLeast has_retransmission quotas paths selected =
    ((selected ≡ none) × Blocked has_retransmission paths)
    ⊎ ((p : QuicPath) × (selected ≡ some p)
        × Among p paths
        × (is_usable has_retransmission p ≡ true)
        × All
            (λ q.
              is_usable has_retransmission q ≡ true
              → quota_of quotas p.path_id ≤ quota_of quotas q.path_id)
            paths)

module _ (has_retransmission : Bool) (quotas : Quotas) where
  nothing_below :
      (paths : List QuicPath)
      → All (λ q. quota_of quotas q.path_id < 2 ^ 64 - 1) paths
      → All
          (λ q. is_usable has_retransmission q ≡ true → 2 ^ 64 - 1 ≤ quota_of quotas q.path_id)
          paths
      → Blocked has_retransmission paths
  nothing_below [] small h = tt
  nothing_below (p ∷ paths) small h = (ground (arith, h.0), nothing_below paths small.1 h.1)

  least_at :
      (n m : ℕ) (paths : List QuicPath)
      → n ≡ m
      → All (λ q. is_usable has_retransmission q ≡ true → n ≤ quota_of quotas q.path_id) paths
      → All (λ q. is_usable has_retransmission q ≡ true → m ≤ quota_of quotas q.path_id) paths
  least_at n m paths e h =
      subst
        (λ k.
          All (λ q. is_usable has_retransmission q ≡ true → k ≤ quota_of quotas q.path_id) paths)
        e h

  -- With two paths or more and quotas below their largest value, round robin returns a usable path
  -- of the least quota among the usable ones, or no path when none is usable. No quota changes.
  pub select_path_round_robin-PicksLeast :
      (paths : List QuicPath)
      → 2 ≤ length paths
      → All (λ q. quota_of quotas q.path_id < 2 ^ 64 - 1) paths
      → (selected : Option QuicPath) × (quotas' : Quotas) × (select_path_round_robin
            has_retransmission quotas paths
          ≡ returned (selected, quotas'))
        × ((j : ℕ) → quota_of quotas' j ≡ quota_of quotas j)
        × PicksLeast has_retransmission quotas paths selected
  unfolding select_path_round_robin
  select_path_round_robin-PicksLeast paths many small = (
    the_end.selected_path,
    the_end.quotas,
    rw (several (length paths) many),
    chosen.same_quotas,
    elim chosen.selection [
      | inl kept ↦ inl (kept.0, nothing_below paths small (least_at _ _ paths kept.1 chosen.least))
      | inr (p, e, among, usable, low) ↦
          inr (p, e, among, usable, least_at _ _ paths low chosen.least)
    ],
  )
    where
      the_end : RoundRobin
      the_end = rr_loop has_retransmission paths (rr_start quotas)

      chosen : Chosen has_retransmission (quota_of quotas) (rr_start quotas) paths the_end
      chosen =
          rr_loop-Chosen has_retransmission (quota_of quotas) paths (rr_start quotas) (λ j. refl)
