-- ===== src/Scheduler/LowLatency/Fastest.antt =====
-- The low latency scheduler picks a usable path with the smallest RTT of those that were probed.
use mpquic_latency.Base.{
  ℕ, ◌≤◌, ◌<◌, ltb, leb, ◌==◌, if◌then◌else◌, ◌≡◌, refl, ap, Bool, true, false, not, ◌&&◌, ◌||◌,
  Bool-cases, Option, none, some, is_none, List, [], ◌∷◌, length, All, returned, ◌⊎◌, inl, inr,
  arith,
}
use mathlib.Core.Path.{subst}
use mpquic_latency.Scheduler.Paths.{
  QuicPath, Quotas, quota_of, quota_of-or_set, is_usable, Among, Blocked,
}
use mpquic_latency.Scheduler.RoundRobin.Least.{several}
use mpquic_latency.Scheduler.LowLatency.{
  LowLatency, ll_step, ll_loop, ll_start, other_path, or_fastest, select_path_low_latency,
}

module _ (has_retransmission : Bool) (view : ℕ → ℕ) where
  abbrev Views : LowLatency → Type 0
  Views st = (j : ℕ) → quota_of st.quotas j ≡ view j

  -- As long as nothing is selected, there is no RTT to compare with.
  abbrev Begins : LowLatency → Type 0
  Begins st = is_none st.selected_path ≡ true → st.lower_rtt ≡ 0

  -- No worse than the state st and than each usable path of the list.
  record Better (st : LowLatency) (paths : List QuicPath) (r : LowLatency) : Type 0 where
    selection :
        ((r.selected_path ≡ st.selected_path)
          × (r.lower_rtt ≡ st.lower_rtt)
          × (r.selected_path_id ≡ st.selected_path_id))
        ⊎ ((p : QuicPath) × (r.selected_path ≡ some p)
            × Among p paths
            × (is_usable has_retransmission p ≡ true)
            × (r.lower_rtt ≡ p.smoothed_rtt)
            × (r.selected_path_id ≡ p.path_id))
    none_left :
        is_none r.selected_path ≡ true
        → (is_none st.selected_path ≡ true) × Blocked has_retransmission paths
    faster_before : 0 < st.lower_rtt → (0 < r.lower_rtt) × (r.lower_rtt ≤ st.lower_rtt)
    fewer_before :
        is_none st.selected_path ≡ false
        → r.lower_rtt ≡ 0
        → view r.selected_path_id ≤ view st.selected_path_id
    faster :
        All
          (λ q.
            is_usable has_retransmission q ≡ true
            → 0 < q.smoothed_rtt
            → (0 < r.lower_rtt) × (r.lower_rtt ≤ q.smoothed_rtt))
          paths
    fewer :
        All
          (λ q.
            is_usable has_retransmission q ≡ true
            → r.lower_rtt ≡ 0
            → view r.selected_path_id ≤ view q.path_id)
          paths
    same_quotas : (j : ℕ) → quota_of r.quotas j ≡ view j

  -- Whether the body goes on with the next path.
  abbrev passes_over : QuicPath → LowLatency → Bool
  passes_over p st =
      if p.smoothed_rtt == 0
      then not (st.lower_rtt == 0)
        || (not (is_none st.selected_path) && ltb (view st.selected_path_id) (view p.path_id))
      else not (st.lower_rtt == 0)
        && not (is_none st.selected_path)
        && leb st.lower_rtt p.smoothed_rtt

  ll_step-Views :
      (p : QuicPath) (st : LowLatency) → Views st → Views (ll_step has_retransmission p st)
  unfolding ll_step
  ll_step-Views p st h j = ground (arith, h j, quota_of-or_set st.quotas p.path_id j)

  module _ (p : QuicPath) (st : LowLatency) (h : Views st) where
    ll_step_unusable : is_usable has_retransmission p ≡ false → ll_step has_retransmission p st ≡ st
    unfolding ll_step
    ll_step_unusable e = rw e refl

    ll_step_kept :
        is_usable has_retransmission p ≡ true
        → passes_over p st ≡ true
        → ((ll_step has_retransmission p st).selected_path ≡ st.selected_path)
          × ((ll_step has_retransmission p st).lower_rtt ≡ st.lower_rtt)
          × ((ll_step has_retransmission p st).selected_path_id ≡ st.selected_path_id)
    unfolding ll_step
    ll_step_kept e k = ground (
      arith,
      h p.path_id,
      h st.selected_path_id,
      quota_of-or_set st.quotas p.path_id p.path_id,
      quota_of-or_set st.quotas p.path_id st.selected_path_id,
    )

    ll_step_taken :
        is_usable has_retransmission p ≡ true
        → passes_over p st ≡ false
        → ((ll_step has_retransmission p st).selected_path ≡ some p)
          × ((ll_step has_retransmission p st).lower_rtt ≡ p.smoothed_rtt)
          × ((ll_step has_retransmission p st).selected_path_id ≡ p.path_id)
    unfolding ll_step
    ll_step_taken e k = ground (
      arith,
      h p.path_id,
      h st.selected_path_id,
      quota_of-or_set st.quotas p.path_id p.path_id,
      quota_of-or_set st.quotas p.path_id st.selected_path_id,
    )

    kept_Better :
        (paths : List QuicPath) (r : LowLatency)
        → Begins st
        → is_usable has_retransmission p ≡ true
        → passes_over p st ≡ true
        → Better (ll_step has_retransmission p st) paths r
        → Better st (p ∷ paths) r
    kept_Better paths r b use_it k c = ground (arith, ll_step_kept use_it k)

    taken_Better :
        (paths : List QuicPath) (r : LowLatency)
        → Begins st
        → is_usable has_retransmission p ≡ true
        → passes_over p st ≡ false
        → Better (ll_step has_retransmission p st) paths r
        → Better st (p ∷ paths) r
    taken_Better paths r b use_it k c = ground (arith, ll_step_taken use_it k)

    step_Better :
        (paths : List QuicPath) (r : LowLatency)
        → Begins st
        → Better (ll_step has_retransmission p st) paths r
        → Better st (p ∷ paths) r
    step_Better paths r b c = elim (Bool-cases (is_usable has_retransmission p)) [
      | inl use_it ↦ elim (Bool-cases (passes_over p st)) [
        | inl k ↦ kept_Better paths r b use_it k c
        | inr k ↦ taken_Better paths r b use_it k c
      ]
      | inr skip ↦ ground (arith, ll_step_unusable skip)
    ]

    ll_step-Begins : Begins st → Begins (ll_step has_retransmission p st)
    ll_step-Begins b = elim (Bool-cases (is_usable has_retransmission p)) [
      | inl use_it ↦ elim (Bool-cases (passes_over p st)) [
        | inl k ↦ ground (arith, ll_step_kept use_it k)
        | inr k ↦ ground (arith, ll_step_taken use_it k)
      ]
      | inr skip ↦ ground (arith, ll_step_unusable skip)
    ]

  ll_loop-Better :
      (paths : List QuicPath) (st : LowLatency)
      → Views st
      → Begins st
      → Better st paths (ll_loop has_retransmission paths st)
  unfolding ll_loop
  ll_loop-Better [] st h b = record {
    selection = inl (refl, refl, refl);
    none_left = λ e. (e, tt);
    faster_before = λ lt. (lt, omega arith);
    fewer_before = λ _ _. omega arith;
    faster = tt;
    fewer = tt;
    same_quotas = h;
  }
  ll_loop-Better (p ∷ paths) st h b =
      step_Better p st h paths (ll_loop has_retransmission paths (ll_step has_retransmission p st))
        b
        (ll_loop-Better paths (ll_step has_retransmission p st) (ll_step-Views p st h)
          (ll_step-Begins p st h b))

-- The selection of a usable path that is no slower than any probed usable path, and has the least
-- quota when none was probed; or of no path when none is usable.
abbrev pub PicksFastest : Bool → Quotas → List QuicPath → Option QuicPath → Type 0
PicksFastest has_retransmission quotas paths selected =
    ((selected ≡ none) × Blocked has_retransmission paths)
    ⊎ ((p : QuicPath) × (selected ≡ some p)
        × Among p paths
        × (is_usable has_retransmission p ≡ true)
        × All
            (λ q.
              is_usable has_retransmission q ≡ true
              → 0 < q.smoothed_rtt
              → (0 < p.smoothed_rtt) × (p.smoothed_rtt ≤ q.smoothed_rtt))
            paths
        × All
            (λ q.
              is_usable has_retransmission q ≡ true
              → p.smoothed_rtt ≡ 0
              → quota_of quotas p.path_id ≤ quota_of quotas q.path_id)
            paths)

module _ (has_retransmission : Bool) (quotas : Quotas) where
  faster_at :
      (n m : ℕ) (paths : List QuicPath)
      → n ≡ m
      → All
          (λ q.
            is_usable has_retransmission q ≡ true
            → 0 < q.smoothed_rtt
            → (0 < n) × (n ≤ q.smoothed_rtt))
          paths
      → All
          (λ q.
            is_usable has_retransmission q ≡ true
            → 0 < q.smoothed_rtt
            → (0 < m) × (m ≤ q.smoothed_rtt))
          paths
  faster_at n m paths e h =
      subst
        (λ k.
          All
            (λ q.
              is_usable has_retransmission q ≡ true
              → 0 < q.smoothed_rtt
              → (0 < k) × (k ≤ q.smoothed_rtt))
            paths)
        e h

  fewer_at :
      (n m i j : ℕ) (paths : List QuicPath)
      → n ≡ m
      → i ≡ j
      → All
          (λ q.
            is_usable has_retransmission q ≡ true
            → n ≡ 0
            → quota_of quotas i ≤ quota_of quotas q.path_id)
          paths
      → All
          (λ q.
            is_usable has_retransmission q ≡ true
            → m ≡ 0
            → quota_of quotas j ≤ quota_of quotas q.path_id)
          paths
  fewer_at n m i j [] e e' h = tt
  fewer_at n m i j (q ∷ paths) e e' h =
      (ground (arith, h.0, ap (quota_of quotas) e'), fewer_at n m i j paths e e' h.1)

  -- With two paths or more, and unless a retransmission of a stream's frames is moved from a path
  -- that was not probed yet to one with fewer packets, the low latency scheduler returns a usable
  -- path that is no slower than any probed usable path, and one of the least quota when no usable
  -- path was probed. It returns no path when none is usable. No quota changes.
  pub select_path_low_latency-PicksFastest :
      (has_stream_retransmission : Bool) (from_pth : Option QuicPath) (paths : List QuicPath)
      → 2 ≤ length paths
      → other_path has_retransmission has_stream_retransmission from_pth quotas paths
        ≡ returned none
      → (selected : Option QuicPath) × (quotas' : Quotas) × (select_path_low_latency
            has_retransmission has_stream_retransmission from_pth quotas paths
          ≡ returned (selected, quotas'))
        × ((j : ℕ) → quota_of quotas' j ≡ quota_of quotas j)
        × PicksFastest has_retransmission quotas paths selected
  unfolding select_path_low_latency or_fastest
  select_path_low_latency-PicksFastest has_stream_retransmission from_pth paths many other = (
    the_end.selected_path,
    the_end.quotas,
    rw (several (length paths) many, other),
    better.same_quotas,
    elim better.selection [
      | inl kept ↦ inl (kept.0, (better.none_left (ap is_none kept.0)).1)
      | inr (p, e, among, usable, rtt, id) ↦ inr (
        p,
        e,
        among,
        usable,
        faster_at _ _ paths rtt better.faster,
        fewer_at _ _ _ _ paths rtt id better.fewer,
      )
    ],
  )
    where
      the_end : LowLatency
      the_end = ll_loop has_retransmission paths (ll_start quotas)

      better : Better has_retransmission (quota_of quotas) (ll_start quotas) paths the_end
      better =
          ll_loop-Better has_retransmission (quota_of quotas) paths (ll_start quotas) (λ j. refl)
            (λ e. refl)
