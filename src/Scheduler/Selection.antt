-- ===== src/Scheduler/Selection.antt =====
-- scheduler.go: selectPath, which leaves the choice to the algorithm that is set.
use mpquic_latency.Base.{
  ◌-◌, ◌^◌, ◌≤◌, ◌<◌, ◌≡◌, ◌≢◌, refl, sym, ap, Bool, true, false, Bool-cases, Option, none, some,
  List, [], ◌∷◌, map, length, All, Outcome, returned, panicked, ◌⊎◌, inl, inr, arith,
}
use mpquic_latency.Scheduler.Paths.{
  QuicPath, Quotas, quota_of, is_usable, first_usable, select_free_path, all_usable,
  select_redundant_paths, Among, Blocked,
}
use mpquic_latency.Scheduler.RoundRobin.{with_quotas, select_path_round_robin}
use mpquic_latency.Scheduler.RoundRobin.Least.{several, select_path_round_robin-PicksLeast}
use mpquic_latency.Scheduler.LowLatency.{other_path, or_fastest, select_path_low_latency}
use mpquic_latency.Scheduler.LowLatency.Moves.{IsMoved, other_path-IsMoved}
use mpquic_latency.Scheduler.LowLatency.Fastest.{select_path_low_latency-PicksFastest}

-- SchedulerAlgorithm: "lowRTT", "RR", "oppRedundant" or any other string.
pub data SchedulerAlgorithm : Type 0 where
  low_rtt : SchedulerAlgorithm
  rr : SchedulerAlgorithm
  opp_redundant : SchedulerAlgorithm
  other_algorithm : SchedulerAlgorithm

unfoldable pub select_path :
    SchedulerAlgorithm
    → Bool
    → Bool
    → Option QuicPath
    → Quotas
    → List QuicPath
    → Outcome (Option QuicPath × Quotas)
select_path low_rtt has_retransmission has_stream_retransmission from_pth quotas paths =
    select_path_low_latency has_retransmission has_stream_retransmission from_pth quotas paths
select_path rr has_retransmission has_stream_retransmission from_pth quotas paths =
    select_path_round_robin has_retransmission quotas paths
select_path opp_redundant has_retransmission has_stream_retransmission from_pth quotas paths =
    with_quotas (select_free_path has_retransmission paths) quotas
select_path other_algorithm has_retransmission has_stream_retransmission from_pth quotas paths =
    select_path_low_latency has_retransmission has_stream_retransmission from_pth quotas paths

-- The algorithms that selectPathLowLatency stands for.
abbrev pub minimizes_rtt : SchedulerAlgorithm → Bool
minimizes_rtt low_rtt = true
minimizes_rtt rr = false
minimizes_rtt opp_redundant = false
minimizes_rtt other_algorithm = true

module _ (has_retransmission : Bool) where
  -- A path of the list that can be used, or none when there is none.
  abbrev pub PicksUsable : List QuicPath → Option QuicPath → Type 0
  PicksUsable usable selected =
      ((selected ≡ none) × (usable ≡ [])) ⊎ ((p : QuicPath) × (selected ≡ some p) × Among p usable)

  Blocked-all_usable :
      (paths : List QuicPath)
      → Blocked has_retransmission paths
      → all_usable has_retransmission paths ≡ []
  unfolding all_usable
  Blocked-all_usable [] h = refl
  Blocked-all_usable (p ∷ paths) h = ground (arith, Blocked-all_usable paths h.1)

  Among-all_usable :
      (p : QuicPath) (paths : List QuicPath)
      → Among p paths
      → is_usable has_retransmission p ≡ true
      → Among p (all_usable has_retransmission paths)
  unfolding all_usable
  Among-all_usable p [] among usable = absurd among
  Among-all_usable p (q ∷ paths) (inl here) usable =
      rw (ap (is_usable has_retransmission) (sym here), usable) (inl here)
  Among-all_usable p (q ∷ paths) (inr there) usable =
      elim (Bool-cases (is_usable has_retransmission q)) [
        | inl e ↦ rw e (inr (Among-all_usable p paths there usable))
        | inr e ↦ rw e (Among-all_usable p paths there usable)
      ]

  first_usable-PicksUsable :
      (paths : List QuicPath)
      → PicksUsable (all_usable has_retransmission paths) (first_usable has_retransmission paths)
  unfolding first_usable all_usable
  first_usable-PicksUsable [] = inl (refl, refl)
  first_usable-PicksUsable (p ∷ paths) = elim (Bool-cases (is_usable has_retransmission p)) [
    | inl e ↦ rw e (inr (p, refl, inl refl))
    | inr e ↦ rw e (first_usable-PicksUsable paths)
  ]

  module _ (quotas : Quotas) (paths : List QuicPath) where
    picked :
        (selected : Option QuicPath)
        → ((selected ≡ none) × Blocked has_retransmission paths)
          ⊎ ((p : QuicPath) × (selected ≡ some p)
              × Among p paths
              × (is_usable has_retransmission p ≡ true))
        → PicksUsable (all_usable has_retransmission paths) selected
    picked selected (inl (e, blocked)) = inl (e, Blocked-all_usable paths blocked)
    picked selected (inr (p, e, among, usable)) = inr (p, e, Among-all_usable p paths among usable)

    module _ (many : 2 ≤ length paths) where
      -- What the selection of one path and that of all paths have to do with each other.
      abbrev pub Agrees :
          SchedulerAlgorithm → Bool → Option QuicPath → Outcome (Option QuicPath × Quotas) → Type 0
      Agrees algorithm has_stream_retransmission from_pth outcome =
          (selected : Option QuicPath) × (quotas' : Quotas) × (usable : List QuicPath) × (outcome
            ≡ returned (selected, quotas'))
          × (select_redundant_paths has_retransmission paths ≡ returned (map some usable))
          × (PicksUsable usable selected
              ⊎ ((p : QuicPath) × (selected ≡ some p)
                  × (minimizes_rtt algorithm ≡ true)
                  × IsMoved has_retransmission has_stream_retransmission from_pth quotas paths p))

      redundant :
          select_redundant_paths has_retransmission paths
          ≡ returned (map some (all_usable has_retransmission paths))
      unfolding select_redundant_paths
      redundant = rw (several (length paths) many) refl

      round_robin-Agrees :
          (has_stream_retransmission : Bool) (from_pth : Option QuicPath)
          → All (λ q. quota_of quotas q.path_id < 2 ^ 64 - 1) paths
          → Agrees rr has_stream_retransmission from_pth
              (select_path_round_robin has_retransmission quotas paths)
      round_robin-Agrees has_stream_retransmission from_pth small =
          let (selected, quotas', e, _, picks) =
            select_path_round_robin-PicksLeast has_retransmission quotas paths many small in
          (
            selected,
            quotas',
            all_usable has_retransmission paths,
            e,
            redundant,
            inl (
                picked selected (elim picks [
                  | inl blocked ↦ inl blocked
                  | inr (p, e, among, usable, _) ↦ inr (p, e, among, usable)
                ])),
          )

      module _ (algorithm : SchedulerAlgorithm) (lowest : minimizes_rtt algorithm ≡ true)
          (has_stream_retransmission : Bool) (from_pth : Option QuicPath) where
        abbrev low_latency : Outcome (Option QuicPath × Quotas)
        low_latency =
            select_path_low_latency has_retransmission has_stream_retransmission from_pth quotas
              paths

        stays-Agrees :
            other_path has_retransmission has_stream_retransmission from_pth quotas paths
              ≡ returned none
            → Agrees algorithm has_stream_retransmission from_pth low_latency
        stays-Agrees other =
            let (selected, quotas', e, _, picks) =
              select_path_low_latency-PicksFastest has_retransmission quotas
                has_stream_retransmission from_pth paths many other in
            (
              selected,
              quotas',
              all_usable has_retransmission paths,
              e,
              redundant,
              inl (
                  picked selected (elim picks [
                    | inl blocked ↦ inl blocked
                    | inr (p, e, among, usable, _, _) ↦ inr (p, e, among, usable)
                  ])),
            )

        moves-Agrees :
            (p : QuicPath)
            → other_path has_retransmission has_stream_retransmission from_pth quotas paths
              ≡ returned (some p)
            → IsMoved has_retransmission has_stream_retransmission from_pth quotas paths p
            → Agrees algorithm has_stream_retransmission from_pth low_latency
        unfolding select_path_low_latency or_fastest
        moves-Agrees p other moved = (
          some p,
          quotas,
          all_usable has_retransmission paths,
          rw (several (length paths) many, other) refl,
          redundant,
          inr (p, refl, lowest, moved),
        )

        low_latency-Agrees :
            other_path has_retransmission has_stream_retransmission from_pth quotas paths ≢ panicked
            → Agrees algorithm has_stream_retransmission from_pth low_latency
        low_latency-Agrees safe =
            elim (other_path-IsMoved quotas has_retransmission has_stream_retransmission paths
              from_pth) [
                | inl panics ↦ absurd (safe panics)
                | inr (inl stays) ↦ stays-Agrees stays
                | inr (inr (p, e, moved)) ↦ moves-Agrees p e moved
              ]

      -- With two paths or more and quotas below their largest value, and unless the path that frames
      -- are retransmitted from is missing, selectPath returns, whatever the algorithm, a path that
      -- selectRedundantPaths returns, or none if that returns no path. The one exception is where
      -- the low latency scheduler retransmits frames of a stream that come from a path with no RTT
      -- sample: it may return a path other than the initial one that has had fewer packets than
      -- that path, be it usable or not.
      pub select_path_among_redundant :
          (algorithm : SchedulerAlgorithm) (has_stream_retransmission : Bool)
          (from_pth : Option QuicPath)
          → All (λ q. quota_of quotas q.path_id < 2 ^ 64 - 1) paths
          → other_path has_retransmission has_stream_retransmission from_pth quotas paths ≢ panicked
          → Agrees algorithm has_stream_retransmission from_pth (
              select_path algorithm has_retransmission has_stream_retransmission from_pth quotas
                paths)
      unfolding select_path select_free_path
      select_path_among_redundant low_rtt has_stream_retransmission from_pth small safe =
          low_latency-Agrees low_rtt refl has_stream_retransmission from_pth safe
      select_path_among_redundant rr has_stream_retransmission from_pth small safe =
          round_robin-Agrees has_stream_retransmission from_pth small
      select_path_among_redundant opp_redundant has_stream_retransmission from_pth small safe = (
        first_usable has_retransmission paths,
        quotas,
        all_usable has_retransmission paths,
        rw (several (length paths) many) refl,
        redundant,
        inl (first_usable-PicksUsable paths),
      )
      select_path_among_redundant other_algorithm has_stream_retransmission from_pth small safe =
          low_latency-Agrees other_algorithm refl has_stream_retransmission from_pth safe
