-- ===== src/Scheduler/RoundRobin.antt =====
-- scheduler.go: selectPathRoundRobin. The quotas are set up when the session is, so that the map is
-- not nil here.
pub mod Least
pub mod Served
pub mod Fair
use mpquic_latency.Base.{
  ℕ, ◌+◌, ◌-◌, ◌^◌, ltb, leb, if◌then◌else◌, u64, Bool, Option, none, some, List, [], ◌∷◌, length,
  Outcome, returned, panicked,
}
use mpquic_latency.Scheduler.Paths.{
  QuicPath, Quotas, quota_of, or_set, put, is_usable, select_initial,
}

-- The variables of the loop.
pub record RoundRobin : Type 0 where
  pub quotas : Quotas
  pub selected_path : Option QuicPath
  pub lower_quota : ℕ

-- The end of the loop's body, with the quota of the path.
abbrev pub take_lower : QuicPath → ℕ → RoundRobin → RoundRobin
take_lower pth current_quota st =
    if ltb current_quota st.lower_quota
    then record st { selected_path = some pth; lower_quota = current_quota }
    else st

unfoldable pub rr_step : Bool → QuicPath → RoundRobin → RoundRobin
rr_step has_retransmission pth st =
    if is_usable has_retransmission pth
    then take_lower pth (quota_of st.quotas pth.path_id)
        (record st { quotas = or_set (st.quotas pth.path_id) pth.path_id st.quotas })
    else st

unfoldable pub rr_loop : Bool → List QuicPath → RoundRobin → RoundRobin
unfolding rr_step
rr_loop has_retransmission [] st = st
rr_loop has_retransmission (pth ∷ paths) st =
    rr_loop has_retransmission paths (rr_step has_retransmission pth st)

-- lowerQuota starts as ^uint(0).
abbrev pub rr_start : Quotas → RoundRobin
rr_start quotas = record { quotas = quotas; selected_path = none; lower_quota = 2 ^ 64 - 1 }

abbrev pub with_quotas : Outcome (Option QuicPath) → Quotas → Outcome (Option QuicPath × Quotas)
with_quotas panicked quotas = panicked
with_quotas (returned o) quotas = returned (o, quotas)

-- The path that is selected, and the quotas afterwards.
unfoldable pub select_path_round_robin :
    Bool → Quotas → List QuicPath → Outcome (Option QuicPath × Quotas)
unfolding rr_loop
select_path_round_robin has_retransmission quotas paths =
    if leb (length paths) 1
    then with_quotas (select_initial has_retransmission paths) quotas
    else let st = rr_loop has_retransmission paths (rr_start quotas) in
      returned (st.selected_path, st.quotas)

-- `sch.quotas[pth.pathID]++` of performPacketSending.
abbrev pub count_packet : QuicPath → Quotas → Quotas
count_packet pth quotas = put pth.path_id (u64 (quota_of quotas pth.path_id + 1)) quotas
