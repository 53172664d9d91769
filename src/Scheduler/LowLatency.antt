-- ===== src/Scheduler/LowLatency.antt =====
-- scheduler.go: selectPathLowLatency. The quotas are set up when the session is, so that the map is
-- not nil here.
pub mod Fastest
pub mod Moves
use mpquic_latency.Base.{
  ℕ, ltb, leb, ◌==◌, if◌then◌else◌, Bool, true, false, not, ◌&&◌, ◌||◌, Option, none, some, is_none,
  List, [], ◌∷◌, length, Outcome, returned, panicked,
}
use mpquic_latency.Scheduler.Paths.{
  QuicPath, Quotas, quota_of, or_set, initial_path_id, is_usable, select_initial,
}
use mpquic_latency.Scheduler.RoundRobin.{with_quotas}

-- The variables of the loop.
pub record LowLatency : Type 0 where
  pub quotas : Quotas
  pub selected_path : Option QuicPath
  pub lower_rtt : ℕ
  pub selected_path_id : ℕ

abbrev pub update : QuicPath → LowLatency → LowLatency
update pth st = record st {
  lower_rtt = pth.smoothed_rtt;
  selected_path = some pth;
  selected_path_id = pth.path_id;
}

-- The body for a path with no RTT sample, with the quotas after the path's own was stored.
abbrev pub take_unprobed : QuicPath → LowLatency → LowLatency
take_unprobed pth st =
    if not (is_none st.selected_path)
      && ltb (quota_of st.quotas st.selected_path_id) (quota_of st.quotas pth.path_id)
    then st
    else update pth st

abbrev pub take_probed : QuicPath → LowLatency → LowLatency
take_probed pth st =
    if not (st.lower_rtt == 0)
      && not (is_none st.selected_path)
      && leb st.lower_rtt pth.smoothed_rtt
    then st
    else update pth st

unfoldable pub ll_step : Bool → QuicPath → LowLatency → LowLatency
ll_step has_retransmission pth st =
    if not (is_usable has_retransmission pth)
    then st
    else if not (st.lower_rtt == 0) && (pth.smoothed_rtt == 0)
    then st
    else if pth.smoothed_rtt == 0
    then take_unprobed pth
        (record st { quotas = or_set (st.quotas pth.path_id) pth.path_id st.quotas })
    else take_probed pth st

unfoldable pub ll_loop : Bool → List QuicPath → LowLatency → LowLatency
unfolding ll_step
ll_loop has_retransmission [] st = st
ll_loop has_retransmission (pth ∷ paths) st =
    ll_loop has_retransmission paths (ll_step has_retransmission pth st)

abbrev pub ll_start : Quotas → LowLatency
ll_start quotas = record {
  quotas = quotas;
  selected_path = none;
  lower_rtt = 0;
  selected_path_id = 255;
}

-- The first other path with fewer packets than the one that the retransmission comes from.
unfoldable pub less_used : ℕ → Quotas → List QuicPath → Option QuicPath
less_used from_id quotas [] = none
less_used from_id quotas (pth ∷ paths) =
    let rest = less_used from_id quotas paths in
    if (pth.path_id == initial_path_id) || (pth.path_id == from_id)
    then rest
    else if ltb (quota_of quotas pth.path_id) (quota_of quotas from_id)
    then some pth
    else rest

abbrev pub when_unprobed : Option QuicPath → Quotas → List QuicPath → Outcome (Option QuicPath)
when_unprobed none quotas paths = panicked
when_unprobed (some pth) quotas paths =
    returned (if pth.smoothed_rtt == 0 then less_used pth.path_id quotas paths else none)

-- The path that frames of a stream are retransmitted on when the path they come from was not
-- probed yet. A missing fromPth is a nil pointer that is followed.
unfoldable pub other_path :
    Bool → Bool → Option QuicPath → Quotas → List QuicPath → Outcome (Option QuicPath)
unfolding less_used
other_path has_retransmission has_stream_retransmission from_pth quotas paths =
    if has_retransmission && has_stream_retransmission
    then when_unprobed from_pth quotas paths
    else returned none

unfoldable pub or_fastest :
    Outcome (Option QuicPath) → Bool → Quotas → List QuicPath → Outcome (Option QuicPath × Quotas)
unfolding ll_loop
or_fastest panicked has_retransmission quotas paths = panicked
or_fastest (returned (some pth)) has_retransmission quotas paths = returned (some pth, quotas)
or_fastest (returned none) has_retransmission quotas paths =
    let st = ll_loop has_retransmission paths (ll_start quotas) in
    returned (st.selected_path, st.quotas)

-- The path that is selected, and the quotas afterwards.
unfoldable pub select_path_low_latency :
    Bool → Bool → Option QuicPath → Quotas → List QuicPath → Outcome (Option QuicPath × Quotas)
unfolding other_path or_fastest
select_path_low_latency has_retransmission has_stream_retransmission from_pth quotas paths =
    if leb (length paths) 1
    then with_quotas (select_initial has_retransmission paths) quotas
    else or_fastest (other_path has_retransmission has_stream_retransmission from_pth quotas paths)
        has_retransmission quotas paths
