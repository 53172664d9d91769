-- ===== src/Scheduler/LowLatency/Moves.antt =====
-- scheduler.go: when selectPathLowLatency moves the retransmission of a stream's frames to another
-- path, and to which one.
use mpquic_latency.Base.{
  ℕ, ltb, ◌==◌, ==_iff, ◌<◌, ◌≡◌, ◌≢◌, refl, sym, Bool, true, ◌||◌, Bool-cases, Option-cases,
  Option, none, some, List, [], ◌∷◌, Outcome, returned, panicked, ◌⊎◌, inl, inr, arith,
}
use mathlib.Core.Path.{subst}
use mpquic_latency.Scheduler.Paths.{QuicPath, Quotas, quota_of, initial_path_id, Among}
use mpquic_latency.Scheduler.LowLatency.{less_used, other_path}

-- A path other than the initial one that has had fewer packets than the given one.
abbrev pub IsLessUsed : ℕ → Quotas → List QuicPath → QuicPath → Type 0
IsLessUsed from_id quotas paths p =
    Among p paths
    × (p.path_id ≢ initial_path_id)
    × (quota_of quotas p.path_id < quota_of quotas from_id)

-- Frames of a stream are retransmitted, the path that they come from has no RTT sample, and this is
-- a path that has had fewer packets.
abbrev pub IsMoved : Bool → Bool → Option QuicPath → Quotas → List QuicPath → QuicPath → Type 0
IsMoved has_retransmission has_stream_retransmission from_pth quotas paths p =
    (has_retransmission ≡ true)
    × (has_stream_retransmission ≡ true)
    × ((from : QuicPath) × (from_pth ≡ some from)
        × (from.smoothed_rtt ≡ 0)
        × IsLessUsed from.path_id quotas paths p)

module _ (quotas : Quotas) where
  less_used-IsLessUsed :
      (from_id : ℕ) (paths : List QuicPath) (p : QuicPath)
      → less_used from_id quotas paths ≡ some p
      → IsLessUsed from_id quotas paths p
  unfolding less_used
  less_used-IsLessUsed from_id [] p e = ground arith
  less_used-IsLessUsed from_id (q ∷ paths) p e =
      elim (Bool-cases ((q.path_id == initial_path_id) || (q.path_id == from_id))) [
        | inl skipped ↦
            let (among, other, fewer) = less_used-IsLessUsed from_id paths p (ground arith) in
            (inr among, other, fewer)
        | inr kept ↦ elim (Bool-cases (ltb (quota_of quotas q.path_id) (quota_of quotas from_id))) [
          | inl fewer ↦
              let here : p ≡ q = ground arith in
              (
                inl here,
                rw here (λ z. ground (arith, ==_iff q.path_id initial_path_id)),
                rw here (ground arith),
              )
          | inr more ↦
              let (among, other, fewer) = less_used-IsLessUsed from_id paths p (ground arith) in
              (inr among, other, fewer)
        ]
      ]

  module _ (has_retransmission has_stream_retransmission : Bool) (paths : List QuicPath) where
    abbrev other : Option QuicPath → Outcome (Option QuicPath)
    other from_pth = other_path has_retransmission has_stream_retransmission from_pth quotas paths

    abbrev Answers : Option QuicPath → Type 0
    Answers from_pth =
        (other from_pth ≡ panicked)
        ⊎ (other from_pth ≡ returned none)
        ⊎ ((p : QuicPath) × (other from_pth ≡ returned (some p))
            × IsMoved has_retransmission has_stream_retransmission from_pth quotas paths p)

    moving :
        (from : QuicPath)
        → has_retransmission ≡ true
        → has_stream_retransmission ≡ true
        → from.smoothed_rtt ≡ 0
        → Answers (some from)
    unfolding other_path
    moving from x y z = elim (Option-cases (less_used from.path_id quotas paths)) [
      | inl e ↦ inr (inl (rw (x, y, z, e) refl))
      | inr (p, e) ↦ inr (
          inr (
            p,
            rw (x, y, z, e) refl,
            (x, y, (from, refl, z, less_used-IsLessUsed from.path_id paths p e)),
          ))
    ]

    -- A nil pointer is followed, the path stays, or it is another one.
    pub other_path-IsMoved : (from_pth : Option QuicPath) → Answers from_pth
    unfolding other_path
    other_path-IsMoved from_pth = elim (Bool-cases has_retransmission) [
      | inr x ↦ inr (inl (rw x refl))
      | inl sends ↦ elim (Bool-cases has_stream_retransmission) [
        | inr x ↦ inr (inl (rw (sends, x) refl))
        | inl stream ↦ elim (Option-cases from_pth) [
          | inl e ↦ inl (rw (sends, stream, e) refl)
          | inr (from, e) ↦ elim (Bool-cases (from.smoothed_rtt == 0)) [
            | inl unprobed ↦
                subst Answers (sym e)
                  (moving from sends stream ((==_iff from.smoothed_rtt 0).0 unprobed))
            | inr probed ↦ inr (inl (rw (sends, stream, e, probed) refl))
          ]
        ]
      ]
    ]
