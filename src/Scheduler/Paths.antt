-- ===== src/Scheduler/Paths.antt =====
-- scheduler.go: the paths as the scheduler sees them, its quotas, and the selection of any free
-- path and of all of them.
use mpquic_latency.Base.{
  ℕ, leb, ◌==◌, ==_iff, if◌then◌else◌, ◌≡◌, refl, Bool, true, false, not, ◌&&◌, Bool-cases,
  Option-cases, map, Option, none, some, List, [], ◌∷◌, length, All, Outcome, returned, panicked,
  ◌⊎◌, inl, inr,
}

-- What a path answers when it is asked: SendingAllowed(), potentiallyFailed.Get() and
-- rttStats.SmoothedRTT(), a duration that is 0 as long as there was no sample.
pub record QuicPath : Type 0 where
  pub path_id : ℕ
  pub sending_allowed : Bool
  pub potentially_failed : Bool
  pub smoothed_rtt : ℕ

-- protocol.InitialPathID.
abbrev pub initial_path_id : ℕ
initial_path_id = 0

-- The map of the packets sent on each path. A missing key reads as 0.
abbrev pub Quotas : Type 0
Quotas = ℕ → Option ℕ

abbrev pub or_zero : Option ℕ → ℕ
or_zero none = 0
or_zero (some n) = n

abbrev pub quota_of : Quotas → ℕ → ℕ
quota_of quotas id = or_zero (quotas id)

abbrev pub put : ℕ → ℕ → Quotas → Quotas
put id n quotas j = if j == id then some n else quotas j

-- `if !ok { sch.quotas[pathID] = 0 }`.
abbrev pub or_set : Option ℕ → ℕ → Quotas → Quotas
or_set none id quotas = put id 0 quotas
or_set (some _) id quotas = quotas

-- Not skipped by one of the three conditions at the top of each loop.
unfoldable pub is_usable : Bool → QuicPath → Bool
is_usable has_retransmission pth =
    if not has_retransmission && not pth.sending_allowed
    then false
    else if pth.potentially_failed
    then false
    else not (pth.path_id == initial_path_id)

abbrev pub path_at : ℕ → List QuicPath → Option QuicPath
path_at id [] = none
path_at id (pth ∷ paths) = if pth.path_id == id then some pth else path_at id paths

abbrev pub initial_if_allowed : Bool → Option QuicPath → Outcome (Option QuicPath)
initial_if_allowed true found = returned found
initial_if_allowed false none = panicked
initial_if_allowed false (some pth) = returned (if pth.sending_allowed then some pth else none)

-- The case of at most one path. When nothing is retransmitted, a missing initial path is a nil
-- pointer that is followed.
unfoldable pub select_initial : Bool → List QuicPath → Outcome (Option QuicPath)
select_initial has_retransmission paths =
    initial_if_allowed has_retransmission (path_at initial_path_id paths)

unfoldable pub first_usable : Bool → List QuicPath → Option QuicPath
first_usable has_retransmission [] = none
first_usable has_retransmission (pth ∷ paths) =
    if is_usable has_retransmission pth then some pth else first_usable has_retransmission paths

unfoldable pub select_free_path : Bool → List QuicPath → Outcome (Option QuicPath)
unfolding first_usable select_initial
select_free_path has_retransmission paths =
    if leb (length paths) 1
    then select_initial has_retransmission paths
    else returned (first_usable has_retransmission paths)

unfoldable pub all_usable : Bool → List QuicPath → List QuicPath
all_usable has_retransmission [] = []
all_usable has_retransmission (pth ∷ paths) =
    let rest = all_usable has_retransmission paths in
    if is_usable has_retransmission pth then pth ∷ rest else rest

-- With at most one path a missing initial path that is retransmitted on would be a nil pointer in
-- the result.
abbrev pub as_list : Outcome (Option QuicPath) → Bool → Outcome (List (Option QuicPath))
as_list panicked has_retransmission = panicked
as_list (returned (some pth)) has_retransmission = returned (some pth ∷ [])
as_list (returned none) has_retransmission = returned (if has_retransmission then none ∷ [] else [])

unfoldable pub select_redundant_paths : Bool → List QuicPath → Outcome (List (Option QuicPath))
unfolding all_usable select_initial
select_redundant_paths has_retransmission paths =
    if leb (length paths) 1
    then as_list (select_initial has_retransmission paths) has_retransmission
    else returned (map some (all_usable has_retransmission paths))

-- The path stands in the list.
abbrev pub Among : QuicPath → List QuicPath → Type 0
Among p [] = ⊥
Among p (q ∷ paths) = (p ≡ q) ⊎ Among p paths

-- No path of the list can be used.
abbrev pub Blocked : Bool → List QuicPath → Type 0
Blocked has_retransmission paths = All (λ p. is_usable has_retransmission p ≡ false) paths

module _ (quotas : Quotas) (id j : ℕ) where
  quota_of-put : quotas id ≡ none → quota_of (put id 0 quotas) j ≡ quota_of quotas j
  quota_of-put e = elim (Bool-cases (j == id)) [
    | inl t ↦ rw (t, (==_iff j id).0 t, e) refl
    | inr f ↦ rw f refl
  ]

  -- Storing the 0 that a missing key reads as changes no quota.
  pub quota_of-or_set : quota_of (or_set (quotas id) id quotas) j ≡ quota_of quotas j
  quota_of-or_set = elim (Option-cases (quotas id)) [
    | inl e ↦ rw e (quota_of-put e)
    | inr (n, e) ↦ rw e refl
  ]
