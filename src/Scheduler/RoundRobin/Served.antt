-- ===== src/Scheduler/RoundRobin/Served.antt =====
-- What one packet more on a path does to the quotas, and to how many packets the paths lack.
use mpquic_latency.Base.{
  ℕ, ◌+◌, ◌-◌, ◌*◌, ◌^◌, ◌≤◌, ◌<◌, ◌==◌, ==_iff, if◌then◌else◌, ◌≡◌, refl, sym, ap, List, [], ◌∷◌,
  length, All, ◌⊎◌, inl, inr, arith,
}
use Prim.Native.Nat.mul
use mathlib.Core.Path.{subst}
use mpquic_latency.Scheduler.Paths.{QuicPath, Quotas, quota_of, Among}
use mpquic_latency.Scheduler.RoundRobin.{count_packet}

-- One of the ids.
abbrev pub In : ℕ → List ℕ → Type 0
In id [] = ⊥
In id (j ∷ ids) = (id ≡ j) ⊎ In id ids

pub All_at :
    (P : QuicPath → Type 0) (p : QuicPath) (paths : List QuicPath)
    → Among p paths
    → All P paths
    → P p
All_at P p [] among h = absurd among
All_at P p (q ∷ paths) (inl here) h = subst P (sym here) h.0
All_at P p (q ∷ paths) (inr there) h = All_at P p paths there h.1

-- How many packets the paths with these ids lack to have had t each.
unfoldable pub missing : ℕ → Quotas → List ℕ → ℕ
missing t quotas [] = 0
missing t quotas (id ∷ ids) = (t - quota_of quotas id) + missing t quotas ids

-- One packet more on the path with this id.
abbrev pub Served : ℕ → Quotas → Quotas → Type 0
Served id quotas after =
    (j : ℕ) → quota_of after j ≡ (if j == id then quota_of quotas j + 1 else quota_of quotas j)

pub Served-count_packet :
    (p : QuicPath) (quotas between : Quotas)
    → quota_of quotas p.path_id + 1 < 2 ^ 64
    → ((j : ℕ) → quota_of between j ≡ quota_of quotas j)
    → Served p.path_id quotas (count_packet p between)
Served-count_packet p quotas between small same j =
    ground (arith, same j, same p.path_id, ==_iff j p.path_id)

pub same_missing :
    (t : ℕ) (quotas after : Quotas)
    → ((j : ℕ) → quota_of after j ≡ quota_of quotas j)
    → (ids : List ℕ) → missing t after ids ≡ missing t quotas ids
unfolding missing
same_missing t quotas after same [] = refl
same_missing t quotas after same (j ∷ ids) =
    omega (arith, same j, same_missing t quotas after same ids)

pub missing_le :
    (lo m : ℕ) (quotas : Quotas) (ids : List ℕ)
    → All (λ j. lo ≤ quota_of quotas j) ids
    → missing (lo + m) quotas ids ≤ length ids * m
unfolding missing
missing_le lo m quotas [] h = omega arith
missing_le lo m quotas (j ∷ ids) h =
    let rest = missing_le lo m quotas ids h.1 in omega (arith, h.0, mul.suc (length ids) m)

pub nothing_missing :
    (t id : ℕ) (quotas : Quotas) (ids : List ℕ)
    → In id ids
    → missing t quotas ids ≡ 0
    → t ≤ quota_of quotas id
unfolding missing
nothing_missing t id quotas [] among z = absurd among
nothing_missing t id quotas (j ∷ ids) (inl here) z = omega (arith, ap (quota_of quotas) here)
nothing_missing t id quotas (j ∷ ids) (inr there) z =
    nothing_missing t id quotas ids there (omega arith)

module _ (t id : ℕ) (quotas after : Quotas) (served : Served id quotas after) where
  pub Served_missing : (ids : List ℕ) → missing t after ids ≤ missing t quotas ids
  unfolding missing
  Served_missing [] = omega arith
  Served_missing (j ∷ ids) = ground (arith, served j, Served_missing ids)

  pub Served_missing_less :
      (ids : List ℕ)
      → In id ids
      → quota_of quotas id < t
      → missing t after ids < missing t quotas ids
  unfolding missing
  Served_missing_less [] among short = absurd among
  Served_missing_less (j ∷ ids) (inl here) short = ground (
    arith,
    here,
    served id,
    ap (quota_of quotas) here,
    ap (quota_of after) here,
    ==_iff id id,
    Served_missing ids,
  )
  Served_missing_less (j ∷ ids) (inr there) short =
      ground (arith, served j, Served_missing_less ids there short)
