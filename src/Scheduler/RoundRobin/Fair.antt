-- ===== src/Scheduler/RoundRobin/Fair.antt =====
-- Sending round robin serves every path that stays usable. A send of sendPacket's loop is a
-- selection and, when performPacketSending sent something, one more on the quota of the selected
-- path.
use mpquic_latency.Base.{
  ℕ, suc, ◌+◌, ◌-◌, ◌*◌, ◌^◌, ◌≤◌, ◌<◌, ◌≡◌, sym, ap, ◌∙◌, Bool, true, Bool-cases, ltb, Option,
  none, some, List, [], ◌∷◌, length, All, Outcome, returned, panicked, ◌⊎◌, inl, inr, arith,
}
use mathlib.Core.Path.{subst}
use mpquic_latency.Scheduler.Paths.{QuicPath, Quotas, quota_of, is_usable, Among}
use mpquic_latency.Scheduler.RoundRobin.{select_path_round_robin, count_packet}
use mpquic_latency.Scheduler.RoundRobin.Least.{PicksLeast, select_path_round_robin-PicksLeast}
use mpquic_latency.Scheduler.RoundRobin.Served.{
  In, All_at, missing, missing_le, nothing_missing, Served, Served-count_packet,
  Served_missing_less, same_missing,
}

-- What a selection finds: two paths or more, of which those that can be used have ids among the
-- given ones, and the one that the theorem follows can be used. All else may differ from one selection to the next: what the
-- paths answer, which other paths there are, and the order of the map.
pub record Situation (ids : List ℕ) (id : ℕ) : Type 0 where
  pub has_retransmission : Bool
  pub paths : List QuicPath
  pub many : 2 ≤ length paths
  pub known : All (λ q. is_usable has_retransmission q ≡ true → In q.path_id ids) paths
  pub pth : QuicPath
  pub present : Among pth paths
  pub same_id : pth.path_id ≡ id
  pub usable : is_usable has_retransmission pth ≡ true

-- n packets that were sent, and what was selected and not sent between them.
pub data Sends (ids : List ℕ) (id : ℕ) (before : Quotas) : ℕ → Quotas → Type 0 where
  start : Sends ids id before 0 before
  sent :
      {n : ℕ} {quotas between : Quotas} {p : QuicPath} (s : Situation ids id)
      → Sends ids id before n quotas
      → select_path_round_robin s.has_retransmission quotas s.paths ≡ returned (some p, between)
      → Sends ids id before (suc n) (count_packet p between)
  not_sent :
      {n : ℕ} {quotas between : Quotas} {p : QuicPath} (s : Situation ids id)
      → Sends ids id before n quotas
      → select_path_round_robin s.has_retransmission quotas s.paths ≡ returned (some p, between)
      → Sends ids id before n between

abbrev quotas_in : Quotas → Outcome (Option QuicPath × Quotas) → Quotas
quotas_in other panicked = other
quotas_in other (returned (o, quotas)) = quotas

abbrev path_in : Outcome (Option QuicPath × Quotas) → Option QuicPath
path_in panicked = none
path_in (returned (o, quotas)) = o

abbrev or_path : QuicPath → Option QuicPath → QuicPath
or_path p none = p
or_path p (some q) = q

module _ (ids : List ℕ) (id : ℕ) where
  -- The path that is selected has had no more packets than the one that can be used.
  abbrev IsLow : Quotas → QuicPath → Quotas → Type 0
  IsLow quotas p between =
      In p.path_id ids
      × (quota_of quotas p.path_id ≤ quota_of quotas id)
      × ((j : ℕ) → quota_of between j ≡ quota_of quotas j)

  small_paths :
      (quotas : Quotas) (paths : List QuicPath)
      → ((j : ℕ) → quota_of quotas j < 2 ^ 64 - 1)
      → All (λ q. quota_of quotas q.path_id < 2 ^ 64 - 1) paths
  small_paths quotas [] small = tt
  small_paths quotas (q ∷ paths) small = (small q.path_id, small_paths quotas paths small)

  least-IsLow :
      (s : Situation ids id) (quotas : Quotas) (p : QuicPath)
      → PicksLeast s.has_retransmission quotas s.paths (some p)
      → In p.path_id ids × (quota_of quotas p.path_id ≤ quota_of quotas id)
  least-IsLow s quotas p (inl (e, blocked)) = ground arith
  least-IsLow s quotas p (inr (q, e, among, usable, least)) = (
    subst (λ (x : QuicPath). In x.path_id ids) (sym same)
        (All_at (λ x. is_usable s.has_retransmission x ≡ true → In x.path_id ids) q s.paths among
          s.known usable),
    omega (
      arith,
      ap (λ (x : QuicPath). quota_of quotas x.path_id) same,
      ap (quota_of quotas) s.same_id,
      All_at
          (λ x.
            is_usable s.has_retransmission x ≡ true
            → quota_of quotas q.path_id ≤ quota_of quotas x.path_id)
          s.pth s.paths s.present least s.usable,
    ),
  )
    where
      same : p ≡ q
      same = ap (or_path p) e

  selected-IsLow :
      (s : Situation ids id) (quotas between : Quotas) (p : QuicPath)
      → ((j : ℕ) → quota_of quotas j < 2 ^ 64 - 1)
      → select_path_round_robin s.has_retransmission quotas s.paths ≡ returned (some p, between)
      → IsLow quotas p between
  selected-IsLow s quotas between p small e =
      let (selected, quotas', e', same, picks) =
        select_path_round_robin-PicksLeast s.has_retransmission quotas s.paths s.many
          (small_paths quotas s.paths small) in
      let low =
        least-IsLow s quotas p (
          subst (PicksLeast s.has_retransmission quotas s.paths) (ap path_in (sym e' ∙ e)) picks) in
      (
        low.0,
        low.1,
        subst (λ (b : Quotas). (j : ℕ) → quota_of b j ≡ quota_of quotas j)
            (ap (quotas_in quotas) (sym e' ∙ e)) same,
      )

  -- No quota falls, none grows by more than the packets sent, and until the path has had t packets
  -- each of them takes one off what the paths lack.
  record Progress (t n : ℕ) (before quotas : Quotas) : Type 0 where
    grown :
        (j : ℕ)
        → (quota_of before j ≤ quota_of quotas j) × (quota_of quotas j ≤ quota_of before j + n)
    nearer : (t ≤ quota_of quotas id) ⊎ (missing t quotas ids + n ≤ missing t before ids)

  -- No quota reaches the largest value in n packets more.
  abbrev pub Room : ℕ → Quotas → Type 0
  Room n quotas = (j : ℕ) → quota_of quotas j + n < 2 ^ 64 - 1

  module _ (t : ℕ) (before : Quotas) where
    small_yet :
        (n most : ℕ) (quotas : Quotas)
        → n ≤ most
        → ((j : ℕ) → quota_of quotas j ≤ quota_of before j + n)
        → Room most before
        → (j : ℕ) → quota_of quotas j < 2 ^ 64 - 1
    small_yet n most quotas few grown room j = omega (arith, grown j, room j)

    not_sent-Progress :
        (n : ℕ) (quotas between : Quotas)
        → Progress t n before quotas
        → ((j : ℕ) → quota_of between j ≡ quota_of quotas j)
        → Progress t n before between
    not_sent-Progress n quotas between w same = record {
      grown = λ j. omega (arith, w.grown j, same j);
      nearer = elim w.nearer [
        | inl reached ↦ inl (omega (arith, same id))
        | inr near ↦ inr (omega (arith, near, same_missing t quotas between same ids))
      ];
    }

    abbrev Nearer : ℕ → Quotas → Type 0
    Nearer n quotas = (t ≤ quota_of quotas id) ⊎ (missing t quotas ids + n ≤ missing t before ids)

    one_sent :
        (n : ℕ) (quotas after : Quotas) (p_id : ℕ)
        → Served p_id quotas after
        → In p_id ids
        → quota_of quotas p_id ≤ quota_of quotas id
        → Nearer n quotas
        → Nearer (suc n) after
    one_sent n quotas after p_id served known low (inl reached) = inl (ground (arith, served id))
    one_sent n quotas after p_id served known low (inr near) =
        elim (Bool-cases (ltb (quota_of quotas id) t)) [
          | inl short ↦ inr (
              omega (
                arith,
                near,
                Served_missing_less t p_id quotas after served ids known (ground arith),
              ))
          | inr reached ↦ inl (ground (arith, served id))
        ]

    sent-Progress :
        (n : ℕ) (quotas between : Quotas) (p : QuicPath)
        → Progress t n before quotas
        → quota_of quotas p.path_id < 2 ^ 64 - 1
        → IsLow quotas p between
        → Progress t (suc n) before (count_packet p between)
    sent-Progress n quotas between p w small (known, low, same) =
        let served = Served-count_packet p quotas between (omega arith) same in
        record {
          grown = λ j. ground (arith, w.grown j, served j);
          nearer = one_sent n quotas (count_packet p between) p.path_id served known low w.nearer;
        }

    Sends-Progress :
        {n : ℕ} {quotas : Quotas} (most : ℕ)
        → Sends ids id before n quotas
        → n ≤ most
        → Room most before
        → Progress t n before quotas
    Sends-Progress most start few room = record {
      grown = λ j. (omega arith, omega arith);
      nearer = inr (omega arith);
    }
    Sends-Progress most (not_sent {n} {quotas} {between} {p} s sends e) few room =
        let w = Sends-Progress most sends few room in
        let small = small_yet n most quotas few (λ j. (w.grown j).1) room in
        not_sent-Progress n quotas between w (selected-IsLow s quotas between p small e).2
    Sends-Progress most (sent {n} {quotas} {between} {p} s sends e) few room =
        let w = Sends-Progress most sends (omega arith) room in
        let small = small_yet n most quotas (omega arith) (λ j. (w.grown j).1) room in
        let low = selected-IsLow s quotas between p small e in
        sent-Progress n quotas between p w (small p.path_id) low

  -- Of m times as many packets as there are ids, sent round robin, a path that could be used at every
  -- selection has had as many as bring it m above the fewest of any of these ids before. At each
  -- selection there are two paths or more, and those that can be used have one of the ids; what the
  -- other paths answer, which there are and the order of the map may change from one to the next,
  -- selections for which nothing is sent come between, and no quota can reach its largest value.
  pub sends_serve :
      (m lo : ℕ) {before after : Quotas}
      → Sends ids id before (length ids * m) after
      → In id ids
      → All (λ j. lo ≤ quota_of before j) ids
      → Room (length ids * m) before
      → lo + m ≤ quota_of after id
  sends_serve m lo {before} {after} sends known fewest room =
      let w = Sends-Progress (lo + m) before (length ids * m) sends (omega arith) room in
      elim w.nearer [
        | inl reached ↦ reached
        | inr near ↦
            nothing_missing (lo + m) id after ids known
              (omega (arith, near, missing_le lo m before ids fewest))
      ]
