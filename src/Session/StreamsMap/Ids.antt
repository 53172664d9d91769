-- ===== src/Session/StreamsMap/Ids.antt =====
-- The ids of the open streams: no two are the same, and the counters count those of each parity.
use mpquic_latency.Base.{
  ℕ, suc, ◌%◌, ◌==◌, ==_iff, if◌then◌else◌, ◌≡◌, refl, ap, Bool, true, false, ◌||◌, Bool-cases,
  none, some, List, [], ◌∷◌, ◌++◌, any, All, inl, inr, arith,
}
use mathlib.Core.Path.{subst}
use mpquic_latency.Session.StreamsMap.Removal.{remove_id}
use mpquic_latency.Session.StreamsMap.{find_stream, delete_stream}

abbrev pub has : ℕ → List ℕ → Bool
has id ids = any (λ j. j == id) ids

abbrev pub Distinct : List ℕ → Type 0
Distinct [] = Unit
Distinct (id ∷ ids) = (has id ids ≡ false) × Distinct ids

-- How many ids leave this remainder.
unfoldable pub count_parity : ℕ → List ℕ → ℕ
count_parity d [] = 0
count_parity d (id ∷ ids) = let n = count_parity d ids in if id % 2 == d then suc n else n

module _ (id : ℕ) where
  pub All-snoc : (P : ℕ → Type 0) (ids : List ℕ) → All P ids → P id → All P (ids ++ (id ∷ []))
  All-snoc P [] h p = (p, tt)
  All-snoc P (j ∷ ids) h p = (h.0, All-snoc P ids h.1 p)

  has-snoc : (j : ℕ) (ids : List ℕ) → has j (ids ++ (id ∷ [])) ≡ (has j ids || (id == j))
  has-snoc j [] = ground arith
  has-snoc j (i ∷ ids) = ground (arith, has-snoc j ids)

  pub Distinct-snoc :
      (ids : List ℕ) → Distinct ids → has id ids ≡ false → Distinct (ids ++ (id ∷ []))
  Distinct-snoc [] d h = (refl, tt)
  Distinct-snoc (j ∷ ids) d h = (
    ground (arith, has-snoc j ids, ==_iff id j, ==_iff j id),
    Distinct-snoc ids d.1 (ground arith),
  )

  pub count_parity-snoc :
      (d : ℕ) (ids : List ℕ)
      → count_parity d (ids ++ (id ∷ []))
        ≡ (if id % 2 == d then suc (count_parity d ids) else count_parity d ids)
  unfolding count_parity
  count_parity-snoc d [] = refl
  count_parity-snoc d (j ∷ ids) = ground (arith, count_parity-snoc d ids)

  pub absent : (P : ℕ → Type 0) (ids : List ℕ) → All P ids → (P id → ⊥) → has id ids ≡ false
  absent P [] h n = refl
  absent P (j ∷ ids) h n = elim (Bool-cases (j == id)) [
    | inl e ↦ absurd (n (subst P ((==_iff j id).0 e) h.0))
    | inr e ↦ ground (arith, absent P ids h.1 n)
  ]

  pub All-remove_id : (P : ℕ → Type 0) (ids : List ℕ) → All P ids → All P (remove_id id ids)
  unfolding remove_id
  All-remove_id P [] h = tt
  All-remove_id P (j ∷ ids) h = elim (Bool-cases (j == id)) [
    | inl e ↦ rw e h.1
    | inr e ↦ rw e (h.0, All-remove_id P ids h.1)
  ]

  has-remove_id : (j : ℕ) (ids : List ℕ) → has j ids ≡ false → has j (remove_id id ids) ≡ false
  unfolding remove_id
  has-remove_id j [] h = refl
  has-remove_id j (i ∷ ids) h = ground (arith, has-remove_id j ids)

  pub Distinct-remove_id : (ids : List ℕ) → Distinct ids → Distinct (remove_id id ids)
  unfolding remove_id
  Distinct-remove_id [] d = tt
  Distinct-remove_id (j ∷ ids) d = elim (Bool-cases (j == id)) [
    | inl e ↦ rw e d.1
    | inr e ↦ rw e (has-remove_id j ids d.0, Distinct-remove_id ids d.1)
  ]

  pub count_parity-remove_id :
      (d : ℕ) (ids : List ℕ)
      → has id ids ≡ true
      → count_parity d ids ≡ (
          if id % 2 == d
          then suc (count_parity d (remove_id id ids))
          else count_parity d (remove_id id ids))
  unfolding count_parity remove_id
  count_parity-remove_id d [] h = absurd cc
  count_parity-remove_id d (j ∷ ids) h = ground (arith, count_parity-remove_id d ids, ==_iff j id)

abbrev pub keys : {S : Type 0} → List (ℕ × S) → List ℕ
keys [] = []
keys ((id, _) ∷ streams) = id ∷ keys streams

module _ {S : Type 0} (id : ℕ) where
  pub keys-snoc :
      (s : S) (streams : List (ℕ × S))
      → keys (streams ++ ((id, s) ∷ [])) ≡ keys streams ++ (id ∷ [])
  keys-snoc s [] = refl
  keys-snoc s ((j, t) ∷ streams) = ap (λ ids. j ∷ ids) (keys-snoc s streams)

  pub find_stream_absent :
      (streams : List (ℕ × S)) → has id (keys streams) ≡ false → find_stream id streams ≡ none
  unfolding find_stream
  find_stream_absent [] h = refl
  find_stream_absent ((j, t) ∷ streams) h = ground (arith, find_stream_absent streams)

  pub find_stream_there :
      (s : S) (streams : List (ℕ × S))
      → find_stream id streams ≡ some s
      → has id (keys streams) ≡ true
  unfolding find_stream
  find_stream_there s [] h = absurd cc
  find_stream_there s ((j, t) ∷ streams) h = ground (arith, find_stream_there s streams)

  delete_absent :
      (streams : List (ℕ × S)) → has id (keys streams) ≡ false → delete_stream id streams ≡ streams
  unfolding delete_stream
  delete_absent [] h = refl
  delete_absent ((j, t) ∷ streams) h = ground (arith, delete_absent streams)

  pub keys-delete_stream :
      (streams : List (ℕ × S))
      → Distinct (keys streams)
      → keys (delete_stream id streams) ≡ remove_id id (keys streams)
  unfolding delete_stream remove_id
  keys-delete_stream [] d = refl
  keys-delete_stream ((j, t) ∷ streams) d = elim (Bool-cases (j == id)) [
    | inl e ↦ rw e (
        ap keys (
          delete_absent streams
            (subst (λ k. has k (keys streams) ≡ false) ((==_iff j id).0 e) d.0)))
    | inr e ↦ rw e (ap (λ ids. j ∷ ids) (keys-delete_stream streams d.1))
  ]
