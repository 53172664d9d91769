-- ===== src/Session/StreamsMap/Removed.antt =====
-- Removing streams and closing the map keep it well-formed.
use mathlib.Core.Path.{subst}
use mpquic_latency.Base.{
  ℕ, ◌+◌, ◌-◌, ◌%◌, ◌^◌, ◌==◌, ==_iff, if◌then◌else◌, ◌≡◌, refl, sym, ap, ◌∙◌, true, Bool-cases,
  Option-cases, some, List, [], ◌∷◌, All, returned, inl, inr, arith,
}
use mpquic_latency.Session.StreamsMap.Removal.{
  remove_id, remove_found, remove_stream, replace_stream, cancel_streams, closed_map,
  close_with_error,
}
use mpquic_latency.Session.StreamsMap.{closed_with, StreamsMap, u32, find_stream}
use mpquic_latency.Session.StreamsMap.Ids.{
  count_parity, has, Distinct, count_parity, All-remove_id, Distinct-remove_id,
  count_parity-remove_id, keys, find_stream_there, keys-delete_stream,
}
use mpquic_latency.Session.StreamsMap.Inv.{IsOpened, IsValid}

module _ {S : Type 0} (m : StreamsMap S) (v : IsValid m) where
  remove_counts :
      (n d id : ℕ)
      → n ≡ count_parity d m.open_streams % 2 ^ 32
      → has id m.open_streams ≡ true
      → (if id % 2 == d then u32 (n + 2 ^ 32 - 1) else n)
        ≡ count_parity d (remove_id id m.open_streams) % 2 ^ 32
  remove_counts n d id e h = ground (arith, count_parity-remove_id id d m.open_streams h)

  removed-IsValid :
      (id : ℕ) (s : S) → find_stream id m.streams ≡ some s → IsValid (remove_found (some s) id m).1
  unfolding remove_found
  removed-IsValid id s e = record {
    ids =
        ap (remove_id id) v.ids
        ∙ sym (keys-delete_stream id m.streams (subst Distinct v.ids v.distinct));
    distinct = Distinct-remove_id id m.open_streams v.distinct;
    opened =
        All-remove_id id (IsOpened m.perspective m.next_stream m.highest_stream_opened_by_peer)
          m.open_streams v.opened;
    outgoing = remove_counts m.num_outgoing_streams 0 id v.outgoing there;
    incoming = ground (arith, remove_counts m.num_incoming_streams 1 id v.incoming there);
    next_parity = v.next_parity;
    highest_parity = v.highest_parity;
  }
    where
      there : has id m.open_streams ≡ true
      there = subst (λ ids. has id ids ≡ true) (sym v.ids) (find_stream_there id s m.streams e)

  pub remove_stream-IsValid :
      (id : ℕ)
      → IsValid (remove_stream id m).1 × ((remove_stream id m).1.next_stream ≡ m.next_stream)
  unfolding remove_stream remove_found
  remove_stream-IsValid id = elim (Option-cases (find_stream id m.streams)) [
    | inl e ↦ rw e (v, refl)
    | inr (s, e) ↦ rw e (removed-IsValid id s e, refl)
  ]

module _ {S : Type 0} (cancel : S → S) where
  keys-replace_stream :
      (id : ℕ) (s : S) (streams : List (ℕ × S)) → keys (replace_stream id s streams) ≡ keys streams
  keys-replace_stream id s [] = refl
  keys-replace_stream id s ((j, t) ∷ streams) = ground (arith, keys-replace_stream id s streams)

  find_stream_present :
      (id : ℕ) (streams : List (ℕ × S))
      → has id (keys streams) ≡ true
      → (s : S) × (find_stream id streams ≡ some s)
  unfolding find_stream
  find_stream_present id [] h = absurd cc
  find_stream_present id ((j, t) ∷ streams) h = elim (Bool-cases (j == id)) [
    | inl e ↦ (t, rw e refl)
    | inr e ↦ let (s, f) = find_stream_present id streams (ground arith) in (s, rw e f)
  ]

  cancel_streams_returns :
      (ids : List ℕ) (streams : List (ℕ × S))
      → All (λ id. has id (keys streams) ≡ true) ids
      → (streams' : List (ℕ × S)) × (cancel_streams cancel ids streams ≡ returned streams')
        × (keys streams' ≡ keys streams)
  unfolding cancel_streams
  cancel_streams_returns [] streams h = (streams, refl, refl)
  cancel_streams_returns (id ∷ ids) streams h =
      let (s, f) = find_stream_present id streams h.0 in
      let (streams', e, k) = cancel_streams_returns ids (replace_stream id (cancel s) streams) (
        subst (λ is. All (λ j. has j is ≡ true) ids)
          (sym (keys-replace_stream id (cancel s) streams)) h.1) in
      (streams', rw (cancel_streams, f) e, k ∙ keys-replace_stream id (cancel s) streams)

found_further :
    (j : ℕ) (ids all : List ℕ)
    → All (λ id. has id all ≡ true) ids
    → All (λ id. has id (j ∷ all) ≡ true) ids
found_further j [] all h = tt
found_further j (i ∷ ids) all h = (ground (arith, h.0), found_further j ids all h.1)

every_id_found : (ids : List ℕ) → All (λ id. has id ids ≡ true) ids
every_id_found [] = tt
every_id_found (id ∷ ids) =
    (ground (arith, ==_iff id id), found_further id ids ids (every_id_found ids))

module _ {S : Type 0} (m : StreamsMap S) (v : IsValid m) where
  -- CloseWithError finds every open stream.
  pub close_with_error-IsValid :
      (cancel : S → S) (err : ℕ)
      → (m' : StreamsMap S) × (close_with_error cancel err m ≡ returned m')
        × IsValid m'
        × (m'.next_stream ≡ m.next_stream)
  unfolding close_with_error
  close_with_error-IsValid cancel err =
      let (streams', e, k) = cancel_streams_returns cancel m.open_streams m.streams (
        subst (λ ids. All (λ id. has id ids ≡ true) m.open_streams) v.ids
          (every_id_found m.open_streams)) in
      (
        record m { close_err = some (closed_with err); streams = streams' },
        ap (λ o. closed_map err o m) e,
        record {
          ids = v.ids ∙ sym k;
          distinct = v.distinct;
          opened = v.opened;
          outgoing = v.outgoing;
          incoming = v.incoming;
          next_parity = v.next_parity;
          highest_parity = v.highest_parity;
        },
        refl,
      )
