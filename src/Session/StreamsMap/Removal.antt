-- ===== src/Session/StreamsMap/Removal.antt =====
-- streams_map.go: accepting and removing streams, and closing the map.
use mpquic_latency.Base.{
  ℕ, suc, ◌+◌, ◌-◌, ◌%◌, ◌^◌, ltb, ◌==◌, if◌then◌else◌, Option, none, some, List, [], ◌∷◌, ◌⊎◌, inl,
  inr, Outcome, returned, panicked,
}
use mpquic_latency.Session.StreamsMap.{
  StreamsError, non_existing_stream, closed_with, StreamsMap, u32, find_stream, delete_stream,
}

-- The id is taken out of the slice, and the index follows it.
unfoldable pub index_of : ℕ → List ℕ → Option ℕ
index_of id [] = none
index_of id (j ∷ ids) = let rest = index_of id ids in if j == id then some 0 else add_one rest
  where
    add_one : Option ℕ → Option ℕ
    add_one none = none
    add_one (some i) = some (suc i)

unfoldable pub remove_id : ℕ → List ℕ → List ℕ
remove_id id [] = []
remove_id id (j ∷ ids) = let rest = remove_id id ids in if j == id then ids else j ∷ rest

abbrev pub adjust_index : Option ℕ → ℕ → ℕ
adjust_index none index = index
adjust_index (some i) index = if ltb i index then u32 (index + 2 ^ 32 - 1) else index

module _ {S : Type 0} where
  unfoldable pub remove_found : Option S → ℕ → StreamsMap S → Option StreamsError × StreamsMap S
  unfolding index_of remove_id
  remove_found none id m = (some non_existing_stream, m)
  remove_found (some s) id m = (
    none,
    record m {
      num_outgoing_streams =
          if id % 2 == 0 then u32 (m.num_outgoing_streams + 2 ^ 32 - 1) else m.num_outgoing_streams;
      num_incoming_streams =
          if id % 2 == 0 then m.num_incoming_streams else u32 (m.num_incoming_streams + 2 ^ 32 - 1);
      open_streams = remove_id id m.open_streams;
      round_robin_index = adjust_index (index_of id m.open_streams) m.round_robin_index;
      streams = delete_stream id m.streams;
    },
  )

  unfoldable pub remove_stream : ℕ → StreamsMap S → Option StreamsError × StreamsMap S
  unfolding remove_found
  remove_stream id m = remove_found (find_stream id m.streams) id m

  -- What AcceptStream does once the next stream is there, or the map was closed. Until then it waits,
  -- which is `none`.
  abbrev pub accept_found :
      Option StreamsError → Option S → StreamsMap S → Option ((StreamsError ⊎ S) × StreamsMap S)
  accept_found (some e) found m = some (inl e, m)
  accept_found none none m = none
  accept_found none (some s) m =
      some (inr s, record m { next_stream_to_accept = u32 (m.next_stream_to_accept + 2) })

  unfoldable pub accept_stream : StreamsMap S → Option ((StreamsError ⊎ S) × StreamsMap S)
  accept_stream m = accept_found m.close_err (find_stream m.next_stream_to_accept m.streams) m

  abbrev pub replace_stream : ℕ → S → List (ℕ × S) → List (ℕ × S)
  replace_stream id s [] = []
  replace_stream id s ((j, t) ∷ streams) =
      let rest = replace_stream id s streams in if j == id then (j, s) ∷ rest else (j, t) ∷ rest

  -- The streams after Cancel(err) of each open one. An open id that is not in the map would be a nil
  -- pointer.
  unfoldable pub cancel_streams : (S → S) → List ℕ → List (ℕ × S) → Outcome (List (ℕ × S))
  cancel_streams cancel [] streams = returned streams
  cancel_streams cancel (id ∷ ids) streams = elim (find_stream id streams) [
    | none ↦ panicked
    | some s ↦ cancel_streams cancel ids (replace_stream id (cancel s) streams)
  ]

  abbrev pub closed_map : ℕ → Outcome (List (ℕ × S)) → StreamsMap S → Outcome (StreamsMap S)
  closed_map err panicked m = panicked
  closed_map err (returned streams) m =
      returned (record m { close_err = some (closed_with err); streams = streams })

  unfoldable pub close_with_error : (S → S) → ℕ → StreamsMap S → Outcome (StreamsMap S)
  unfolding cancel_streams
  close_with_error cancel err m = closed_map err (cancel_streams cancel m.open_streams m.streams) m
