-- ===== src/Session/StreamsMap.antt =====
-- streams_map.go: the open streams. A stream is a value of the type S; new_stream is the callback of
-- newStreamsMap, and stream_id the method StreamID() of a stream. The limits that the connection
-- parameters give are arguments. Stream ids and the counters are uint32.
pub mod Removal
pub mod Ids
pub mod Inv
pub mod Keeps
pub mod Remote
pub mod Removed
pub mod Calls
pub mod Opens
use mpquic_latency.Base.{
  ℕ, zero, suc, ◌+◌, ◌-◌, ◌*◌, ◌/◌, ◌%◌, ◌^◌, ltb, leb, ◌==◌, if◌then◌else◌, Bool, true, false,
  ◌&&◌, Option, none, some, List, [], ◌∷◌, ◌++◌, ◌⊎◌, inl, inr, Outcome, returned, panicked,
}

pub data Perspective : Type 0 where
  server : Perspective
  client : Perspective

pub data StreamsError : Type 0 where
  too_many_open_streams : StreamsError
  invalid_stream_id : StreamsError
  non_existing_stream : StreamsError
  closed_with : ℕ → StreamsError

abbrev pub max_streams_per_connection : ℕ
max_streams_per_connection = 100

abbrev pub max_new_stream_id_delta : ℕ
max_new_stream_id_delta = 4 * max_streams_per_connection

abbrev pub u32 : ℕ → ℕ
u32 n = n % 2 ^ 32

-- The map of the streams is an association list, in the order in which they were opened.
pub record StreamsMap (S : Type 0) : Type 0 where
  pub perspective : Perspective
  pub streams : List (ℕ × S)
  pub open_streams : List ℕ
  pub round_robin_index : ℕ
  pub next_stream : ℕ
  pub highest_stream_opened_by_peer : ℕ
  pub close_err : Option StreamsError
  pub next_stream_to_accept : ℕ
  pub num_outgoing_streams : ℕ
  pub num_incoming_streams : ℕ

unfoldable pub new_streams_map : {S : Type 0} → Perspective → StreamsMap S
new_streams_map pers = record {
  perspective = pers;
  streams = [];
  open_streams = [];
  round_robin_index = 0;
  next_stream = elim pers [ client ↦ 1 | server ↦ 2 ];
  highest_stream_opened_by_peer = 0;
  close_err = none;
  next_stream_to_accept = elim pers [ client ↦ 2 | server ↦ 1 ];
  num_outgoing_streams = 0;
  num_incoming_streams = 0;
}

module _ {S : Type 0} where
  unfoldable pub find_stream : ℕ → List (ℕ × S) → Option S
  find_stream id [] = none
  find_stream id ((j, s) ∷ streams) = if j == id then some s else find_stream id streams

  unfoldable pub delete_stream : ℕ → List (ℕ × S) → List (ℕ × S)
  delete_stream id [] = []
  delete_stream id ((j, s) ∷ streams) =
      let rest = delete_stream id streams in if j == id then rest else (j, s) ∷ rest

  abbrev pub put_new : S → ℕ → Option S → StreamsMap S → StreamsMap S
  put_new s id none m = record m {
    streams = m.streams ++ ((id, s) ∷ []);
    open_streams = m.open_streams ++ (id ∷ []);
  }
  put_new s id (some _) m = m

abbrev pub rounds_to : ℕ → ℕ → ℕ
rounds_to id sid = if leb sid id then (id - sid) / 2 + 1 else 0

-- The parity of the ids that this side opens.
abbrev pub own_parity : Perspective → ℕ
own_parity server = 0
own_parity client = 1

module _ {S : Type 0} where
  -- The counter is that of the parity: even ids are outgoing, odd ids incoming streams of a server.
  abbrev pub count_remote : Perspective → StreamsMap S → StreamsMap S
  count_remote server m = record m { num_incoming_streams = u32 (m.num_incoming_streams + 1) }
  count_remote client m = record m { num_outgoing_streams = u32 (m.num_outgoing_streams + 1) }

  abbrev pub count_own : Perspective → StreamsMap S → StreamsMap S
  count_own server m = record m { num_outgoing_streams = u32 (m.num_outgoing_streams + 1) }
  count_own client m = record m { num_incoming_streams = u32 (m.num_incoming_streams + 1) }

  abbrev pub raise_highest : ℕ → StreamsMap S → StreamsMap S
  raise_highest id m =
      if ltb m.highest_stream_opened_by_peer id
      then record m { highest_stream_opened_by_peer = id }
      else m

  unfoldable pub first_sid : StreamsMap S → ℕ
  first_sid m =
      let sid = m.highest_stream_opened_by_peer + 2 in
      elim m.perspective [ server ↦ if sid == 2 then 1 else sid | client ↦ sid ]

  abbrev pub found_after :
      ℕ → Option StreamsError × StreamsMap S → (StreamsError ⊎ Option S) × StreamsMap S
  found_after id (some e, m) = (inl e, m)
  found_after id (none, m) = (inr (find_stream id m.streams), m)

module _ {S : Type 0} (new_stream : ℕ → S) (stream_id : S → ℕ) where
  -- putStream, whose error every caller ignores.
  unfoldable pub put_stream : S → StreamsMap S → StreamsMap S
  unfolding find_stream
  put_stream s m = put_new s (stream_id s) (find_stream (stream_id s) m.streams) m

  unfoldable pub open_remote_stream : ℕ → ℕ → StreamsMap S → (StreamsError ⊎ S) × StreamsMap S
  unfolding put_stream
  open_remote_stream max_incoming id m =
      if leb max_incoming m.num_incoming_streams
      then (inl too_many_open_streams, m)
      else if ltb (u32 (id + max_new_stream_id_delta)) m.highest_stream_opened_by_peer
      then (inl invalid_stream_id, m)
      else (
        inr (new_stream id),
        put_stream (new_stream id) (raise_highest id (count_remote m.perspective m)),
      )

  unfoldable pub open_stream_impl : ℕ → StreamsMap S → (StreamsError ⊎ S) × StreamsMap S
  unfolding put_stream
  open_stream_impl max_outgoing m =
      if leb max_outgoing m.num_outgoing_streams then (inl too_many_open_streams, m) else (
        inr (new_stream m.next_stream),
        put_stream (new_stream m.next_stream)
            (record (count_own m.perspective m) { next_stream = u32 (m.next_stream + 2) }),
      )

  abbrev pub unless_closed :
      Option StreamsError → ℕ → StreamsMap S → (StreamsError ⊎ S) × StreamsMap S
  unless_closed (some e) max_outgoing m = (inl e, m)
  unless_closed none max_outgoing m = open_stream_impl max_outgoing m

  unfoldable pub open_stream : ℕ → StreamsMap S → (StreamsError ⊎ S) × StreamsMap S
  unfolding open_stream_impl
  open_stream max_outgoing m = unless_closed m.close_err max_outgoing m

  -- The loop of GetOrOpenStream over sid, as many rounds as there are ids up to the one asked for.
  -- That one is below 2 ^ 32 - 2 here, so that sid does not wrap around.
  abbrev pub next_round :
      (StreamsError ⊎ S) × StreamsMap S
      → (StreamsMap S → Option StreamsError × StreamsMap S)
      → Option StreamsError × StreamsMap S
  next_round (inl e, m) rest = (some e, m)
  next_round (inr _, m) rest = rest m

  unfoldable pub open_remote_streams : ℕ → ℕ → ℕ → StreamsMap S → Option StreamsError × StreamsMap S
  unfolding open_remote_stream
  open_remote_streams max_incoming zero sid m = (none, m)
  open_remote_streams max_incoming (suc rounds) sid m =
      next_round (open_remote_stream max_incoming sid m)
        (open_remote_streams max_incoming rounds (sid + 2))

  -- A missing stream that was open before is nil.
  unfoldable pub open_missing : ℕ → ℕ → StreamsMap S → (StreamsError ⊎ Option S) × StreamsMap S
  unfolding first_sid open_remote_streams
  open_missing max_incoming id m =
      if id % 2 == own_parity m.perspective
      then (if leb id m.next_stream then (inr none, m) else (inl invalid_stream_id, m))
      else if leb id m.highest_stream_opened_by_peer
      then (inr none, m)
      else found_after id
          (open_remote_streams max_incoming (rounds_to id (first_sid m)) (first_sid m) m)

  unfoldable pub or_open :
      Option S → ℕ → ℕ → StreamsMap S → (StreamsError ⊎ Option S) × StreamsMap S
  unfolding open_missing
  or_open (some s) max_incoming id m = (inr (some s), m)
  or_open none max_incoming id m = open_missing max_incoming id m

  unfoldable pub get_or_open_stream :
      ℕ → ℕ → StreamsMap S → (StreamsError ⊎ Option S) × StreamsMap S
  unfolding or_open
  get_or_open_stream max_incoming id m = or_open (find_stream id m.streams) max_incoming id m
