-- ===== src/Session/StreamsMap/Calls.antt =====
-- Every sequence of calls leads to a well-formed streams map.
use mathlib.Core.Path.{subst}
use mpquic_latency.Base.{
  ℕ, ◌+◌, ◌*◌, ◌^◌, ◌≤◌, ◌<◌, leb, ◌≡◌, refl, sym, Bool-cases, Option, none, some, List, [], ◌∷◌,
  Outcome, returned, panicked, ◌⊎◌, inl, inr, arith,
}
use mpquic_latency.Session.StreamsMap.Removal.{
  remove_stream, accept_stream, accept_found, close_with_error,
}
use mpquic_latency.Session.StreamsMap.{
  Perspective, server, client, StreamsError, StreamsMap, u32, new_streams_map, find_stream,
  open_stream_impl, open_stream,
}
use mpquic_latency.Session.StreamsMap.Ids.{count_parity, count_parity}
use mpquic_latency.Session.StreamsMap.Inv.{IsValid}
use mpquic_latency.Base.{length}
use mpquic_latency.Session.StreamsMap.{get_or_open_stream, unless_closed}
use mpquic_latency.Session.StreamsMap.Keeps.{open_stream_impl_opens, opened_own-IsValid}
use mpquic_latency.Session.StreamsMap.Removed.{remove_stream-IsValid, close_with_error-IsValid}
use mpquic_latency.Session.StreamsMap.Remote.{get_or_open_stream-Kept}

accepted-IsValid :
    {S : Type 0} (m : StreamsMap S)
    → IsValid m
    → IsValid (record m { next_stream_to_accept = u32 (m.next_stream_to_accept + 2) })
accepted-IsValid m v = record {
  ids = v.ids;
  distinct = v.distinct;
  opened = v.opened;
  outgoing = v.outgoing;
  incoming = v.incoming;
  next_parity = v.next_parity;
  highest_parity = v.highest_parity;
}

new_streams_map-IsValid :
    {S : Type 0} (pers : Perspective)
    → IsValid (new_streams_map {S = S} pers) × ((new_streams_map {S = S} pers).next_stream ≤ 2)
unfolding new_streams_map count_parity
new_streams_map-IsValid server = (
  record {
    ids = refl;
    distinct = tt;
    opened = tt;
    outgoing = refl;
    incoming = refl;
    next_parity = refl;
    highest_parity = inl refl;
  },
  omega arith,
)
new_streams_map-IsValid client = (
  record {
    ids = refl;
    distinct = tt;
    opened = tt;
    outgoing = refl;
    incoming = refl;
    next_parity = refl;
    highest_parity = inl refl;
  },
  omega arith,
)

-- The calls, with the limit of the connection parameters at that time where one counts.
pub data Call : Type 0 where
  open_one : ℕ → Call
  get_or_open : ℕ → ℕ → Call
  accept : Call
  remove : ℕ → Call
  close : ℕ → Call

module _ {S : Type 0} (new_stream : ℕ → S) (stream_id : S → ℕ) (cancel : S → S) where
  abbrev after_accept : Option ((StreamsError ⊎ S) × StreamsMap S) → StreamsMap S → StreamsMap S
  after_accept none m = m
  after_accept (some (_, m')) m = m'

  abbrev after_close : Outcome (StreamsMap S) → StreamsMap S → StreamsMap S
  after_close panicked m = m
  after_close (returned m') m = m'

  -- The map after a call. A call that waits, or panics, leaves it as it is.
  unfoldable pub after : Call → StreamsMap S → StreamsMap S
  after (open_one max_outgoing) m = (open_stream new_stream stream_id max_outgoing m).1
  after (get_or_open max_incoming id) m =
      (get_or_open_stream new_stream stream_id max_incoming id m).1
  after accept m = after_accept (accept_stream m) m
  after (remove id) m = (remove_stream id m).1
  after (close err) m = after_close (close_with_error cancel err m) m

  unfoldable pub run : List Call → StreamsMap S → StreamsMap S
  unfolding after
  run [] m = m
  run (c ∷ calls) m = run calls (after c m)

  module _ (new_id : (id : ℕ) → stream_id (new_stream id) ≡ id) where
    -- Well-formed, and not many own streams opened so far.
    abbrev Fine : ℕ → StreamsMap S → Type 0
    Fine n m = IsValid m × (m.next_stream ≤ n)

    impl-Fine :
        (max_outgoing n : ℕ) (m : StreamsMap S)
        → n + 2 < 2 ^ 32
        → Fine n m
        → Fine (n + 2) (open_stream_impl new_stream stream_id max_outgoing m).1
    unfolding open_stream_impl
    impl-Fine max_outgoing n m small (v, le) =
        elim (Bool-cases (leb max_outgoing m.num_outgoing_streams)) [
          | inl e ↦ rw e (v, omega arith)
          | inr e ↦
              subst (λ r. Fine (n + 2) r.1)
                (sym (
                  open_stream_impl_opens new_stream stream_id new_id m v max_outgoing
                    (ground arith)))
                (opened_own-IsValid new_stream stream_id new_id m v (omega arith), omega arith)
        ]

    unless_closed-Fine :
        (close_err : Option StreamsError) (max_outgoing n : ℕ) (m : StreamsMap S)
        → n + 2 < 2 ^ 32
        → Fine n m
        → Fine (n + 2) (unless_closed new_stream stream_id close_err max_outgoing m).1
    unless_closed-Fine none max_outgoing n m small f = impl-Fine max_outgoing n m small f
    unless_closed-Fine (some e) max_outgoing n m small (v, le) = (v, omega arith)

    accept_found-Fine :
        (close_err : Option StreamsError) (found : Option S) (n : ℕ) (m : StreamsMap S)
        → Fine n m
        → Fine (n + 2) (after_accept (accept_found close_err found m) m)
    accept_found-Fine (some e) found n m (v, le) = (v, omega arith)
    accept_found-Fine none none n m (v, le) = (v, omega arith)
    accept_found-Fine none (some s) n m (v, le) = (accepted-IsValid m v, omega arith)

    after-Fine :
        (c : Call) (n : ℕ) (m : StreamsMap S) → n + 2 < 2 ^ 32 → Fine n m → Fine (n + 2) (after c m)
    unfolding after open_stream accept_stream
    after-Fine (open_one max_outgoing) n m small f =
        unless_closed-Fine m.close_err max_outgoing n m small f
    after-Fine (get_or_open max_incoming id) n m small (v, le) =
        let k = get_or_open_stream-Kept new_stream stream_id new_id max_incoming id m v in
        (k.valid, omega (arith, k.same_next))
    after-Fine accept n m small f =
        accept_found-Fine m.close_err (find_stream m.next_stream_to_accept m.streams) n m f
    after-Fine (remove id) n m small (v, le) =
        let (v', e) = remove_stream-IsValid m v id in (v', omega (arith, e))
    after-Fine (close err) n m small (v, le) =
        let (m', e, v', e') = close_with_error-IsValid m v cancel err in
        rw e (v', omega (arith, e'))

    run-Fine :
        (calls : List Call) (n : ℕ) (m : StreamsMap S)
        → n + 2 * length calls < 2 ^ 32
        → Fine n m
        → IsValid (run calls m)
    unfolding run
    run-Fine [] n m small f = f.0
    run-Fine (c ∷ calls) n m small f =
        run-Fine calls (n + 2) (after c m) (omega arith) (after-Fine c n m (omega arith) f)

    -- After any sequence of fewer than 2 ^ 30 calls, whatever the limits meanwhile, the streams map
    -- is well-formed: openStreams lists the keys of the map, each once, own ids are below
    -- nextStream and ids of the peer at most highestStreamOpenedByPeer, and the two counters are
    -- the numbers of open streams with an even and with an odd id.
    pub run-IsValid :
        (pers : Perspective) (calls : List Call)
        → length calls < 2 ^ 30
        → IsValid (run calls (new_streams_map pers))
    run-IsValid pers calls small =
        run-Fine calls 2 (new_streams_map pers) (omega arith) (new_streams_map-IsValid pers)
