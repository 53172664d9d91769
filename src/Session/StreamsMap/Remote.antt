-- ===== src/Session/StreamsMap/Remote.antt =====
-- Opening the streams of the peer keeps the map well-formed.
use mathlib.Core.Path.{subst}
use mpquic_latency.Base.{
  ℕ, zero, suc, ◌+◌, ◌%◌, ◌<◌, ltb, leb, ◌==◌, if◌then◌else◌, ◌≡◌, ◌≢◌, refl, sym, ap, lt→ltb,
  false, Bool-cases, Option-cases, Option, none, some, ◌⊎◌, inl, inr, arith,
}
use mpquic_latency.Session.StreamsMap.{
  Perspective, server, client, StreamsError, too_many_open_streams, invalid_stream_id, StreamsMap,
  u32, find_stream, put_new, open_remote_stream, own_parity, max_new_stream_id_delta,
}
use mpquic_latency.Session.StreamsMap.Ids.{has}
use mpquic_latency.Session.StreamsMap.Inv.{IsValid, one_more, higher_is_new}
use mpquic_latency.Session.StreamsMap.{
  open_remote_streams, first_sid, rounds_to, found_after, open_missing, or_open, get_or_open_stream,
}
use mpquic_latency.Session.StreamsMap.Keeps.{
  own_outgoing, own_incoming, other, count_remote_counts, parity_counts, other_parity,
  put_stream_new,
}

-- What the operations that this side's ids are not touched by have in common.
pub record Kept {S : Type 0} (m : StreamsMap S) (t : StreamsMap S) : Type 0 where
  pub valid : IsValid t
  pub same_perspective : t.perspective ≡ m.perspective
  pub same_next : t.next_stream ≡ m.next_stream

unchanged : {S : Type 0} (m : StreamsMap S) → IsValid m → Kept m m
unchanged m v = record { valid = v; same_perspective = refl; same_next = refl }

map-found_after :
    {S : Type 0} (id : ℕ) (r : Option StreamsError × StreamsMap S) → (found_after id r).1 ≡ r.1
map-found_after id (some e, m) = refl
map-found_after id (none, m) = refl

parity_two : (sid d : ℕ) → sid % 2 ≢ d → (sid + 2) % 2 ≢ d
parity_two sid d ne e = ne (omega arith)

module _ {S : Type 0} (new_stream : ℕ → S) (stream_id : S → ℕ)
    (new_id : (id : ℕ) → stream_id (new_stream id) ≡ id) where
  module _ (m : StreamsMap S) (v : IsValid m) (id : ℕ) (ne : id % 2 ≢ own_parity m.perspective)
      (lt : m.highest_stream_opened_by_peer < id) where
    abbrev opened_remote : StreamsMap S
    opened_remote = put_new (new_stream id) id none (record m {
      num_outgoing_streams = own_outgoing (other m.perspective) m;
      num_incoming_streams = own_incoming (other m.perspective) m;
      highest_stream_opened_by_peer = id;
    })

    open_remote_stream_opens :
        (max_incoming : ℕ)
        → leb max_incoming m.num_incoming_streams ≡ false
        → ltb (u32 (id + max_new_stream_id_delta)) m.highest_stream_opened_by_peer ≡ false
        → open_remote_stream new_stream stream_id max_incoming id m
          ≡ (inr (new_stream id), opened_remote)
    unfolding open_remote_stream
    open_remote_stream_opens max_incoming e e' =
        rw
          (e, e', count_remote_counts m m.perspective, lt→ltb m.highest_stream_opened_by_peer id lt)
          (ap (λ t. (inr (new_stream id), t))
            (put_stream_new new_stream stream_id new_id id
              (record m {
                num_outgoing_streams = own_outgoing (other m.perspective) m;
                num_incoming_streams = own_incoming (other m.perspective) m;
                highest_stream_opened_by_peer = id;
              })
              (subst (λ ids. has id ids ≡ false) v.ids (higher_is_new m v id ne lt))))

    opened_remote-IsValid : IsValid opened_remote
    opened_remote-IsValid =
        one_more m v (new_stream id) id m.next_stream id (own_outgoing (other m.perspective) m)
          (own_incoming (other m.perspective) m) (higher_is_new m v id ne lt) (omega arith)
          (omega arith) ((λ e. absurd (ne e)), (λ _. omega arith))
          (parity_counts m (other m.perspective) id (other_parity m m.perspective id ne)).0
          (parity_counts m (other m.perspective) id (other_parity m m.perspective id ne)).1
          v.next_parity (inr ne)

    -- A stream is opened, or nothing changes.
    open_remote_stream-cases :
        (max_incoming : ℕ)
        → (((e : StreamsError) × (open_remote_stream new_stream stream_id max_incoming id m
                ≡ (inl e, m)))
            ⊎ (open_remote_stream new_stream stream_id max_incoming id m
                ≡ (inr (new_stream id), opened_remote)))
    unfolding open_remote_stream
    open_remote_stream-cases max_incoming =
        elim (Bool-cases (leb max_incoming m.num_incoming_streams)) [
          | inl e ↦ inl (too_many_open_streams, rw e refl)
          | inr e ↦
              elim (Bool-cases
                (ltb (u32 (id + max_new_stream_id_delta)) m.highest_stream_opened_by_peer)) [
                  | inl e' ↦ inl (invalid_stream_id, rw (e, e') refl)
                  | inr e' ↦ inr (open_remote_stream_opens max_incoming e e')
                ]
        ]

  open_remote_streams-Kept :
      (max_incoming rounds sid : ℕ) (m : StreamsMap S)
      → IsValid m
      → sid % 2 ≢ own_parity m.perspective
      → m.highest_stream_opened_by_peer < sid
      → Kept m (open_remote_streams new_stream stream_id max_incoming rounds sid m).1
  unfolding open_remote_streams
  open_remote_streams-Kept max_incoming zero sid m v ne lt = record {
    valid = v;
    same_perspective = refl;
    same_next = refl;
  }
  open_remote_streams-Kept max_incoming (suc rounds) sid m v ne lt =
      elim (open_remote_stream-cases m v sid ne lt max_incoming) [
        | inl (e, eq) ↦ rw eq (record { valid = v; same_perspective = refl; same_next = refl })
        | inr eq ↦ rw eq (
            let k : Kept (opened_remote m v sid ne lt) _ =
              open_remote_streams-Kept max_incoming rounds (sid + 2) (opened_remote m v sid ne lt)
                (opened_remote-IsValid m v sid ne lt) (parity_two sid (own_parity m.perspective) ne)
                (omega arith) in
            record {
              valid = k.valid;
              same_perspective = k.same_perspective;
              same_next = k.same_next;
            })
      ]

  first_sid_ahead :
      (pers : Perspective) (highest : ℕ)
      → (highest ≡ 0) ⊎ (highest % 2 ≢ own_parity pers)
      → (highest < elim pers [
        | server ↦ if highest + 2 == 2 then 1 else highest + 2
        | client ↦ highest + 2
      ])
        × (elim pers [ server ↦ if highest + 2 == 2 then 1 else highest + 2 | client ↦ highest + 2 ]
              % 2
            ≢ own_parity pers)
  first_sid_ahead server highest h = (ground arith, ground arith)
  first_sid_ahead client highest h = (omega arith, ground arith)

  open_missing-Kept :
      (max_incoming id : ℕ) (m : StreamsMap S)
      → IsValid m
      → Kept m (open_missing new_stream stream_id max_incoming id m).1
  unfolding open_missing first_sid
  open_missing-Kept max_incoming id m v = elim (Bool-cases (id % 2 == own_parity m.perspective)) [
    | inl e ↦ elim (Bool-cases (leb id m.next_stream)) [
      | inl f ↦ rw (e, f) (unchanged m v)
      | inr f ↦ rw (e, f) (unchanged m v)
    ]
    | inr e ↦ elim (Bool-cases (leb id m.highest_stream_opened_by_peer)) [
      | inl f ↦ rw (e, f) (unchanged m v)
      | inr f ↦
          rw (e, f)
            (subst (Kept m)
              (sym (
                map-found_after id (
                  open_remote_streams new_stream stream_id max_incoming (rounds_to id (first_sid m))
                    (first_sid m) m)))
              (open_remote_streams-Kept max_incoming (rounds_to id (first_sid m)) (first_sid m) m v
                (first_sid_ahead m.perspective m.highest_stream_opened_by_peer v.highest_parity).1
                (first_sid_ahead m.perspective m.highest_stream_opened_by_peer v.highest_parity).0))
    ]
  ]

  pub get_or_open_stream-Kept :
      (max_incoming id : ℕ) (m : StreamsMap S)
      → IsValid m
      → Kept m (get_or_open_stream new_stream stream_id max_incoming id m).1
  unfolding get_or_open_stream or_open
  get_or_open_stream-Kept max_incoming id m v = elim (Option-cases (find_stream id m.streams)) [
    | inl e ↦ rw e (open_missing-Kept max_incoming id m v)
    | inr (s, e) ↦ rw e (unchanged m v)
  ]
