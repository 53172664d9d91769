-- ===== src/Session/StreamsMap/Keeps.antt =====
-- The operations of the streams map keep it well-formed.
use mathlib.Core.Path.{subst}
use mpquic_latency.Base.{
  ℕ, ◌+◌, ◌%◌, ◌^◌, ◌<◌, leb, ◌==◌, if◌then◌else◌, ◌≡◌, ◌≢◌, refl, ap, false, none, inr, arith,
}
use mpquic_latency.Session.StreamsMap.{
  Perspective, server, client, StreamsMap, u32, put_new, put_stream, count_own, count_remote,
  open_stream_impl, own_parity,
}
use mpquic_latency.Session.StreamsMap.Ids.{has, keys, find_stream_absent}
use mpquic_latency.Session.StreamsMap.Inv.{IsValid, one_more, next_is_new}

-- The counters after a stream of this side, or of the peer, was opened.
abbrev pub own_outgoing : {S : Type 0} → Perspective → StreamsMap S → ℕ
own_outgoing server m = u32 (m.num_outgoing_streams + 1)
own_outgoing client m = m.num_outgoing_streams

abbrev pub own_incoming : {S : Type 0} → Perspective → StreamsMap S → ℕ
own_incoming server m = m.num_incoming_streams
own_incoming client m = u32 (m.num_incoming_streams + 1)

abbrev pub other : Perspective → Perspective
other server = client
other client = server

module _ {S : Type 0} (m : StreamsMap S) where
  count_own_counts :
      (pers : Perspective)
      → count_own pers m ≡ record m {
        num_outgoing_streams = own_outgoing pers m;
        num_incoming_streams = own_incoming pers m;
      }
  count_own_counts server = refl
  count_own_counts client = refl

  pub count_remote_counts :
      (pers : Perspective)
      → count_remote pers m ≡ record m {
        num_outgoing_streams = own_outgoing (other pers) m;
        num_incoming_streams = own_incoming (other pers) m;
      }
  count_remote_counts server = refl
  count_remote_counts client = refl

  pub parity_counts :
      (pers : Perspective) (id : ℕ)
      → id % 2 ≡ own_parity pers
      → (own_outgoing pers m
          ≡ (if id % 2 == 0 then u32 (m.num_outgoing_streams + 1) else m.num_outgoing_streams))
        × (own_incoming pers m
            ≡ (if id % 2 == 0 then m.num_incoming_streams else u32 (m.num_incoming_streams + 1)))
  parity_counts server id e = rw e (refl, refl)
  parity_counts client id e = rw e (refl, refl)

  pub other_parity :
      (pers : Perspective) (id : ℕ) → id % 2 ≢ own_parity pers → id % 2 ≡ own_parity (other pers)
  other_parity server id ne = ground arith
  other_parity client id ne = ground arith

pub below : {a b : ℕ} → a < b → leb b a ≡ false
below h = ground arith

module _ {S : Type 0} (new_stream : ℕ → S) (stream_id : S → ℕ)
    (new_id : (id : ℕ) → stream_id (new_stream id) ≡ id) where
  pub put_stream_new :
      (id : ℕ) (m : StreamsMap S)
      → has id (keys m.streams) ≡ false
      → put_stream new_stream stream_id (new_stream id) m ≡ put_new (new_stream id) id none m
  unfolding put_stream
  put_stream_new id m h = rw (new_id id, find_stream_absent id m.streams h) refl

  module _ (m : StreamsMap S) (v : IsValid m) where
    -- What openStreamImpl makes of the map when the limit allows it.
    abbrev pub opened_own : StreamsMap S
    opened_own = put_new (new_stream m.next_stream) m.next_stream none (record m {
      num_outgoing_streams = own_outgoing m.perspective m;
      num_incoming_streams = own_incoming m.perspective m;
      next_stream = u32 (m.next_stream + 2);
    })

    pub open_stream_impl_opens :
        (max_outgoing : ℕ)
        → m.num_outgoing_streams < max_outgoing
        → open_stream_impl new_stream stream_id max_outgoing m
          ≡ (inr (new_stream m.next_stream), opened_own)
    unfolding open_stream_impl
    open_stream_impl_opens max_outgoing lt =
        rw (below lt, count_own_counts m m.perspective)
          (ap (λ t. (inr (new_stream m.next_stream), t))
            (put_stream_new m.next_stream
              (record m {
                num_outgoing_streams = own_outgoing m.perspective m;
                num_incoming_streams = own_incoming m.perspective m;
                next_stream = u32 (m.next_stream + 2);
              })
              (subst (λ ids. has m.next_stream ids ≡ false) v.ids (next_is_new m v))))

    pub opened_own-IsValid : m.next_stream + 2 < 2 ^ 32 → IsValid opened_own
    opened_own-IsValid small =
        one_more m v (new_stream m.next_stream) m.next_stream (u32 (m.next_stream + 2))
          m.highest_stream_opened_by_peer (own_outgoing m.perspective m)
          (own_incoming m.perspective m) (next_is_new m v) (omega arith) (omega arith)
          ((λ _. omega arith), (λ ne. absurd (ne v.next_parity)))
          (parity_counts m m.perspective m.next_stream v.next_parity).0
          (parity_counts m m.perspective m.next_stream v.next_parity).1
          (omega (arith, v.next_parity)) v.highest_parity
