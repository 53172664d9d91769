-- ===== src/Session/StreamsMap/Opens.antt =====
-- What OpenStream hands out is new.
use mathlib.Core.Path.{subst}
use mpquic_latency.Base.{
  ℕ, ◌+◌, ◌^◌, ◌<◌, ◌==◌, ==_iff, ◌≡◌, refl, ap, ◌∙◌, true, false, Bool-cases, none, some, List, [],
  ◌∷◌, ◌++◌, inl, inr, arith,
}
use mpquic_latency.Session.StreamsMap.{StreamsMap, find_stream, open_stream}
use mpquic_latency.Session.StreamsMap.Ids.{has, keys}
use mpquic_latency.Session.StreamsMap.Inv.{IsValid, next_is_new}
use mpquic_latency.Session.StreamsMap.{unless_closed}
use mpquic_latency.Session.StreamsMap.Keeps.{opened_own, open_stream_impl_opens, opened_own-IsValid}

find_stream-append :
    {S : Type 0} (j : ℕ) (front back : List (ℕ × S))
    → has j (keys front) ≡ true
    → find_stream j (front ++ back) ≡ find_stream j front
unfolding find_stream
find_stream-append j [] back h = absurd cc
find_stream-append j ((i, s) ∷ front) back h = elim (Bool-cases (i == j)) [
  | inl e ↦ rw e refl
  | inr e ↦ rw e (find_stream-append j front back (ground arith))
]

find_stream-last :
    {S : Type 0} (j : ℕ) (s : S) (front : List (ℕ × S))
    → has j (keys front) ≡ false
    → find_stream j (front ++ ((j, s) ∷ [])) ≡ some s
unfolding find_stream
find_stream-last j s [] h = rw ((==_iff j j).1 refl) refl
find_stream-last j s ((i, t) ∷ front) h = elim (Bool-cases (i == j)) [
  | inl e ↦ absurd (ground arith)
  | inr e ↦ rw e (find_stream-last j s front (ground arith))
]

module _ {S : Type 0} (new_stream : ℕ → S) (stream_id : S → ℕ)
    (new_id : (id : ℕ) → stream_id (new_stream id) ≡ id) where
  -- On a well-formed map that is not closed, below the limit, and as long as the next id does not
  -- wrap around, OpenStream returns a stream whose id was not open before. Afterwards that id leads
  -- to it, every stream that was open is still found, the map is well-formed, and the next id is
  -- the following one of the same parity.
  pub open_stream_opens_new :
      (m : StreamsMap S) (max_outgoing : ℕ)
      → IsValid m
      → m.close_err ≡ none
      → m.num_outgoing_streams < max_outgoing
      → m.next_stream + 2 < 2 ^ 32
      → (m' : StreamsMap S) × (open_stream new_stream stream_id max_outgoing m
          ≡ (inr (new_stream m.next_stream), m'))
        × (has m.next_stream m.open_streams ≡ false)
        × (find_stream m.next_stream m'.streams ≡ some (new_stream m.next_stream))
        × ((j : ℕ)
            → has j m.open_streams ≡ true
            → find_stream j m'.streams ≡ find_stream j m.streams)
        × IsValid m'
        × (m'.next_stream ≡ m.next_stream + 2)
  unfolding open_stream
  open_stream_opens_new m max_outgoing v not_closed allowed small = (
    opened_own new_stream stream_id new_id m v,
    ap (λ c. unless_closed new_stream stream_id c max_outgoing m) not_closed
        ∙ open_stream_impl_opens new_stream stream_id new_id m v max_outgoing allowed,
    next_is_new m v,
    find_stream-last m.next_stream (new_stream m.next_stream) m.streams
        (subst (λ ids. has m.next_stream ids ≡ false) v.ids (next_is_new m v)),
    λ j h.
        find_stream-append j m.streams ((m.next_stream, new_stream m.next_stream) ∷ [])
          (subst (λ ids. has j ids ≡ true) v.ids h),
    opened_own-IsValid new_stream stream_id new_id m v small,
    omega arith,
  )
