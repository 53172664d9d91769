-- ===== src/Session/StreamsMap/Inv.antt =====
-- The well-formedness of the streams map.
use mpquic_latency.Base.{
  ℕ, ◌+◌, ◌%◌, ◌^◌, ◌≤◌, ◌<◌, ◌==◌, if◌then◌else◌, ◌≡◌, ◌≢◌, sym, ap, ◌∙◌, false, List, [], ◌∷◌,
  ◌++◌, All, ◌⊎◌, arith,
}
use mpquic_latency.Session.StreamsMap.{Perspective, StreamsMap, u32, own_parity}
use mpquic_latency.Session.StreamsMap.Ids.{
  has, Distinct, count_parity, All-snoc, Distinct-snoc, count_parity-snoc, absent, keys, keys-snoc,
}

-- An id that was opened: an own one is below the next one, and one of the peer at most the highest.
abbrev pub IsOpened : Perspective → ℕ → ℕ → ℕ → Type 0
IsOpened pers next highest id =
    (id % 2 ≡ own_parity pers → id < next) × (id % 2 ≢ own_parity pers → id ≤ highest)

pub record IsValid {S : Type 0} (m : StreamsMap S) : Type 0 where
  pub ids : m.open_streams ≡ keys m.streams
  pub distinct : Distinct m.open_streams
  pub opened :
      All (IsOpened m.perspective m.next_stream m.highest_stream_opened_by_peer) m.open_streams
  pub outgoing : m.num_outgoing_streams ≡ count_parity 0 m.open_streams % 2 ^ 32
  pub incoming : m.num_incoming_streams ≡ count_parity 1 m.open_streams % 2 ^ 32
  pub next_parity : m.next_stream % 2 ≡ own_parity m.perspective
  pub highest_parity :
      (m.highest_stream_opened_by_peer ≡ 0)
      ⊎ (m.highest_stream_opened_by_peer % 2 ≢ own_parity m.perspective)

later-IsOpened :
    (pers : Perspective) (n h n' h' : ℕ) (ids : List ℕ)
    → n ≤ n'
    → h ≤ h'
    → All (IsOpened pers n h) ids
    → All (IsOpened pers n' h') ids
later-IsOpened pers n h n' h' [] le le' o = tt
later-IsOpened pers n h n' h' (id ∷ ids) le le' o = (
  (λ e. omega (arith, o.0.0 e), λ e. omega (arith, o.0.1 e)),
  later-IsOpened pers n h n' h' ids le le' o.1,
)

module _ {S : Type 0} (m : StreamsMap S) (v : IsValid m) where
  -- The map with one stream more, whose id is new.
  pub one_more :
      (s : S) (id next highest outgoing incoming : ℕ)
      → has id m.open_streams ≡ false
      → m.next_stream ≤ next
      → m.highest_stream_opened_by_peer ≤ highest
      → IsOpened m.perspective next highest id
      → outgoing
        ≡ (if id % 2 == 0 then u32 (m.num_outgoing_streams + 1) else m.num_outgoing_streams)
      → incoming
        ≡ (if id % 2 == 0 then m.num_incoming_streams else u32 (m.num_incoming_streams + 1))
      → next % 2 ≡ own_parity m.perspective
      → (highest ≡ 0) ⊎ (highest % 2 ≢ own_parity m.perspective)
      → IsValid (record m {
        streams = m.streams ++ ((id, s) ∷ []);
        open_streams = m.open_streams ++ (id ∷ []);
        next_stream = next;
        highest_stream_opened_by_peer = highest;
        num_outgoing_streams = outgoing;
        num_incoming_streams = incoming;
      })
  one_more s id next highest outgoing incoming new le le' here eo ei np hp = record {
    ids = ap (λ is. is ++ (id ∷ [])) v.ids ∙ sym (keys-snoc id s m.streams);
    distinct = Distinct-snoc id m.open_streams v.distinct new;
    opened =
        All-snoc id (IsOpened m.perspective next highest) m.open_streams
          (later-IsOpened m.perspective m.next_stream m.highest_stream_opened_by_peer next highest
            m.open_streams le le' v.opened)
          here;
    outgoing = ground (arith, count_parity-snoc id 0 m.open_streams, v.outgoing);
    incoming = ground (arith, count_parity-snoc id 1 m.open_streams, v.incoming);
    next_parity = np;
    highest_parity = hp;
  }

  pub next_is_new : has m.next_stream m.open_streams ≡ false
  next_is_new =
      absent m.next_stream (IsOpened m.perspective m.next_stream m.highest_stream_opened_by_peer)
        m.open_streams v.opened (λ o. absurd (omega (arith, o.0 v.next_parity)))

  pub higher_is_new :
      (id : ℕ)
      → id % 2 ≢ own_parity m.perspective
      → m.highest_stream_opened_by_peer < id
      → has id m.open_streams ≡ false
  higher_is_new id ne lt =
      absent id (IsOpened m.perspective m.next_stream m.highest_stream_opened_by_peer)
        m.open_streams v.opened (λ o. absurd (omega (arith, o.1 ne)))
