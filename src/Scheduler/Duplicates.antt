-- ===== src/Scheduler/Duplicates.antt =====
-- scheduler.go: the packets that were sent on several paths, and what the acknowledgment of one of
-- them does to its duplicate.
use mpquic_latency.Base.{
  ℕ, ◌+◌, ◌==◌, ==_iff, if◌then◌else◌, ◌≡◌, ◌≢◌, refl, sym, ◌∙◌, u64, Bool, true, false, ◌&&◌,
  Bool-cases, Option, none, some, Outcome, returned, panicked, inl, inr, arith,
}
use mpquic_latency.Ackhandler.Sent.State.{Environment, SentPacketHandler}
use mpquic_latency.Ackhandler.Sent.Ops.{remove_packet_by_number}

pub record DupId : Type 0 where
  pub path_id : ℕ
  pub packet_number : ℕ

abbrev pub same_dup : DupId → DupId → Bool
same_dup a b = (a.path_id == b.path_id) && (a.packet_number == b.packet_number)

-- The duplicates, the two counters that acknowledgments and sending change, and the sent packet
-- handler of each path that pathsRef points to.
pub record Duplicates (E : Type 0) : Type 0 where
  pub dup_packets : DupId → Option DupId
  pub duplicated_packets : ℕ
  pub dropped_duplicated_packets : ℕ
  pub handlers : ℕ → Option (SentPacketHandler E)

abbrev pub delete : DupId → (DupId → Option DupId) → DupId → Option DupId
delete k dups j = if same_dup j k then none else dups j

abbrev pub insert : DupId → DupId → (DupId → Option DupId) → DupId → Option DupId
insert k v dups j = if same_dup j k then some v else dups j

module _ {E : Type 0} where
  -- The mappings of a packet that was sent as a duplicate, the second one only when the duplicate
  -- can be dropped.
  unfoldable pub add_duplicate : Bool → DupId → DupId → Duplicates E → Duplicates E
  add_duplicate is_dup_dropable original copy s =
      let dups = insert original copy s.dup_packets in
      record s {
        duplicated_packets = u64 (s.duplicated_packets + 1);
        dup_packets = if is_dup_dropable then insert copy original dups else dups;
      }

module _ {E : Type 0} (c : Environment E) where
  abbrev pub dropped : ℕ → Bool × SentPacketHandler E → Duplicates E → Duplicates E
  dropped path_id (removed, handler) s = record s {
    handlers = λ j. if j == path_id then some handler else s.handlers j;
    dropped_duplicated_packets =
        if removed then u64 (s.dropped_duplicated_packets + 1) else s.dropped_duplicated_packets;
  }

  -- A path that is gone is a nil pointer that is followed.
  abbrev pub remove_on :
      DupId → Option (SentPacketHandler E) → Duplicates E → Outcome (Duplicates E)
  remove_on entry none s = panicked
  remove_on entry (some h) s =
      returned (dropped entry.path_id (remove_packet_by_number c entry.packet_number h) s)

  abbrev pub forget : DupId → Outcome (Duplicates E) → Outcome (Duplicates E)
  forget key panicked = panicked
  forget key (returned s) = returned (record s { dup_packets = delete key s.dup_packets })

  abbrev pub handle_entry : Option DupId → Duplicates E → Outcome (Duplicates E)
  handle_entry none s = returned s
  handle_entry (some entry) s = forget entry (remove_on entry (s.handlers entry.path_id) s)

  unfoldable pub cross_ack_handling : ℕ → ℕ → Duplicates E → Outcome (Duplicates E)
  cross_ack_handling path_id packet_number s =
      let key : DupId = record { path_id = path_id; packet_number = packet_number } in
      forget key (handle_entry (s.dup_packets key) s)

  -- The entry of the packet is known, and so is the path of its duplicate.
  cross_ack_found :
      (key entry : DupId) (s : Duplicates E) (h : SentPacketHandler E)
      → s.dup_packets key ≡ some entry
      → s.handlers entry.path_id ≡ some h
      → cross_ack_handling key.path_id key.packet_number s
        ≡ returned (
            let t = dropped entry.path_id (remove_packet_by_number c entry.packet_number h) s in
            record t { dup_packets = delete key (delete entry t.dup_packets) })
  unfolding cross_ack_handling
  cross_ack_found key entry s h e eh = rw (e, eh) refl

  cross_ack_unknown :
      (key : DupId) (s : Duplicates E)
      → s.dup_packets key ≡ none
      → cross_ack_handling key.path_id key.packet_number s
        ≡ returned (record s { dup_packets = delete key s.dup_packets })
  unfolding cross_ack_handling
  cross_ack_unknown key s e = rw e refl

==_ne : (a b : ℕ) → a ≢ b → (a == b) ≡ false
==_ne a b ne = ground arith

same_dup_refl : (a : DupId) → same_dup a a ≡ true
same_dup_refl a = ground (arith, ==_iff a.path_id a.path_id, ==_iff a.packet_number a.packet_number)

same_dup_ne : (a b : DupId) → a ≢ b → same_dup a b ≡ false
same_dup_ne a b ne = elim (Bool-cases (same_dup a b)) [ inl e ↦ absurd (ne (both e)) | inr e ↦ e ]
  where
    both : same_dup a b ≡ true → a ≡ b
    both e = ground (arith, ==_iff a.path_id b.path_id, ==_iff a.packet_number b.packet_number)

-- Of the two packets, the one that is acknowledged first and the other one.
abbrev pub first_of : Bool → DupId → DupId → DupId
first_of true original copy = copy
first_of false original copy = original

abbrev pub second_of : Bool → DupId → DupId → DupId
second_of true original copy = original
second_of false original copy = copy

first-ne-second :
    (copy_first : Bool) (original copy : DupId)
    → original ≢ copy
    → first_of copy_first original copy ≢ second_of copy_first original copy
first-ne-second true original copy ne e = ne (sym e)
first-ne-second false original copy ne e = ne e

module _ {E : Type 0} (original copy : DupId) (s : Duplicates E) (ne : original ≢ copy) where
  both_mapped :
      (copy_first : Bool)
      → (add_duplicate true original copy s).dup_packets (first_of copy_first original copy)
        ≡ some (second_of copy_first original copy)
  unfolding add_duplicate
  both_mapped true = rw (same_dup_refl copy) refl
  both_mapped false = rw (same_dup_ne original copy ne, same_dup_refl original) refl

  others_kept :
      (copy_first : Bool) (j : DupId)
      → j ≢ first_of copy_first original copy
      → j ≢ second_of copy_first original copy
      → (add_duplicate true original copy s).dup_packets j ≡ s.dup_packets j
  unfolding add_duplicate
  others_kept true j n1 n2 = rw (same_dup_ne j copy n1, same_dup_ne j original n2) refl
  others_kept false j n1 n2 = rw (same_dup_ne j copy n2, same_dup_ne j original n1) refl

delete_same : (a : DupId) (dups : DupId → Option DupId) → delete a dups a ≡ none
delete_same a dups = rw (same_dup_refl a) refl

delete_other : (a j : DupId) (dups : DupId → Option DupId) → j ≢ a → delete a dups j ≡ dups j
delete_other a j dups ne = rw (same_dup_ne j a ne) refl

delete_both :
    (a b : DupId) (dups : DupId → Option DupId)
    → a ≢ b
    → (delete a (delete b dups) a ≡ none)
      × (delete a (delete b dups) b ≡ none)
      × ((j : DupId) → j ≢ a → j ≢ b → delete a (delete b dups) j ≡ dups j)
delete_both a b dups ne = (
  delete_same a (delete b dups),
  delete_other a b (delete b dups) (λ e. ne (sym e)) ∙ delete_same b dups,
  λ j n1 n2. delete_other a j (delete b dups) n1 ∙ delete_other b j dups n2,
)

module _ {E : Type 0} (c : Environment E) where
  -- When a packet and its duplicate are mapped to each other, the acknowledgment of either takes
  -- the other one out of the sent packet handler of its path and out of no other, and both mappings
  -- are forgotten and no others. The later acknowledgment of the other one removes nothing.
  pub cross_ack_handling_once :
      (copy_first : Bool) (original copy : DupId) (s : Duplicates E) (h : SentPacketHandler E)
      → original ≢ copy
      → s.handlers (second_of copy_first original copy).path_id ≡ some h
      → (s' : Duplicates E) × (s'' : Duplicates E) × (cross_ack_handling c
            (first_of copy_first original copy).path_id
            (first_of copy_first original copy).packet_number
            (add_duplicate true original copy s)
          ≡ returned s')
        × (s'.handlers (second_of copy_first original copy).path_id
            ≡ some
                (remove_packet_by_number c (second_of copy_first original copy).packet_number h).1)
        × ((j : ℕ)
            → j ≢ (second_of copy_first original copy).path_id
            → s'.handlers j ≡ s.handlers j)
        × (cross_ack_handling c
              (second_of copy_first original copy).path_id
              (second_of copy_first original copy).packet_number
              s'
            ≡ returned s'')
        × (s''.handlers ≡ s'.handlers)
        × (s''.dropped_duplicated_packets ≡ s'.dropped_duplicated_packets)
        × (s''.dup_packets (first_of copy_first original copy) ≡ none)
        × (s''.dup_packets (second_of copy_first original copy) ≡ none)
        × ((j : DupId)
            → j ≢ first_of copy_first original copy
            → j ≢ second_of copy_first original copy
            → s''.dup_packets j ≡ s.dup_packets j)
  unfolding add_duplicate
  cross_ack_handling_once copy_first original copy s h ne eh = (
    s1,
    record s1 { dup_packets = delete second s1.dup_packets },
    cross_ack_found c first second start h (both_mapped original copy s ne copy_first) eh,
    handler_replaced,
    other_handlers,
    cross_ack_unknown c second s1 (deleted.1),
    refl,
    refl,
    delete_other second first s1.dup_packets apart ∙ deleted.0,
    delete_same second s1.dup_packets,
    λ j n1 n2.
        delete_other second j s1.dup_packets n2
        ∙ deleted.2 j n1 n2
        ∙ others_kept original copy s ne copy_first j n1 n2,
  )
    where
      first : DupId
      first = first_of copy_first original copy

      second : DupId
      second = second_of copy_first original copy

      apart : first ≢ second
      apart = first-ne-second copy_first original copy ne

      start : Duplicates E
      start = add_duplicate true original copy s

      after : Duplicates E
      after = dropped c second.path_id (remove_packet_by_number c second.packet_number h) start

      s1 : Duplicates E
      s1 = record after { dup_packets = delete first (delete second after.dup_packets) }

      deleted :
          (s1.dup_packets first ≡ none)
          × (s1.dup_packets second ≡ none)
          × ((j : DupId) → j ≢ first → j ≢ second → s1.dup_packets j ≡ start.dup_packets j)
      deleted = delete_both first second start.dup_packets apart

      handler_replaced :
          s1.handlers second.path_id ≡ some (remove_packet_by_number c second.packet_number h).1
      handler_replaced = rw ((==_iff second.path_id second.path_id).1 refl) refl

      other_handlers : (j : ℕ) → j ≢ second.path_id → s1.handlers j ≡ s.handlers j
      other_handlers j ne' = rw (==_ne j second.path_id ne') refl
