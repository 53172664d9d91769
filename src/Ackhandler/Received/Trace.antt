-- ===== src/Ackhandler/Received/Trace.antt =====
-- The receiving side over a sequence of calls, against a set of packet numbers with a limit.
use mpquic_latency.Base.{
  ℕ, ◌+◌, ◌<◌, ◌^◌, ◌≡◌, refl, Bool, false, ◌&&◌, ◌||◌, List, [], ◌∷◌, ltb, leb, if◌then◌else◌,
  ◌==◌, none, some, arith, Bool-cases, inl, inr, returned, ◌∙◌,
}
use mpquic_latency.Wire.AckFrame.{AckFrame, acks_packet}
use mpquic_latency.Ackhandler.History.{
  PacketInterval, IsDescending, contains, insert_range, delete_up_to,
}
use mpquic_latency.Ackhandler.History.Insert.{contains-insert_range}
use mpquic_latency.Ackhandler.History.Delete.{contains-delete_loop}
use mpquic_latency.Ackhandler.Received.{
  ReceivedPacketHandler, new_received_packet_handler, received_packet, set_lower_limit,
  get_ack_frame, ack_sent,
}
use mpquic_latency.Ackhandler.Received.Inv.{
  IsValid, new_received_packet_handler-IsValid, received_packet_effect,
}
use mpquic_latency.Ackhandler.Received.Keeps.{received_packet-IsValid, set_lower_limit-IsValid}
use mpquic_latency.Ackhandler.Received.Ack.{IsDue, get_ack_frame_due, ack_sent-IsValid}

-- A packet with its number, whether it instigates an ACK, its stream bytes and the time; a
-- STOP_WAITING frame's limit; an ACK frame that was sent.
pub data Call : Type 0 where
  packet : ℕ → Bool → ℕ → ℕ → Call
  stop_waiting : ℕ → Call
  acked : AckFrame → Call

-- A call goes on to the next only if it returns no error. As in the session, a limit lies below the
-- packet that brought it, which was registered before.
pub data Step : ReceivedPacketHandler → Call → ReceivedPacketHandler → Type 0 where
  receive :
      {h : ReceivedPacketHandler} (n : ℕ) (s : Bool) (len now : ℕ)
      → n + 1 < 2 ^ 64
      → (received_packet n s len now h).0 ≡ none
      → Step h (packet n s len now) (received_packet n s len now h).1
  limit :
      {h : ReceivedPacketHandler} (p : ℕ)
      → p < h.largest_observed
      → Step h (stop_waiting p) (set_lower_limit p h)
  ack :
      {h : ReceivedPacketHandler} (now : ℕ) (frame : AckFrame)
      → get_ack_frame now h ≡ returned (some frame, ack_sent frame h)
      → Step h (acked frame) (ack_sent frame h)

-- The calls so far, the last one first.
pub data Run (version : ℕ) : List Call → ReceivedPacketHandler → Type 0 where
  start : Run version [] (new_received_packet_handler version)
  next :
      {cs : List Call} {c : Call} {h h' : ReceivedPacketHandler}
      → Run version cs h
      → Step h c h'
      → Run version (c ∷ cs) h'

-- The specification: the limit that was set last, and whether `x` is to be acknowledged.
abbrev pub last_limit : List Call → ℕ
last_limit [] = 0
last_limit (packet n s len now ∷ cs) = last_limit cs
last_limit (stop_waiting p ∷ cs) = p
last_limit (acked frame ∷ cs) = last_limit cs

abbrev pub to_be_acked : ℕ → List Call → Bool
to_be_acked x [] = false
to_be_acked x (packet n s len now ∷ cs) = (x == n && ltb (last_limit cs) n) || to_be_acked x cs
to_be_acked x (stop_waiting p ∷ cs) = to_be_acked x cs && ltb p x
to_be_acked x (acked frame ∷ cs) = to_be_acked x cs

pub Step-IsValid : {h h' : ReceivedPacketHandler} {c : Call} → Step h c h' → IsValid h → IsValid h'
Step-IsValid {h} (receive n s len now b e) v = received_packet-IsValid n s len now h b e v
Step-IsValid {h} (limit p b) v = set_lower_limit-IsValid p h b v
Step-IsValid {h} (ack now frame e) v = ack_sent-IsValid frame h v

-- Every state that calls lead to from the start satisfies the invariant.
pub Run-IsValid :
    {version : ℕ} {cs : List Call} {h : ReceivedPacketHandler} → Run version cs h → IsValid h
Run-IsValid {version} start = new_received_packet_handler-IsValid version
Run-IsValid (next r s) = Step-IsValid s (Run-IsValid r)

record Holds (cs : List Call) (h : ReceivedPacketHandler) : Type 0 where
  same_limit : h.lower_limit ≡ last_limit cs
  members : (x : ℕ) → contains x h.packet_history.ranges ≡ to_be_acked x cs

members_after :
    (x n lim : ℕ) (l : List PacketInterval) (held : Bool)
    → n + 1 < 2 ^ 64
    → IsDescending l
    → contains x l ≡ held
    → contains x (if leb n lim then l else insert_range n l) ≡ ((x == n && ltb lim n) || held)
members_after x n lim l held b d e = elim (Bool-cases (leb n lim)) [
  | inl q ↦ rw (q, e) (ground arith)
  | inr q ↦ rw (q, contains-insert_range x n l b d, e) (ground arith)
]

Step-Holds :
    {h h' : ReceivedPacketHandler} {c : Call} (cs : List Call)
    → Step h c h'
    → IsValid h
    → Holds cs h
    → Holds (c ∷ cs) h'
Step-Holds {h} cs (receive n s len now b e) v k =
    let (pos, largest, lower, ranges) = received_packet_effect n s len now h e in
    record {
      same_limit = lower ∙ k.same_limit;
      members = λ x.
          rw (ranges, ← k.same_limit)
            (members_after x n h.lower_limit h.packet_history.ranges _ b v.ordered (k.members x));
    }
Step-Holds {h} cs (limit p b) v k =
    unfold set_lower_limit delete_up_to in
    record {
      same_limit = refl;
      members = λ x. rw (
        contains-delete_loop x p h.packet_history.ranges (omega (arith, v.largest_fits)) v.ordered,
        k.members x,
      );
    }
Step-Holds {h} cs (ack now frame e) v k =
    unfold ack_sent in record { same_limit = k.same_limit; members = k.members }

Run-Holds :
    {version : ℕ} {cs : List Call} {h : ReceivedPacketHandler} → Run version cs h → Holds cs h
Run-Holds start =
    unfold new_received_packet_handler in record { same_limit = refl; members = λ x. refl }
Run-Holds (next {cs} r s) = Step-Holds cs s (Run-IsValid r) (Run-Holds r)

-- After any sequence of calls from the start, an ACK that is due is sent, and its frame acknowledges
-- a packet number exactly when that packet was received above the limit of its time, and no limit
-- that was set since reaches it.
pub Run-acks :
    {version : ℕ} {cs : List Call} {h : ReceivedPacketHandler} (now : ℕ)
    → Run version cs h
    → IsDue now h
    → (frame : AckFrame) × (get_ack_frame now h ≡ returned (some frame, ack_sent frame h))
      × ((x : ℕ) → acks_packet frame x ≡ to_be_acked x cs)
Run-acks {h} now r q =
    let (frame, e, reports) = get_ack_frame_due now h q (Run-IsValid r) in
    let held = Run-Holds r in (frame, e, λ x. reports.exact x ∙ held.members x)
