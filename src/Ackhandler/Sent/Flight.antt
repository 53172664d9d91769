-- ===== src/Ackhandler/Sent/Flight.antt =====
-- The packets in flight: the history in the order of its packet numbers, and the bytes that are
-- counted for it.
use mpquic_latency.Base.{
  ℕ, ◌+◌, ◌<◌, ◌≤◌, ◌^◌, ◌≡◌, refl, true, false, List, [], ◌∷◌, ◌==◌, All, u64, sub64, arith,
  Bool-cases, inl, inr,
}
use mpquic_latency.Ackhandler.Packet.{Packet, has_retransmittable_frames}
use mpquic_latency.Ackhandler.Sent.Loss.{remove_packet}
use mpquic_latency.Ackhandler.Sent.Ops.{removed_bytes}

-- Packet numbers rise, from above `lo`.
abbrev pub Ascends : ℕ → List Packet → Type 0
Ascends lo [] = Unit
Ascends lo (p ∷ rest) = (lo < p.packet_number) × Ascends p.packet_number rest

abbrev pub total : List Packet → ℕ
total [] = 0
total (p ∷ rest) = p.length + total rest

-- What the history asks of each packet: it was sent, and it has something to retransmit.
abbrev pub IsTracked : ℕ → Packet → Type 0
IsTracked last p =
    (p.packet_number ≤ last) × (p.length < 2 ^ 64) × (has_retransmittable_frames p.frames ≡ true)

pub record Flight (last : ℕ) (history : List Packet) (bytes : ℕ) : Type 0 where
  pub ascends : Ascends 0 history
  pub tracked : All (IsTracked last) history
  pub in_flight : bytes ≡ u64 (total history)

-- `ps` are packets of the history, in its order.
pub data Sub : List Packet → List Packet → Type 0 where
  nothing : {l : List Packet} → Sub [] l
  skip : {ps l : List Packet} {q : Packet} → Sub ps l → Sub ps (q ∷ l)
  take : {ps l : List Packet} {p : Packet} → Sub ps l → Sub (p ∷ ps) (p ∷ l)

Ascends-weaken : (lo lo' : ℕ) (l : List Packet) → lo' ≤ lo → Ascends lo l → Ascends lo' l
Ascends-weaken lo lo' [] h a = tt
Ascends-weaken lo lo' (p ∷ l) h a = (omega arith, a.1)

Sub-above :
    {p : Packet} {ps l : List Packet} (lo : ℕ)
    → Sub (p ∷ ps) l
    → Ascends lo l
    → lo < p.packet_number
Sub-above lo (skip {q = q} s) a = let t = Sub-above q.packet_number s a.1 in omega arith
Sub-above lo (take s) a = a.0

pub remove_packet-Ascends :
    (n lo : ℕ) (l : List Packet) → Ascends lo l → Ascends lo (remove_packet n l)
unfolding remove_packet
remove_packet-Ascends n lo [] a = tt
remove_packet-Ascends n lo (p ∷ l) a = elim (Bool-cases (p.packet_number == n)) [
  | inl e ↦ rw e (Ascends-weaken p.packet_number lo l (omega arith) a.1)
  | inr e ↦ rw e (a.0, remove_packet-Ascends n p.packet_number l a.1)
]

pub remove_packet-All {ℓ} :
    (P : Packet → Type ℓ) (n : ℕ) (l : List Packet) → All P l → All P (remove_packet n l)
unfolding remove_packet
remove_packet-All P n [] a = a
remove_packet-All P n (p ∷ l) a = elim (Bool-cases (p.packet_number == n)) [
  | inl e ↦ rw e a.1
  | inr e ↦ rw e (a.0, remove_packet-All P n l a.1)
]

-- Taking a packet out takes out its length, and the packets behind it stay.
Sub-remove :
    {p : Packet} {ps l : List Packet} (lo : ℕ)
    → Sub (p ∷ ps) l
    → Ascends lo l
    → Sub ps (remove_packet p.packet_number l)
      × (total l ≡ p.length + total (remove_packet p.packet_number l))
unfolding remove_packet
Sub-remove {p} lo (skip {q = q} s) a =
    let t = Sub-above q.packet_number s a.1 in
    let (sub, sum) = Sub-remove q.packet_number s a.1 in
    let e : (q.packet_number == p.packet_number) ≡ false = ground arith in
    rw e (skip sub, omega arith)
Sub-remove {p} lo (take s) a =
    let e : (p.packet_number == p.packet_number) ≡ true = ground arith in rw e (s, refl)

pub total-removed_bytes :
    (n : ℕ) (l : List Packet) → total l ≡ removed_bytes n l + total (remove_packet n l)
unfolding removed_bytes remove_packet
total-removed_bytes n [] = omega arith
total-removed_bytes n (p ∷ l) = ground (arith, total-removed_bytes n l)

pub removed_bytes-lt :
    (last n : ℕ) (l : List Packet) → All (IsTracked last) l → removed_bytes n l < 2 ^ 64
unfolding removed_bytes
removed_bytes-lt last n [] a = omega arith
removed_bytes-lt last n (p ∷ l) a = ground (arith, removed_bytes-lt last n l a.1)

sub64-add :
    (bytes len rest : ℕ) → len < 2 ^ 64 → bytes ≡ u64 (len + rest) → sub64 bytes len ≡ u64 rest
sub64-add bytes len rest h e = omega arith

-- A removal by number, with the bytes that RemovePacketByNumber answers.
pub Flight-removed :
    (last n : ℕ) (l : List Packet) (bytes : ℕ)
    → Flight last l bytes
    → Flight last (remove_packet n l) (sub64 bytes (removed_bytes n l))
Flight-removed last n l bytes f = record {
  ascends = remove_packet-Ascends n 0 l f.ascends;
  tracked = remove_packet-All (IsTracked last) n l f.tracked;
  in_flight =
      sub64-add bytes (removed_bytes n l) (total (remove_packet n l))
        (removed_bytes-lt last n l f.tracked) (rw (← total-removed_bytes n l) f.in_flight);
}

Sub-tracked :
    {p : Packet} {ps l : List Packet} (last : ℕ)
    → Sub (p ∷ ps) l
    → All (IsTracked last) l
    → p.length < 2 ^ 64
Sub-tracked last (skip s) a = Sub-tracked last s a.1
Sub-tracked last (take s) a = a.0.1

-- A removal of a packet of the history.
pub Flight-take :
    {p : Packet} {ps : List Packet} {last : ℕ} {l : List Packet} {bytes : ℕ}
    → Sub (p ∷ ps) l
    → Flight last l bytes
    → Sub ps (remove_packet p.packet_number l)
      × Flight last (remove_packet p.packet_number l) (sub64 bytes p.length)
Flight-take {p} {last = last} {l} {bytes} s f =
    let (sub, sum) = Sub-remove 0 s f.ascends in
    (
      sub,
      record {
        ascends = remove_packet-Ascends p.packet_number 0 l f.ascends;
        tracked = remove_packet-All (IsTracked last) p.packet_number l f.tracked;
        in_flight =
            sub64-add bytes p.length (total (remove_packet p.packet_number l))
              (Sub-tracked last s f.tracked) (rw (← sum) f.in_flight);
      },
    )
