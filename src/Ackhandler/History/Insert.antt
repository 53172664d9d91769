-- ===== src/Ackhandler/History/Insert.antt =====
-- ReceivedPacket adds exactly the packet number that it is given, and keeps the intervals in order.
use mpquic_latency.Base.{
  ℕ, ◌+◌, ◌<◌, ◌≤◌, ◌^◌, ◌≡◌, ◌&&◌, ◌||◌, List, [], ◌∷◌, ◌==◌, leb, ltb, arith, sub64, u64,
  Bool-cases, inl, inr,
}
use mpquic_latency.Ackhandler.History.{
  PacketInterval, merge_prev, insert_range, contains, in_interval, Below, IsDescending,
}

-- Like `Below`, but the next interval may be adjacent.
abbrev MayTouch : ℕ → List PacketInterval → Type 0
MayTouch n [] = Unit
MayTouch n (r ∷ rest) = (r.start ≤ r.end) × (r.end < n)

-- A merge of neighbours covers what the two cover.
contains-merge_prev :
    (x : ℕ) (el : PacketInterval) (rest : List PacketInterval)
    → el.start ≤ el.end
    → el.end + 1 < 2 ^ 64
    → MayTouch el.start rest
    → contains x (merge_prev el rest) ≡ (in_interval x el || contains x rest)
unfolding merge_prev
contains-merge_prev x el [] a b c = ground arith
contains-merge_prev x el (prev ∷ rest) a b c = ground arith

merge_prev-IsDescending :
    (el : PacketInterval) (rest : List PacketInterval)
    → el.start ≤ el.end
    → el.end + 1 < 2 ^ 64
    → MayTouch el.start rest
    → IsDescending rest
    → IsDescending (merge_prev el rest)
unfolding merge_prev
merge_prev-IsDescending el [] a b c d = ground arith
merge_prev-IsDescending el (prev ∷ rest) a b c d = ground arith

Below-MayTouch :
    (n m : ℕ) (rest : List PacketInterval)
    → Below n rest
    → IsDescending rest
    → n ≤ m + 1
    → MayTouch m rest
Below-MayTouch n m [] h d e = tt
Below-MayTouch n m (r ∷ rest) h d e = omega arith

-- What one round of the loop does, by where `p` lies.
data Round (p : ℕ) (el : PacketInterval) (rest : List PacketInterval)
    : List PacketInterval → Type 0 where
  inside : el.start ≤ p → p ≤ el.end → Round p el rest (el ∷ rest)
  at_end : el.end + 1 ≡ p → Round p el rest (merge_prev (record el { end = p }) rest)
  at_start : p + 1 ≡ el.start → Round p el rest (merge_prev (record el { start = p }) rest)
  above : el.end + 1 < p → Round p el rest (record { start = p; end = p } ∷ el ∷ rest)
  below : p + 1 < el.start → Round p el rest (el ∷ insert_range p rest)

insert_range-Round :
    (p : ℕ) (el : PacketInterval) (rest : List PacketInterval)
    → p + 1 < 2 ^ 64
    → el.start ≤ el.end
    → el.end + 1 < 2 ^ 64
    → Round p el rest (insert_range p (el ∷ rest))
unfolding insert_range
insert_range-Round p el rest b c d = elim (Bool-cases (leb el.start p && leb p el.end)) [
  | inl e ↦ rw e (inside (ground arith) (ground arith))
  | inr e ↦ rw e (elim (Bool-cases (el.end == sub64 p 1)) [
    | inl f ↦ rw f (at_end (ground arith))
    | inr f ↦ rw f (elim (Bool-cases (el.start == u64 (p + 1))) [
      | inl g ↦ rw g (at_start (ground arith))
      | inr g ↦ rw g (elim (Bool-cases (ltb el.end p)) [
        | inl k ↦ rw k (above (ground arith))
        | inr k ↦ rw k (below (ground arith))
      ])
    ])
  ])
]

contains-Round :
    (x p : ℕ) (el : PacketInterval) (rest l : List PacketInterval)
    → Round p el rest l
    → p + 1 < 2 ^ 64
    → IsDescending (el ∷ rest)
    → contains x (insert_range p rest) ≡ (x == p || contains x rest)
    → contains x l ≡ (x == p || contains x (el ∷ rest))
contains-Round x p el rest _ (inside u v) b d ih = ground arith
contains-Round x p el rest _ (at_end u) b d ih =
    rw
      (contains-merge_prev x (record el { end = p }) rest (omega arith) (omega arith)
        (Below-MayTouch el.start el.start rest d.2 d.3 (omega arith)))
      (ground arith)
contains-Round x p el rest _ (at_start u) b d ih =
    rw
      (contains-merge_prev x (record el { start = p }) rest (omega arith) (omega arith)
        (Below-MayTouch el.start p rest d.2 d.3 (omega arith)))
      (ground arith)
contains-Round x p el rest _ (above u) b d ih = ground arith
contains-Round x p el rest _ (below u) b d ih = rw ih (ground arith)

-- Registering `p` adds `p` and nothing else.
pub contains-insert_range :
    (x p : ℕ) (l : List PacketInterval)
    → p + 1 < 2 ^ 64
    → IsDescending l
    → contains x (insert_range p l) ≡ (x == p || contains x l)
contains-insert_range x p [] b d = unfold insert_range in ground arith
contains-insert_range x p (el ∷ rest) b d =
    contains-Round x p el rest _ (insert_range-Round p el rest b d.0 d.1) b d
      (contains-insert_range x p rest b d.3)

Below-insert_range :
    (n p : ℕ) (l : List PacketInterval)
    → p + 1 < n
    → Below n l
    → IsDescending l
    → Below n (insert_range p l)
unfolding insert_range merge_prev
Below-insert_range n p [] b c d = ground arith
Below-insert_range n p (el ∷ []) b c d = ground arith
Below-insert_range n p (el ∷ prev ∷ rest) b c d = ground arith

pub insert_range-IsDescending :
    (p : ℕ) (l : List PacketInterval)
    → p + 1 < 2 ^ 64
    → IsDescending l
    → IsDescending (insert_range p l)
unfolding insert_range
insert_range-IsDescending p [] b d = ground arith
insert_range-IsDescending p (el ∷ rest) b d = ground (
  arith,
  insert_range-IsDescending p rest,
  Below-insert_range el.start p rest,
  merge_prev-IsDescending (record el { end = p }) rest,
  merge_prev-IsDescending (record el { start = p }) rest,
  Below-MayTouch el.start el.start rest,
  Below-MayTouch el.start p rest,
)
