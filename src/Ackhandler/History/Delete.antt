-- ===== src/Ackhandler/History/Delete.antt =====
-- DeleteUpTo keeps exactly the packet numbers above its argument, and the intervals in order.
use mpquic_latency.Base.{
  ℕ, ◌+◌, ◌<◌, ◌^◌, ◌≤◌, ◌≡◌, refl, Bool, true, false, ◌&&◌, List, [], ◌∷◌, ltb, arith,
}
use mpquic_latency.Ackhandler.History.{
  PacketInterval, delete_step, delete_loop, contains, Below, IsDescending,
}

contains-delete_step :
    (x p : ℕ) (el : PacketInterval) (rest : List PacketInterval) (r : Bool × List PacketInterval)
    → p + 1 < 2 ^ 64
    → (r.0 ≡ true → p < el.start)
    → contains x r.1 ≡ (contains x rest && ltb p x)
    → contains x (delete_step p el r).1 ≡ (contains x (el ∷ rest) && ltb p x)
unfolding delete_step
contains-delete_step x p el rest (true, l) b s h = rw h (let t = s refl in ground arith)
contains-delete_step x p el rest (false, l) b s h = ground arith

-- What holds of the loop's result on the intervals `l`.
record Deleted (p : ℕ) (l : List PacketInterval) (r : Bool × List PacketInterval) : Type 0 where
  stopped_above : (n : ℕ) → Below n l → r.0 ≡ true → p < n
  below : (n : ℕ) → Below n l → Below n r.1
  ordered : IsDescending r.1

step_stopped :
    (p : ℕ) (el : PacketInterval) (rest : List PacketInterval) (r : Bool × List PacketInterval)
    (n : ℕ)
    → (r.0 ≡ true → p < el.start)
    → el.start ≤ el.end
    → el.end + 1 < n
    → (delete_step p el r).0 ≡ true
    → p < n
unfolding delete_step
step_stopped p el rest (true, l) n s o b e = let t = s refl in omega arith
step_stopped p el rest (false, l) n s o b e = ground arith

step-Below :
    (p : ℕ) (el : PacketInterval) (r : Bool × List PacketInterval) (n : ℕ)
    → el.start ≤ el.end
    → el.end + 1 < n
    → Below el.start r.1
    → Below n (delete_step p el r).1
unfolding delete_step
step-Below p el (true, l) n o b c = b
step-Below p el (false, []) n o b c = ground arith
step-Below p el (false, q ∷ l) n o b c = ground arith

step_ordered :
    (p : ℕ) (el : PacketInterval) (r : Bool × List PacketInterval)
    → p + 1 < 2 ^ 64
    → el.start ≤ el.end
    → el.end + 1 < 2 ^ 64
    → Below el.start r.1
    → IsDescending r.1
    → IsDescending (delete_step p el r).1
unfolding delete_step
step_ordered p el (true, l) b o m c d = (o, m, c, d)
step_ordered p el (false, []) b o m c d = ground arith
step_ordered p el (false, q ∷ l) b o m c d = ground arith

delete_loop-Deleted :
    (p : ℕ) (l : List PacketInterval)
    → p + 1 < 2 ^ 64
    → IsDescending l
    → Deleted p l (delete_loop p l)
unfolding delete_loop
delete_loop-Deleted p [] b d = record {
  stopped_above = λ n h e. cc;
  below = λ n h. tt;
  ordered = tt;
}
delete_loop-Deleted p (el ∷ rest) b d =
    let ih = delete_loop-Deleted p rest b d.3 in
    let c = ih.below el.start d.2 in
    record {
      stopped_above = λ n h.
          step_stopped p el rest (delete_loop p rest) n (ih.stopped_above el.start d.2) d.0 h;
      below = λ n h. step-Below p el (delete_loop p rest) n d.0 h c;
      ordered = step_ordered p el (delete_loop p rest) b d.0 d.1 c ih.ordered;
    }

pub delete_loop-IsDescending :
    (p : ℕ) (l : List PacketInterval)
    → p + 1 < 2 ^ 64
    → IsDescending l
    → IsDescending (delete_loop p l).1
delete_loop-IsDescending p l b d = (delete_loop-Deleted p l b d).ordered

pub contains-delete_loop :
    (x p : ℕ) (l : List PacketInterval)
    → p + 1 < 2 ^ 64
    → IsDescending l
    → contains x (delete_loop p l).1 ≡ (contains x l && ltb p x)
unfolding delete_loop
contains-delete_loop x p [] b d = refl
contains-delete_loop x p (el ∷ rest) b d =
    contains-delete_step x p el rest (delete_loop p rest) b
      ((delete_loop-Deleted p rest b d.3).stopped_above el.start d.2)
      (contains-delete_loop x p rest b d.3)
