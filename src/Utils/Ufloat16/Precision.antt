-- ===== src/Utils/Ufloat16/Precision.antt =====
-- How much of a value its 16-bit encoding keeps.
use mpquic_latency.Base.{
  ℕ, zero, suc, sym, ◌+◌, ◌-◌, ◌*◌, ◌/◌, ◌%◌, ◌^◌, ◌<◌, ◌≤◌, ◌≡◌, refl, false, ltb, leb, u64, min,
  arith, Bool-cases, inl, inr,
}
use native.Mathlib.Nat.{
  mul-le-mul, mul-le-mul_right, pow-le-pow_right, pow-suc, div-add-mod', mod-lt, le-div_iff_mul-le,
  div-lt_iff_lt-mul,
}
use mpquic_latency.Utils.Ufloat16.{max_value, read_ufloat16, shift_right, normalize, write_ufloat16}

-- `s.1` is `v` shifted by `s.0`, and of 12 bits after `bits` more.
record Shifted (v bits : ℕ) (s : ℕ × ℕ) : Type 0 where
  low : s.1 * 2 ^ s.0 ≤ v
  high : v < s.1 * 2 ^ s.0 + 2 ^ s.0
  normal : 2 ^ 11 ≤ s.1
  below : s.1 < 2 ^ (12 + bits)
  exponent_below : s.0 + bits < 32

cut_product :
    (v p q o q' r : ℕ)
    → q ≡ q' * o + r
    → r < o
    → q * p ≤ v
    → v < q * p + p
    → (q' * (p * o) ≤ v) × (v < q' * (p * o) + p * o)
cut_product v p q o q' r e l a b =
    let m : (r + 1) * p ≤ o * p = mul-le-mul_right p (omega arith) in
    let n : q * p ≡ q' * (p * o) + r * p = rw e (omega arith) in (omega arith, omega arith)

pow-add : (k o : ℕ) → 2 ^ (k + o) ≡ 2 ^ k * 2 ^ o
pow-add k zero = let e : k + 0 ≡ k = omega arith in rw e (omega arith)
pow-add k (suc o) =
    let e : k + suc o ≡ suc (k + o) = omega arith in
    rw (e, pow-suc 2 (k + o), pow-suc 2 o, pow-add k o) (omega arith)

shift_right-Shifted :
    (v o bits : ℕ) (s : ℕ × ℕ)
    → 2 ^ (11 + o) ≡ 2 ^ (12 + bits)
    → 2 ^ (12 + (bits + o)) ≡ 2 ^ (12 + bits) * 2 ^ o
    → 2 ^ (11 + o) ≡ 2 ^ 11 * 2 ^ o
    → 0 < 2 ^ o
    → Shifted v (bits + o) s
    → Shifted v bits (shift_right o s)
unfolding shift_right
shift_right-Shifted v o bits (k, q) e f g z h = elim (Bool-cases (leb (2 ^ (11 + o)) q)) [
  | inr t ↦ rw t (record {
    low = h.low;
    high = h.high;
    normal = h.normal;
    below = ground arith;
    exponent_below = omega (arith, h.exponent_below);
  })
  | inl t ↦
      let c =
        cut_product v (2 ^ k) q (2 ^ o) (q / 2 ^ o) (q % 2 ^ o) (sym (div-add-mod' q (2 ^ o)))
          (mod-lt q z) h.low h.high in
      rw t (record {
        low = rw (pow-add k o) c.0;
        high = rw (pow-add k o) c.1;
        normal = (le-div_iff_mul-le z).1 (ground arith);
        below = (div-lt_iff_lt-mul z).1 (omega (arith, h.below));
        exponent_below = omega (arith, h.exponent_below);
      })
]

normalize-Shifted : (v : ℕ) → 2 ^ 11 ≤ v → v < 2 ^ 42 → Shifted v 0 (normalize v)
unfolding normalize
normalize-Shifted v a b = shift_right-Shifted v 1 0 _ refl refl refl (omega arith) (
    shift_right-Shifted v 2 1 _ refl refl refl (omega arith) (
      shift_right-Shifted v 4 3 _ refl refl refl (omega arith) (
        shift_right-Shifted v 8 7 _ refl refl refl (omega arith) (
          shift_right-Shifted v 16 15 (0, v) refl refl refl (omega arith)
            (record {
              low = omega arith;
              high = omega arith;
              normal = a;
              below = omega arith;
              exponent_below = omega arith;
            })))))

exponent_positive : (v k q : ℕ) → 2 ^ 12 ≤ v → Shifted v 0 (k, q) → 0 < k
exponent_positive v zero q a s = absurd (omega (arith, s.high, s.below))
exponent_positive v (suc k) q a s = omega arith

exponent_fits : (v k q : ℕ) → v < 2 ^ 42 → Shifted v 0 (k, q) → k ≤ 30
exponent_fits v k q b s = elim (Bool-cases (leb 31 k)) [
  | inl t ↦
      let m : 2 ^ 31 ≤ 2 ^ k = pow-le-pow_right (omega arith) {i = 31} {j = k} (ground arith) in
      let n : 2 ^ 11 * 2 ^ 31 ≤ q * 2 ^ k = mul-le-mul s.normal m in absurd (omega (arith, s.low))
  | inr t ↦ ground arith
]

read-packed :
    (k q : ℕ)
    → 0 < k
    → k ≤ 30
    → 2 ^ 11 ≤ q
    → q < 2 ^ 12
    → read_ufloat16 ((q % 2 ^ 16 + k * 2 ^ 11 % 2 ^ 16) % 2 ^ 16) ≡ u64 (q * 2 ^ k)
unfolding read_ufloat16
read-packed k q a b c d =
    let packed : (q % 2 ^ 16 + k * 2 ^ 11 % 2 ^ 16) % 2 ^ 16 ≡ q + k * 2 ^ 11 = omega arith in
    let large : ltb (q + k * 2 ^ 11) (2 ^ 12) ≡ false = ground arith in
    let exponent : (q + k * 2 ^ 11) / 2 ^ 11 - 1 ≡ k = omega arith in
    let mantissa : q + k * 2 ^ 11 - k * 2 ^ 11 ≡ q = omega arith in
    rw (packed, large, exponent, mantissa) refl

Close : ℕ → ℕ → Type 0
Close v d = (d ≤ v) × (2 ^ 11 * (min v max_value - d) ≤ d)

read-normalize :
    (v : ℕ) (s : ℕ × ℕ)
    → 2 ^ 12 ≤ v
    → v < max_value
    → Shifted v 0 s
    → Close v (read_ufloat16 ((s.1 % 2 ^ 16 + s.0 * 2 ^ 11 % 2 ^ 16) % 2 ^ 16))
unfolding Close
read-normalize v (k, q) a b s =
    let least = exponent_positive v k q a s in
    let most = exponent_fits v k q (omega arith) s in
    let m : 2 ^ 11 * 2 ^ k ≤ q * 2 ^ k = mul-le-mul_right (2 ^ k) s.normal in
    let fits : u64 (q * 2 ^ k) ≡ q * 2 ^ k = omega (arith, s.low) in
    rw (read-packed k q least most s.normal s.below, fits) (s.low, omega (arith, s.high, s.low))

-- What is written is read back as no larger a value, and loses less than one part in 2048 of a
-- value up to the largest one that can be represented; a larger value is cut to that one.
pub read-write_ufloat16 :
    (v : ℕ)
    → (read_ufloat16 (write_ufloat16 v) ≤ v)
      × (2 ^ 11 * (min v max_value - read_ufloat16 (write_ufloat16 v))
          ≤ read_ufloat16 (write_ufloat16 v))
unfolding write_ufloat16 Close
read-write_ufloat16 v = elim (Bool-cases (ltb v (2 ^ 12))) [
  | inl e ↦ rw e (unfold read_ufloat16 in rw e (ground arith))
  | inr e ↦ elim (Bool-cases (leb max_value v)) [
    | inl f ↦ rw (e, f) (unfold read_ufloat16 in ground arith)
    | inr f ↦
        rw (e, f)
          (read-normalize v (normalize v) (ground arith) (ground arith)
            (normalize-Shifted v (ground arith) (ground arith)))
  ]
]
