-- ===== src/Base/Bits.antt =====
-- The exclusive or of native numbers, digit by digit: disjoint digits add up.
use Prim.Native.Nat.{
  ℕ, zero, suc, ◌+◌, ◌*◌, ◌/◌, ◌%◌, ◌^◌, ◌≤◌, ◌<◌, bit_xor, digits, differ, bit_xor-bitwise,
}
use mathlib.Core.Path.{◌≡◌, refl, sym, ap, ◌∙◌}
use mathlib.Core.Bool.{Bool, true, ◌&&◌}
use native.Mathlib.Omega.{arith}
use native.Mathlib.Nat.{pow-suc}

-- Every number below the bound passes the test.
abbrev pub all_below : ℕ → (ℕ → Bool) → Bool
all_below zero p = true
all_below (suc n) p = p n && all_below n p

pub all_below_sound : (n : ℕ) (p : ℕ → Bool) (x : ℕ) → all_below n p ≡ true → x < n → p x ≡ true
all_below_sound zero p x h lt = absurd (omega arith)
all_below_sound (suc n) p x h lt = ground (arith, all_below_sound n p x)

abbrev xor_digits : ℕ → ℕ → ℕ → ℕ
xor_digits n a b = digits (λ b. b) differ n a b

xor_digits_fuel : (n m a b : ℕ) → a ≤ n → a ≤ m → xor_digits n a b ≡ xor_digits m a b
xor_digits_fuel zero zero a b p q = refl
xor_digits_fuel zero (suc m) zero b p q = refl
xor_digits_fuel zero (suc m) (suc a) b p q = absurd (omega arith)
xor_digits_fuel (suc n) zero zero b p q = refl
xor_digits_fuel (suc n) zero (suc a) b p q = absurd (omega arith)
xor_digits_fuel (suc n) (suc m) zero b p q = refl
xor_digits_fuel (suc n) (suc m) (suc a) b p q =
    ap (λ d. d * 2 + differ (suc a % 2) (b % 2))
      (xor_digits_fuel n m (suc a / 2) (b / 2) (omega arith) (omega arith))

pub zero-bit_xor : (b : ℕ) → bit_xor 0 b ≡ b
zero-bit_xor b = bit_xor-bitwise 0 b

bit_xor-suc :
    (a b : ℕ) → bit_xor (suc a) b ≡ bit_xor (suc a / 2) (b / 2) * 2 + differ (suc a % 2) (b % 2)
bit_xor-suc a b =
    bit_xor-bitwise (suc a) b
    ∙ ap (λ d. d * 2 + differ (suc a % 2) (b % 2))
        (xor_digits_fuel a (suc a / 2) (suc a / 2) (b / 2) (omega arith) (omega arith)
          ∙ sym (bit_xor-bitwise (suc a / 2) (b / 2)))

bit_xor_step : (a b : ℕ) → bit_xor a b ≡ bit_xor (a / 2) (b / 2) * 2 + differ (a % 2) (b % 2)
bit_xor_step zero b = omega (arith, zero-bit_xor b, zero-bit_xor (b / 2))
bit_xor_step (suc a) b = bit_xor-suc a b

differ_zero : (d : ℕ) → differ d 0 ≡ d
differ_zero zero = refl
differ_zero (suc d) = refl

bit_xor-zero_fuel : (n a : ℕ) → a ≤ n → bit_xor a 0 ≡ a
bit_xor-zero_fuel n zero h = refl
bit_xor-zero_fuel zero (suc a) h = absurd (omega arith)
bit_xor-zero_fuel (suc n) (suc a) h = omega (
  arith,
  bit_xor_step (suc a) 0,
  bit_xor-zero_fuel n (suc a / 2) (omega arith),
  differ_zero (suc a % 2),
)

pub bit_xor-zero : (a : ℕ) → bit_xor a 0 ≡ a
bit_xor-zero a = bit_xor-zero_fuel a a (omega arith)

half-double : (x : ℕ) → x * 2 / 2 ≡ x
half-double x = omega arith

parity-double : (x : ℕ) → x * 2 % 2 ≡ 0
parity-double x = omega arith

bit_xor_even : (a x : ℕ) → bit_xor a (x * 2) ≡ bit_xor (a / 2) x * 2 + a % 2
bit_xor_even a x = bit_xor_step a (x * 2) ∙ rw (half-double x, parity-double x, differ_zero (a % 2))

even-bit_xor : (a x : ℕ) → bit_xor (a * 2) x ≡ bit_xor a (x / 2) * 2 + x % 2
even-bit_xor a x = bit_xor_step (a * 2) x ∙ rw (half-double a, parity-double a)

shift_suc : (k b : ℕ) → b * 2 ^ suc k ≡ b * 2 ^ k * 2
shift_suc k b = grind (arith, pow-suc 2 k)

below_half : (k a : ℕ) → a < 2 ^ suc k → a / 2 < 2 ^ k
below_half k a h = omega (arith, pow-suc 2 k)

-- The second number has no digit below the k-th, the first none from there on.
pub bit_xor_above : (k a b : ℕ) → a < 2 ^ k → bit_xor a (b * 2 ^ k) ≡ a + b * 2 ^ k
bit_xor_above zero zero b h = zero-bit_xor (b * 1) ∙ omega arith
bit_xor_above zero (suc a) b h = absurd (omega arith)
bit_xor_above (suc k) a b h =
    ap (bit_xor a) (shift_suc k b)
    ∙ omega (
      arith,
      bit_xor_even a (b * 2 ^ k),
      bit_xor_above k (a / 2) b (below_half k a h),
      shift_suc k b,
    )

pub bit_xor_below : (k a b : ℕ) → b < 2 ^ k → bit_xor (a * 2 ^ k) b ≡ a * 2 ^ k + b
bit_xor_below zero a zero h = bit_xor-zero (a * 1) ∙ omega arith
bit_xor_below zero a (suc b) h = absurd (omega arith)
bit_xor_below (suc k) a b h =
    ap (λ n. bit_xor n b) (shift_suc k a)
    ∙ omega (
      arith,
      even-bit_xor (a * 2 ^ k) b,
      bit_xor_below k a (b / 2) (below_half k b h),
      shift_suc k a,
    )
