-- ===== src/Utils/ByteOrder/RoundTrip.antt =====
-- Reading gives back the number that was written, in both byte orders.
use Prim.Native.Nat.{bit_xor}
use native.Mathlib.Nat.{
  pow-suc, pow-le-pow_right, div-add-mod', one-le-pow, div-lt_iff_lt-mul, mod-lt, mul-le-mul,
}
use mpquic_latency.Base.{
  ℕ, zero, suc, ◌+◌, ◌-◌, ◌*◌, ◌/◌, ◌%◌, ◌^◌, ◌≤◌, ◌<◌, ◌≡◌, refl, sym, ap, ◌∙◌, List, [], ◌∷◌,
  ◌++◌, length, u64, arith, bit_xor_above, bit_xor_below,
}
use mpquic_latency.Utils.Buffer.{parsed, written}
use mpquic_latency.Utils.ByteOrder.{
  ByteOrder, little_endian, big_endian, shift, read_bytes, read_uint_n, read_uint64, read_uint32,
  read_uint16, write_uint64, write_uint56, write_uint48, write_uint40, write_uint32, write_uint24,
  write_uint16,
}

-- A number in so many bytes, the lowest byte first or the highest.
unfoldable pub encoded : ByteOrder → ℕ → ℕ → List ℕ
encoded o zero v = []
encoded little_endian (suc n) v = v % 256 ∷ encoded little_endian n (v / 256)
encoded big_endian (suc n) v = v / 2 ^ (n * 8) ∷ encoded big_endian n (v % 2 ^ (n * 8))

pub length-encoded : (o : ByteOrder) (n v : ℕ) → length (encoded o n v) ≡ n
unfolding encoded
length-encoded o zero v = refl
length-encoded little_endian (suc n) v = ap suc (length-encoded little_endian n (v / 256))
length-encoded big_endian (suc n) v = ap suc (length-encoded big_endian n (v % 2 ^ (n * 8)))

pow_plus : (k m : ℕ) → 2 ^ (k + m) ≡ 2 ^ k * 2 ^ m
pow_plus k zero = ap (λ n. 2 ^ n) plus_zero ∙ omega arith
  where
    plus_zero : k + 0 ≡ k
    plus_zero = omega arith
pow_plus k (suc m) =
    ap (λ n. 2 ^ n) plus_suc ∙ grind (arith, pow-suc 2 (k + m), pow-suc 2 m, pow_plus k m)
  where
    plus_suc : k + suc m ≡ suc (k + m)
    plus_suc = omega arith

pow_byte : (n : ℕ) → 2 ^ (suc n * 8) ≡ 2 ^ (n * 8) * 256
pow_byte n = ap (λ k. 2 ^ k) byte_more ∙ pow_plus (n * 8) 8
  where
    byte_more : suc n * 8 ≡ n * 8 + 8
    byte_more = omega arith

byte_in_word : (i b : ℕ) → i < 8 → b < 256 → u64 (b * 2 ^ (i * 8 % 256)) ≡ b * 2 ^ (i * 8)
byte_in_word i b hi hb = grind (arith, pow-le-pow_right 0<2 le, mul-le-mul)
  where
    0<2 : 0 < 2
    0<2 = omega arith

    le : i * 8 ≤ 56
    le = omega arith

next_digit : (m r b : ℕ) → r < m → b < 256 → r + b * m < m * 256
next_digit m r b hr hb = grind (arith, mul-le-mul)

-- The number with the digits q and b, times m.
two_digits : (m r q b : ℕ) → r + b * m + q * (m * 256) ≡ r + (q * 256 + b) * m
two_digits m r q b = grind arith

digits_sum : (m r v : ℕ) → r + v % 256 * m + v / 256 * (m * 256) ≡ r + v * m
digits_sum m r v = two_digits m r (v / 256) (v % 256) ∙ ap (λ x. r + x * m) (div-add-mod' v 256)

pow-positive : (k : ℕ) → 0 < 2 ^ k
pow-positive k = one-le-pow k 2 (omega arith)

top_digit : (n v : ℕ) → v < 2 ^ (suc n * 8) → v / 2 ^ (n * 8) < 256
top_digit n v h = (div-lt_iff_lt-mul (pow-positive (n * 8))).1 (omega (arith, pow_byte n))

lower_digits : (m q v : ℕ) → (q * 256 + v / m) * m + v % m ≡ q * (m * 256) + v
lower_digits m q v = grind (arith, div-add-mod' v m)

-- The next byte of the loop in big endian order.
xor_digit :
    (len n i q d : ℕ)
    → i + suc n ≡ len
    → len ≤ 8
    → d < 256
    → bit_xor (q * 2 ^ (suc n * 8)) (u64 (d * 2 ^ shift big_endian len i))
      ≡ (q * 256 + d) * 2 ^ (n * 8)
unfolding shift
xor_digit len n i q d hi hl hd =
    ap (λ k. bit_xor (q * 2 ^ (suc n * 8)) (u64 (d * 2 ^ (k * 8 % 256)))) from_top
    ∙ ap (bit_xor (q * 2 ^ (suc n * 8))) (byte_in_word n d (omega arith) hd)
    ∙ bit_xor_below (suc n * 8) q (d * 2 ^ (n * 8))
        (omega (arith, next_digit (2 ^ (n * 8)) 0 d (pow-positive (n * 8)) hd, pow_byte n))
    ∙ ap (λ m. q * m + d * 2 ^ (n * 8)) (pow_byte n)
    ∙ omega (arith, two_digits (2 ^ (n * 8)) 0 q d)
  where
    from_top : len - 1 - i ≡ n
    from_top = omega arith

read_bytes_little :
    (len n i res v : ℕ) (rest : List ℕ)
    → i + n ≤ 8
    → res < 2 ^ (i * 8)
    → v < 2 ^ (n * 8)
    → read_bytes little_endian len n i res (encoded little_endian n v ++ rest)
      ≡ parsed (res + v * 2 ^ (i * 8)) rest
unfolding encoded read_bytes shift
read_bytes_little len zero i res v rest hi hr hv = ground arith
read_bytes_little len (suc n) i res v rest hi hr hv =
    ap (λ r. read_bytes little_endian len n (suc i) r (encoded little_endian n (v / 256) ++ rest))
      (ap (bit_xor res) (byte_in_word i (v % 256) (omega arith) (omega arith))
        ∙ bit_xor_above (i * 8) res (v % 256) hr)
    ∙ read_bytes_little len n (suc i) (res + v % 256 * 2 ^ (i * 8)) (v / 256) rest (omega arith)
        (omega (arith, next_digit (2 ^ (i * 8)) res (v % 256) hr (omega arith), pow_byte i))
        (omega (arith, pow_byte n))
    ∙ ap (λ r. parsed r rest)
        (ap (λ m. res + v % 256 * 2 ^ (i * 8) + v / 256 * m) (pow_byte i)
          ∙ digits_sum (2 ^ (i * 8)) res v)

read_bytes_big :
    (len n i q v : ℕ) (rest : List ℕ)
    → i + n ≡ len
    → len ≤ 8
    → v < 2 ^ (n * 8)
    → read_bytes big_endian len n i (q * 2 ^ (n * 8)) (encoded big_endian n v ++ rest)
      ≡ parsed (q * 2 ^ (n * 8) + v) rest
unfolding encoded read_bytes shift
read_bytes_big len zero i q v rest hi hr hv = ground arith
read_bytes_big len (suc n) i q v rest hi hr hv =
    ap (λ r. read_bytes big_endian len n (suc i) r (encoded big_endian n (v % 2 ^ (n * 8)) ++ rest))
      (xor_digit len n i q (v / 2 ^ (n * 8)) hi hr (top_digit n v hv))
    ∙ read_bytes_big len n (suc i) (q * 256 + v / 2 ^ (n * 8)) (v % 2 ^ (n * 8)) rest (omega arith)
        hr (mod-lt v (pow-positive (n * 8)))
    ∙ ap (λ r. parsed r rest)
        (lower_digits (2 ^ (n * 8)) q v ∙ ap (λ m. q * m + v) (sym (pow_byte n)))

pub read_uint_n-encoded :
    (o : ByteOrder) (n v : ℕ) (rest : List ℕ)
    → n ≤ 8
    → v < 2 ^ (n * 8)
    → read_uint_n o n (encoded o n v ++ rest) ≡ parsed v rest
unfolding read_uint_n
read_uint_n-encoded little_endian n v rest hn hv =
    read_bytes_little n n 0 0 v rest (omega arith) (omega arith) hv
    ∙ ap (λ r. parsed r rest) (omega arith)
read_uint_n-encoded big_endian n v rest hn hv =
    ap (λ z. read_bytes big_endian n n 0 z (encoded big_endian n v ++ rest)) zero_times
    ∙ read_bytes_big n n 0 0 v rest (omega arith) hn hv
    ∙ ap (λ r. parsed r rest) (omega arith)
  where
    zero_times : 0 ≡ 0 * 2 ^ (n * 8)
    zero_times = omega arith

module _ (v : ℕ) (rest : List ℕ) where
  pub read_uint64-encoded :
      (o : ByteOrder) → v < 2 ^ 64 → read_uint64 o (encoded o 8 v ++ rest) ≡ parsed v rest
  unfolding read_uint64 encoded
  read_uint64-encoded little_endian h = ap (λ r. parsed r rest) (omega arith)
  read_uint64-encoded big_endian h = ap (λ r. parsed r rest) (omega arith)

  pub read_uint32-encoded :
      (o : ByteOrder) → v < 2 ^ 32 → read_uint32 o (encoded o 4 v ++ rest) ≡ parsed v rest
  unfolding read_uint32 encoded
  read_uint32-encoded little_endian h = ap (λ r. parsed r rest) (omega arith)
  read_uint32-encoded big_endian h = ap (λ r. parsed r rest) (omega arith)

  pub read_uint16-encoded :
      (o : ByteOrder) → v < 2 ^ 16 → read_uint16 o (encoded o 2 v ++ rest) ≡ parsed v rest
  unfolding read_uint16 encoded
  read_uint16-encoded little_endian h = ap (λ r. parsed r rest) (omega arith)
  read_uint16-encoded big_endian h = ap (λ r. parsed r rest) (omega arith)

module _ (o : ByteOrder) (v : ℕ) where
  pub write_uint64-encoded : v < 2 ^ 64 → write_uint64 o v ≡ written (encoded o 8 v)
  unfolding write_uint64 encoded
  write_uint64-encoded h = ground arith

  pub write_uint56-encoded : v < 2 ^ 56 → write_uint56 o v ≡ written (encoded o 7 v)
  unfolding write_uint56 encoded
  write_uint56-encoded h = ground arith

  pub write_uint48-encoded : v < 2 ^ 48 → write_uint48 o v ≡ written (encoded o 6 v)
  unfolding write_uint48 encoded
  write_uint48-encoded h = ground arith

  pub write_uint40-encoded : v < 2 ^ 40 → write_uint40 o v ≡ written (encoded o 5 v)
  unfolding write_uint40 encoded
  write_uint40-encoded h = ground arith

  pub write_uint32-encoded : v < 2 ^ 32 → write_uint32 o v ≡ written (encoded o 4 v)
  unfolding write_uint32 encoded
  write_uint32-encoded h = ground arith

  pub write_uint24-encoded : v < 2 ^ 24 → write_uint24 o v ≡ written (encoded o 3 v)
  unfolding write_uint24 encoded
  write_uint24-encoded h = ground arith

  pub write_uint16-encoded : v < 2 ^ 16 → write_uint16 o v ≡ written (encoded o 2 v)
  unfolding write_uint16 encoded
  write_uint16-encoded h = ground arith
