-- ===== src/Wire/StreamFrame/TypeByte.antt =====
-- The type byte of a STREAM frame says what went into it.
use mpquic_latency.Base.{
  ℕ, zero, suc, ◌≤◌, ◌<◌, ◌≡◌, ◌≢◌, refl, Bool, true, false, not, ◌&&◌, ◌||◌, ◌==◌, ==_iff,
  all_below, all_below_sound, arith,
}
use mpquic_latency.Wire.StreamFrame.{
  has_fin_bit, has_data_len, offset_len, stream_id_len, type_byte_of,
}

abbrev pub same : Bool → Bool → Bool
same true b = b
same false b = not b

pub same_eq : (a b : Bool) → same a b ≡ true → a ≡ b
same_eq a b h = ground arith

-- The type byte, read back.
unfoldable pub reads_back : Bool → Bool → ℕ → ℕ → Bool
unfolding type_byte_of has_fin_bit has_data_len offset_len stream_id_len
reads_back fin present offset_length id_len =
    same (has_fin_bit (type_byte_of fin present offset_length id_len)) fin
    && same (has_data_len (type_byte_of fin present offset_length id_len)) present
    && (offset_len (type_byte_of fin present offset_length id_len) == offset_length)
    && (stream_id_len (type_byte_of fin present offset_length id_len) == id_len)

type_byte_table :
    (fin present : Bool)
    → all_below 9 (λ n. (n == 1) || all_below 4 (λ k. reads_back fin present n (suc k))) ≡ true
unfolding reads_back
type_byte_table true true = refl
type_byte_table true false = refl
type_byte_table false true = refl
type_byte_table false false = refl

pub reads_back_holds :
    (fin present : Bool) (n k : ℕ)
    → n < 9
    → n ≢ 1
    → 1 ≤ k
    → k ≤ 4
    → reads_back fin present n k ≡ true
reads_back_holds fin present n zero hn h1 lo hi = absurd (omega arith)
reads_back_holds fin present n (suc k) hn h1 lo hi =
    all_below_sound 4 (λ k. reads_back fin present n (suc k)) k row (omega arith)
  where
    entry : ℕ → Bool
    entry n = (n == 1) || all_below 4 (λ k. reads_back fin present n (suc k))

    row : all_below 4 (λ k. reads_back fin present n (suc k)) ≡ true
    row = ground (arith, all_below_sound 9 entry n (type_byte_table fin present) hn, ==_iff n 1)
