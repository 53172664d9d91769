-- ===== src/Utils/Ufloat16.antt =====
-- internal/utils/float16.go: the 16-bit floating point numbers of ACK delays. A ByteOrder is not
-- needed here: it carries the encoded uint16.
pub mod Precision
use mpquic_latency.Base.{ℕ, ◌+◌, ◌-◌, ◌*◌, ◌/◌, ◌%◌, ◌^◌, ltb, leb, if◌then◌else◌, u64}

-- uFloat16MaxValue.
abbrev pub max_value : ℕ
max_value = (2 ^ 12 - 1) * 2 ^ 30

-- readUfloat16, of the uint16 that was read.
unfoldable pub read_ufloat16 : ℕ → ℕ
read_ufloat16 val =
    if ltb val (2 ^ 12)
    then val
    else u64 ((val - (val / 2 ^ 11 - 1) * 2 ^ 11) * 2 ^ (val / 2 ^ 11 - 1))

-- One round of the loop over the offsets, on the exponent and the value.
unfoldable pub shift_right : ℕ → ℕ × ℕ → ℕ × ℕ
shift_right offset (exponent, value) =
    if leb (2 ^ (11 + offset)) value
    then (exponent + offset, value / 2 ^ offset)
    else (exponent, value)

unfoldable pub normalize : ℕ → ℕ × ℕ
unfolding shift_right
normalize value =
    shift_right 1 (shift_right 2 (shift_right 4 (shift_right 8 (shift_right 16 (0, value)))))

-- writeUfloat16, up to the uint16 that is written.
unfoldable pub write_ufloat16 : ℕ → ℕ
unfolding normalize
write_ufloat16 value =
    if ltb value (2 ^ 12)
    then value
    else if leb max_value value
    then 2 ^ 16 - 1
    else ((normalize value).1 % 2 ^ 16 + (normalize value).0 * 2 ^ 11 % 2 ^ 16) % 2 ^ 16
