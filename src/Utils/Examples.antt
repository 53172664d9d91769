-- ===== src/Utils/Examples.antt =====
-- Concrete encodings.
use mpquic_latency.Base.{◌-◌, ◌*◌, ◌^◌, ◌≤◌, min}
use mpquic_latency.Utils.Ufloat16.{max_value, read_ufloat16, write_ufloat16}
use mpquic_latency.Utils.Ufloat16.Precision.{read-write_ufloat16}

read-write_ufloat16_example :
    (read_ufloat16 (write_ufloat16 25_001) ≤ 25_001)
    × (2 ^ 11 * (min 25_001 max_value - read_ufloat16 (write_ufloat16 25_001))
        ≤ read_ufloat16 (write_ufloat16 25_001))
read-write_ufloat16_example = read-write_ufloat16 25_001
