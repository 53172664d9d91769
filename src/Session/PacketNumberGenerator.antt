-- ===== src/Session/PacketNumberGenerator.antt =====
-- packet_number_generator.go: the packet numbers that a path uses.
pub mod Skips
use mpquic_latency.Base.{
  ℕ, ◌+◌, ◌*◌, ◌/◌, List, [], ◌∷◌, ◌==◌, if◌then◌else◌, Option, none, some, u64, sub64,
}

pub record PacketNumberGenerator : Type 0 where
  pub average_period : ℕ
  pub next : ℕ
  pub next_to_skip : ℕ

unfoldable pub new_packet_number_generator : ℕ → PacketNumberGenerator
new_packet_number_generator average_period = record {
  average_period = average_period;
  next = 1;
  next_to_skip = 0;
}

unfoldable pub peek : PacketNumberGenerator → ℕ
peek p = p.next

-- getRandomNumber is given: `none` is its error, and a number is below 2 ^ 16.
unfoldable pub generate_new_skip : Option ℕ → PacketNumberGenerator → PacketNumberGenerator
generate_new_skip none p = p
generate_new_skip (some num) p = record p {
  next_to_skip = u64 (p.next + 2 + u64 (num * sub64 p.average_period 1) / 32767);
}

unfoldable pub pop : Option ℕ → PacketNumberGenerator → ℕ × PacketNumberGenerator
unfolding generate_new_skip
pop random p =
    if u64 (p.next + 1) == p.next_to_skip
    then (p.next, generate_new_skip random (record p { next = u64 (u64 (p.next + 1) + 1) }))
    else (p.next, record p { next = u64 (p.next + 1) })

-- The numbers of a sequence of calls of Pop, one for each random number.
unfoldable pub pops : List (Option ℕ) → PacketNumberGenerator → List ℕ × PacketNumberGenerator
pops [] p = ([], p)
pops (random ∷ randoms) p =
    let popped = pop random p in let rest = pops randoms popped.1 in (popped.0 ∷ rest.0, rest.1)
