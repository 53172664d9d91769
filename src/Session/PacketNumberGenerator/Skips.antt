-- ===== src/Session/PacketNumberGenerator/Skips.antt =====
-- Which packet numbers the generator leaves out.
use mpquic_latency.Base.{ℕ, ◌+◌, ◌<◌, ◌^◌, ◌≡◌, refl, List, [], ◌∷◌, Option, arith, length}
use mpquic_latency.Session.PacketNumberGenerator.{
  PacketNumberGenerator, new_packet_number_generator, pop, pops,
}

-- The numbers from `n` on, one for each element.
unfoldable pub count_from {ℓ} : {A : Type ℓ} → ℕ → List A → List ℕ
count_from n [] = []
count_from n (x ∷ xs) = n ∷ count_from (n + 1) xs

pops_unskipped :
    (randoms : List (Option ℕ)) (p : PacketNumberGenerator)
    → p.next_to_skip ≡ 0
    → p.next + length randoms < 2 ^ 64
    → (pops randoms p).0 ≡ count_from p.next randoms
unfolding pops pop count_from
pops_unskipped [] p z b = refl
pops_unskipped (r ∷ rs) p z b = ground (arith, pops_unskipped rs (pop r p).1)

-- No packet number is skipped: a new generator gives 1, 2, 3 and so on, whatever the random numbers.
pub pops_never_skip :
    (average_period : ℕ) (randoms : List (Option ℕ))
    → 1 + length randoms < 2 ^ 64
    → (pops randoms (new_packet_number_generator average_period)).0 ≡ count_from 1 randoms
unfolding new_packet_number_generator
pops_never_skip average_period randoms b = pops_unskipped randoms _ refl b
