-- ===== src/Base/Results.antt =====
-- A call of Go code that may panic.
pub data Outcome {ℓ} (A : Type ℓ) : Type ℓ where
  returned : A → Outcome A
  panicked : Outcome A
