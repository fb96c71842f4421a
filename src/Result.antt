-- ===== src/Result.antt =====
-- The result of a fallible function: a value, or the error's text.
use herdr_observatory.Prelude.{String}

pub data Result {ℓ} (A : Type ℓ) : Type ℓ where
  ok : A → Result A
  err : String → Result A
