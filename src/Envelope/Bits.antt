-- ===== src/Envelope/Bits.antt =====
-- The bit operations of anton-runtime/src/envelope.rs on `u8` and `u16`, by their arithmetic.
use herdr_observatory.Prelude.{
  zero, suc, ℕ, ◌+◌, ◌-◌, ◌/◌, ◌%◌, ◌^◌, ◌≤◌, Bool, ◌==◌, if◌then◌else◌, arith,
}

-- `m & (1 << bit) != 0`.
unfoldable pub test_bit : ℕ → ℕ → Bool
test_bit m bit = m / 2 ^ bit % 2 == 1

-- `m & !(1 << bit)`.
unfoldable pub clear_bit : ℕ → ℕ → ℕ
clear_bit m bit = if test_bit m bit then m - 2 ^ bit else m

-- `m | (1 << bit)`.
unfoldable pub set_bit : ℕ → ℕ → ℕ
set_bit m bit = if test_bit m bit then m else m + 2 ^ bit

pub clear_bit-le : (m bit : ℕ) → clear_bit m bit ≤ m
unfolding clear_bit
clear_bit-le m bit = ground arith

-- Of the lowest three bits.
pub set_bit-le : (m bit : ℕ) → m ≤ 7 → bit ≤ 2 → set_bit m bit ≤ 7
unfolding set_bit test_bit
set_bit-le m zero h b = ground arith
set_bit-le m (suc zero) h b = ground arith
set_bit-le m (suc (suc zero)) h b = ground arith
set_bit-le m (suc (suc (suc bit))) h b = absurd (omega arith)
