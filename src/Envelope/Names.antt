-- ===== src/Envelope/Names.antt =====
-- The names that anton-runtime/src/envelope.rs looks for, and the mask of the names that the text
-- read so far may still be.
use herdr_observatory.Common.{codes}
use herdr_observatory.Envelope.Bits.{clear_bit-le, test_bit, clear_bit, set_bit}
use herdr_observatory.Prelude.{
  arith, ◌≤◌, ◌<◌, ℕ, ◌+◌, ◌^◌, ◌/◌, ◌%◌, ◌-◌, ◌*◌, Bool, ◌&&◌, List, [], ◌∷◌, ◌==◌, if◌then◌else◌,
  length, get_elem?, is_some_and,
}

abbrev pub names : List (List ℕ)
names =
    codes "type"
    ∷ codes "response_item"
    ∷ codes "session_meta"
    ∷ codes "turn_context"
    ∷ codes "compacted"
    ∷ codes "event_msg"
    ∷ codes "payload"
    ∷ codes "item"
    ∷ codes "item_completed"
    ∷ codes "context_compacted"
    ∷ codes "SubAgentActivity"
    ∷ codes "CommandExecution"
    ∷ codes "McpToolCall"
    ∷ []

-- The loop over `NAMES` that clears the bit of each name that fails `keep`.
unfoldable pub narrow : (List ℕ → Bool) → ℕ → List (List ℕ) → ℕ → ℕ
narrow keep bit [] mask = mask
narrow keep bit (name ∷ rest) mask =
    narrow keep (bit + 1) rest (if keep name then mask else clear_bit mask bit)

-- `name.get(self.index) == Some(&ch)`.
abbrev pub has_char : ℕ → ℕ → List ℕ → Bool
has_char index ch name = is_some_and (get_elem? name index) (λ c. c == ch)

-- The nibble of the expected character that a `\u` escape's digit number `hex` writes.
abbrev pub has_nibble : ℕ → ℕ → ℕ → List ℕ → Bool
has_nibble index hex digit name =
    is_some_and (get_elem? name index) (λ c. c / 2 ^ ((3 - hex) * 4) % 16 == digit)

-- The names that are still possible and as long as the text: the `fold` of `string_done`.
unfoldable pub complete : ℕ → ℕ → List (List ℕ) → ℕ → ℕ
complete index bit [] mask = 0
complete index bit (name ∷ rest) mask =
    let later = complete index (bit + 1) rest mask in
    if test_bit mask bit && length name == index then set_bit later bit else later

-- `(1..NAMES.len()).find(…).unwrap_or(0)`, from `bit` on.
unfoldable pub first_bit : ℕ → List (List ℕ) → ℕ → ℕ
first_bit bit [] mask = 0
first_bit bit (name ∷ rest) mask =
    let later = first_bit (bit + 1) rest mask in if test_bit mask bit then bit else later

pub narrow-le :
    (keep : List ℕ → Bool) (bit : ℕ) (rest : List (List ℕ)) (mask : ℕ)
    → narrow keep bit rest mask ≤ mask
unfolding narrow
narrow-le keep bit [] mask = omega arith
narrow-le keep bit (name ∷ rest) mask = ground (
  arith,
  narrow-le keep (bit + 1) rest mask,
  narrow-le keep (bit + 1) rest (clear_bit mask bit),
  clear_bit-le mask bit,
)

pub first_bit-lt :
    (bit : ℕ) (rest : List (List ℕ)) (mask : ℕ)
    → 0 < bit
    → first_bit bit rest mask < bit + length rest
unfolding first_bit
first_bit-lt bit [] mask h = omega arith
first_bit-lt bit (name ∷ rest) mask h = ground (arith, first_bit-lt (bit + 1) rest mask)
