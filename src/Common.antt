-- ===== src/Common.antt =====
-- anton-runtime/src/common.rs: the tests on identifiers, and the largest safe integer.
pub mod Prefix
use Prim.Native.Char.{code}
use herdr_observatory.Prelude.{
  ℕ, zero, suc, ◌+◌, String, Bool, true, false, ◌&&◌, ◌||◌, not, List, [], ◌∷◌, ◌==◌, ltb, leb,
  if◌then◌else◌, all, &&-eq_true, ==_iff, arith, refl, ◌≡◌,
}

-- A text's characters as code points: its bytes, where it is ASCII.
abbrev pub codes : String → List ℕ
codes String.[] = []
codes (String.◌∷◌ c s) = code c ∷ codes s

abbrev is_empty : List ℕ → Bool
is_empty [] = true
is_empty (_ ∷ _) = false

-- The bytes that UTF-8 takes for a code point.
abbrev utf8_len : ℕ → ℕ
utf8_len c = if ltb c 128 then 1 else if ltb c 2048 then 2 else if ltb c 65536 then 3 else 4

-- `str::len`.
abbrev pub byte_len : List ℕ → ℕ
byte_len [] = 0
byte_len (c ∷ s) = utf8_len c + byte_len s

abbrev pub is_digit : ℕ → Bool
is_digit c = leb b'0' c && leb c b'9'

abbrev pub is_alphanumeric : ℕ → Bool
is_alphanumeric c = is_digit c || (leb b'A' c && leb c b'Z') || (leb b'a' c && leb c b'z')

-- The tests over `bytes()` read characters here: every byte of a character beyond ASCII is 128
-- or more and fails them, as its code point does.
unfoldable pub safe_id : String → ℕ → Bool
safe_id value maximum =
    not (is_empty (codes value))
    && leb (byte_len (codes value)) maximum
    && all (λ c. is_alphanumeric c || c == b'_' || c == b'-') (codes value)

abbrev pub is_hex : ℕ → Bool
is_hex c = is_digit c || (leb b'a' c && leb c b'f')

unfoldable pub hex_id : String → ℕ → Bool
hex_id value length = byte_len (codes value) == length && all is_hex (codes value)

-- 2^53 - 1.
abbrev pub max_safe : ℕ
max_safe = 9_007_199_254_740_991

-- `&s[..n]`, where the first `n` characters are ASCII and are there; otherwise the code panics.
abbrev pub take_chars : ℕ → String → String
take_chars zero s = ""
take_chars (suc n) String.[] = ""
take_chars (suc n) (String.◌∷◌ c s) = String.◌∷◌ c (take_chars n s)

-- Equality of byte slices.
abbrev pub same_bytes : List ℕ → List ℕ → Bool
same_bytes [] [] = true
same_bytes (x ∷ xs) (y ∷ ys) = x == y && same_bytes xs ys
same_bytes _ _ = false

pub eq_of_same_bytes : (a b : List ℕ) → same_bytes a b ≡ true → a ≡ b
eq_of_same_bytes [] [] h = refl
eq_of_same_bytes (x ∷ xs) (y ∷ ys) h =
    let (first, rest) = &&-eq_true (x == y) (same_bytes xs ys) h in
    let same : x ≡ y = (==_iff x y).0 first in
    let tail : xs ≡ ys = eq_of_same_bytes xs ys rest in cc
eq_of_same_bytes [] (y ∷ ys) h = absurd (ground (arith, h))
eq_of_same_bytes (x ∷ xs) [] h = absurd (ground (arith, h))
