-- ===== src/Claude/Parse.antt =====
-- `parse_line` of anton-runtime/src/claude.rs and `line` of native.rs. What serde_json reads is a
-- parameter: the values of a line with the keys of an object as they come, repeated ones too.
use herdr_observatory.Json.{Value, Values, Fields, array, object, nil, cons, end, field, get}
use herdr_observatory.Prelude.{
  ℕ, Bool, false, true, List, Option, [], ◌∷◌, not, ◌||◌, ◌==◌, zero, suc, is_some, filter,
}

unfoldable mutual
  unfolding get

  -- Some object below repeats a key.
  pub repeats : Value → Bool
  repeats (array items) = repeats_in items
  repeats (object fields) = repeats_at fields
  repeats _ = false

  pub repeats_in : Values → Bool
  repeats_in nil = false
  repeats_in (cons v items) = repeats v || repeats_in items

  pub repeats_at : Fields → Bool
  repeats_at end = false
  repeats_at (field key v rest) = is_some (get key rest) || repeats v || repeats_at rest

-- `none` where serde_json reads no value, or an object repeats a key.
unfoldable pub parse_line : (List ℕ → Option Value) → List ℕ → Option Value
unfolding repeats
parse_line from_slice bytes = filter (λ v. not (repeats v)) (from_slice bytes)

abbrev pub after : ℕ → List ℕ × List ℕ → List ℕ × List ℕ
after c (bytes, rest) = (c ∷ bytes, rest)

-- At most `n` bytes, up to the end of the line and with it; what follows them.
unfoldable pub line : ℕ → List ℕ → List ℕ × List ℕ
line zero stream = ([], stream)
line (suc n) [] = ([], [])
line (suc n) (c ∷ stream) = elim (c == b'\n') [
  | true ↦ (c ∷ [], stream)
  | false ↦ after c (line n stream)
]

-- The bytes end with their first end of line.
unfoldable pub is_terminated : List ℕ → Bool
is_terminated [] = false
is_terminated (c ∷ []) = c == b'\n'
is_terminated (c ∷ d ∷ bytes) = is_terminated (d ∷ bytes)
