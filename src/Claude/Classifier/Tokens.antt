-- ===== src/Claude/Classifier/Tokens.antt =====
-- Literals and numbers in anton-runtime/src/claude/classifier.rs.
use herdr_observatory.Claude.Classifier.{Context, Classifier, no_node, scalar, value_done}
use herdr_observatory.Claude.Classifier.Keys.{record_byte}
use herdr_observatory.Claude.Classifier.Strings.{capture_done}
use herdr_observatory.Common.{is_digit, codes}
use herdr_observatory.Json.{Value, boolean, null}
use herdr_observatory.Prelude.{
  ℕ, Bool, false, true, length, ◌+◌, List, Option, none, some, [], ◌∷◌, ◌||◌, ◌&&◌, ◌==◌, leb,
  if◌then◌else◌, zero, suc,
}

-- `WORDS`, and the values they stand for.
abbrev pub word : ℕ → Option (List ℕ × Value)
word literal =
    if literal == 0
    then some (codes "true", boolean true)
    else if literal == 1
    then some (codes "false", boolean false)
    else if literal == 2
    then some (codes "null", null)
    else none

-- `word.get(index) == Some(&ch)`.
abbrev pub is_at : List ℕ → ℕ → ℕ → Bool
is_at [] index ch = false
is_at (c ∷ cs) zero ch = c == ch
is_at (c ∷ cs) (suc index) ch = is_at cs index ch

abbrev pub next_stage : ℕ → ℕ → Option ℕ
next_stage number ch =
    if number == 0 && ch == b'0'
    then some 1
    else if number == 0 && leb b'1' ch && leb ch b'9'
    then some 2
    else if (number == 2 || number == 4 || number == 7) && is_digit ch
    then some number
    else if (number == 1 || number == 2) && ch == b'.'
    then some 3
    else if number == 3 && is_digit ch
    then some 4
    else if (number == 1 || number == 2 || number == 4) && (ch == b'e' || ch == b'E')
    then some 5
    else if number == 5 && (ch == b'+' || ch == b'-')
    then some 6
    else if (number == 5 || number == 6) && is_digit ch
    then some 7
    else none

abbrev pub is_final : ℕ → Bool
is_final number = number == 1 || number == 2 || number == 4 || number == 7

module _ (x : Context) where
  -- The literal is complete with this byte, or goes on.
  unfoldable pub spelled : List ℕ → Value → Classifier → Classifier
  unfolding scalar value_done
  spelled letters v c =
      if c.index + 1 == length letters
      then value_done
          (record (scalar x c.capture v (record c { index = c.index + 1; capture = no_node })) {
            lex = 0;
          })
      else record c { index = c.index + 1 }

  abbrev pub literal_word : Option (List ℕ × Value) → ℕ → Classifier → Option Classifier
  literal_word none ch c = none
  literal_word (some (letters, v)) ch c =
      if is_at letters c.index ch then some (spelled letters v c) else none

  unfoldable pub literal_byte : ℕ → Classifier → Option Classifier
  unfolding spelled
  literal_byte ch c = literal_word (word c.literal) ch c

  unfoldable pub number_end : Classifier → Classifier
  unfolding capture_done value_done
  number_end c = value_done (record (capture_done x c) { lex = 0 })

  -- Whether the byte belongs to the number, and the classifier after it.
  abbrev pub number_stage : Option ℕ → ℕ → Classifier → Option (Bool × Classifier)
  number_stage (some stage) ch c = some (true, record_byte ch (record c { number = stage }))
  number_stage none ch c = if is_final c.number then some (false, number_end c) else none

  unfoldable pub number_byte : ℕ → Classifier → Option (Bool × Classifier)
  unfolding record_byte number_end
  number_byte ch c = number_stage (next_stage c.number ch) ch c
