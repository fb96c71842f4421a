-- ===== src/Claude/Classifier/Feed.antt =====
-- `feed`, `suspend` and `finish` of anton-runtime/src/claude/classifier.rs. A byte that ends a number
-- is read again, between the tokens.
use herdr_observatory.Claude.{
  kind_system, kind_queue, kind_attachment, kind_user, kind_assistant, Record,
}
use herdr_observatory.Claude.Apply.{Outcome, rejected, uncertain, whole}
use herdr_observatory.Claude.Classifier.{Frame, Context, Classifier, no_node, cap}
use herdr_observatory.Claude.Classifier.Strings.{string_byte, mismatch, mark_lost}
use herdr_observatory.Claude.Classifier.Structure.{structural}
use herdr_observatory.Claude.Classifier.Tokens.{literal_byte, number_byte}
use herdr_observatory.Claude.Finish.{finish}
use herdr_observatory.Envelope.Bits.{set_bit, test_bit}
use herdr_observatory.Prelude.{
  ℕ, Bool, false, true, length, zero, ltb, suc, List, Option, none, some, [], ◌∷◌, not, ◌||◌, ◌&&◌,
  ◌==◌, leb, if◌then◌else◌,
}

module _ (x : Context) where
  abbrev pub number_read : ℕ → Option (Bool × Classifier) → Option Classifier
  number_read ch none = none
  number_read ch (some (taken, c)) = if taken then some c else structural x ch c

  unfoldable pub byte : ℕ → Classifier → Option Classifier
  unfolding string_byte literal_byte number_byte structural
  byte ch c =
      if c.lex == 1
      then string_byte x ch c
      else if c.lex == 3
      then literal_byte x ch c
      else if c.lex == 2
      then number_read ch (number_byte x ch c)
      else structural x ch c

  -- `none` where the bytes are no JSON, or too deep.
  unfoldable pub feed : List ℕ → Classifier → Option Classifier
  unfolding byte
  feed [] c = some c
  feed (ch ∷ chars) c = elim (byte ch c) [ none ↦ none | some c' ↦ feed chars c' ]

abbrev pub cut : Classifier → Classifier
cut c =
    if (c.lex == 1 || c.lex == 2) && not (c.capture == no_node)
    then record (if c.capture == 3 && ltb cap (length c.value)
        then mismatch c
        else mark_lost c.capture c) { capture = no_node }
    else c

-- A pass ends inside the record.
unfoldable pub suspend : Classifier → Classifier
unfolding set_bit
suspend c = record (cut c) { value = []; scan = []; high = false }

-- Whether a record of `kind` consumes `node`.
unfoldable pub is_consumed : ℕ → ℕ → Bool
is_consumed kind node =
    leb node 8
    || node == 33
    || (kind == kind_assistant && ((leb 9 node && leb node 24) || node == 34))
    || (kind == kind_user
        && (node == 9 || (leb 25 node && leb node 32) || (leb 39 node && leb node 42)))
    || (kind == kind_attachment && ((leb 35 node && leb node 38) || (leb 40 node && leb node 42)))
    || (kind == kind_queue && node == 43)
    || (kind == kind_system && leb 44 node && leb node 46)

-- `self.lost & consumed(kind) != 0`: some node below `n` is lost and consumed.
unfoldable pub has_lost : ℕ → ℕ → ℕ → Bool
unfolding test_bit is_consumed
has_lost zero kind lost = false
has_lost (suc n) kind lost = (test_bit lost n && is_consumed kind n) || has_lost n kind lost

abbrev pub is_empty : List Frame → Bool
is_empty [] = true
is_empty (frame ∷ frames) = false

abbrev pub is_open : Classifier → Bool
is_open c = c.done == 0 || not (is_empty c.frames) || not (c.lex == 0)

abbrev pub classify : Classifier → Record → Outcome
classify c e =
    if (has_lost 64 e.kind c.lost || c.overflow) && not (e.identity == 2 || e.forked)
    then uncertain e.kind
    else whole e

-- The record is complete.
unfoldable pub outcome : Classifier → Outcome
unfolding test_bit has_lost finish
outcome c =
    if is_open c || test_bit c.lost 1 || test_bit c.lost 3
    then rejected
    else classify c (finish c.message_object c.iterations c.blocks.content c.blocks.prompt c.entry)
