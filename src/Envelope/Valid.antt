-- ===== src/Envelope/Valid.antt =====
-- `Envelope::valid` of anton-runtime/src/envelope.rs: the check on a stored classifier.
use herdr_observatory.Envelope.{Envelope, drop_last}
use herdr_observatory.Prelude.{
  ℕ, Bool, true, false, not, ◌&&◌, ◌||◌, List, [], ◌∷◌, ◌==◌, ltb, leb, if◌then◌else◌, length, any,
}

-- The lengths of `true`, `false` and `null`.
abbrev pub word_length : ℕ → ℕ
word_length literal = if literal == 1 then 5 else 4

abbrev pub is_empty : List ℕ → Bool
is_empty [] = true
is_empty (x ∷ xs) = false

abbrev pub bad_range : Envelope → Bool
bad_range e =
    ltb 3 e.lex
    || ltb 8 e.number
    || ltb 2 e.literal
    || ltb 32 e.index
    || ltb 8191 e.mask
    || ltb 1 e.key
    || ltb 1 e.capture
    || ltb 2 e.escape
    || ltb 3 e.hex
    || ltb 3 e.utf
    || ltb 244 e.lo
    || ltb 244 e.hi
    || ltb 1 e.started
    || ltb 1 e.done
    || ltb 12 e.kind
    || ltb 12 e.payload_type
    || ltb 12 e.item_type
    || ltb 128 (length e.stack)
    || any (λ v. ltb 7 v) e.stack

abbrev pub bad_shape : Envelope → Bool
bad_shape e =
    not (length e.roles == length e.stack)
    || not (length e.pending == length e.stack)
    || not (length e.seen == length e.stack)
    || any (λ v. ltb 3 v) e.roles
    || any (λ v. ltb 3 v) e.pending
    || any (λ v. ltb 7 v) e.seen

abbrev pub bad_progress : Envelope → Bool
bad_progress e =
    (e.started == 0 && (not (is_empty e.stack) || not (e.done == 0) || not (e.lex == 0)))
    || (not (e.done == 0) && (not (is_empty e.stack) || not (e.lex == 0)))
    || (not (e.started == 0) && is_empty e.stack && e.done == 0)

-- The vector's element 0, which is the list's last.
abbrev pub bottom : List ℕ → ℕ
bottom [] = 0
bottom (x ∷ []) = x
bottom (x ∷ y ∷ xs) = bottom (y ∷ xs)

abbrev pub is_container : ℕ → Bool
is_container v = v == 4 || v == 7

abbrev pub bad_stack : Envelope → Bool
bad_stack e =
    not (is_empty e.stack)
    && (not (bottom e.roles == 1)
        || ltb 4 (bottom e.stack)
        || any (λ v. not (is_container v)) (drop_last e.stack))

abbrev pub takes_value : ℕ → Bool
takes_value phase = phase == 3 || phase == 5 || phase == 6

-- The checks on a token that is being read, on the stack's last phase.
abbrev pub bad_token : List ℕ → Envelope → Bool
bad_token [] e = true
bad_token (phase ∷ stack) e =
    (if e.lex == 1
      then not (if not (e.key == 0) then phase == 0 || phase == 1 else takes_value phase)
        || (not (e.utf == 0) && not (e.escape == 0))
      else not (takes_value phase))
    || (e.lex == 3 && (ltb e.index 1 || leb (word_length e.literal) e.index))

unfoldable pub valid : Envelope → Bool
valid e =
    not (
      bad_range e
      || bad_shape e
      || bad_progress e
      || bad_stack e
      || (not (e.lex == 0) && bad_token e.stack e))
    && (e.lex == 1 || (e.escape == 0 && e.utf == 0 && e.hex == 0))
