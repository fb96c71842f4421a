-- ===== src/Envelope/Grammar.antt =====
-- The tokens and the grammar of anton-runtime/src/envelope.rs: the branches of `feed` for a byte
-- outside a string.
use herdr_observatory.Common.{codes, is_digit}
use herdr_observatory.Envelope.{Envelope, Round, read, again, refuse, panic, push, pop, value_done}
use herdr_observatory.Envelope.Strings.{string_byte}
use herdr_observatory.Prelude.{
  ℕ, ◌+◌, Bool, not, ◌&&◌, ◌||◌, Option, none, some, List, [], ◌∷◌, ◌==◌, ltb, leb, if◌then◌else◌,
  get_elem?, length, is_some_and,
}

abbrev pub words : List (List ℕ)
words = codes "true" ∷ codes "false" ∷ codes "null" ∷ []

-- `if self.lex == 3`: one more byte of `true`, `false` or `null`.
unfoldable pub literal_byte : Option (List ℕ) → ℕ → Envelope → Round
literal_byte none ch e = panic
literal_byte (some word) ch e =
    if not (is_some_and (get_elem? word e.index) (λ c. c == ch))
    then refuse
    else if e.index + 1 == length word
    then value_done (record e { index = e.index + 1; lex = 0 })
    else read (record e { index = e.index + 1 })

-- The `match` on the stage of a number and the byte.
unfoldable pub next_stage : ℕ → ℕ → Option ℕ
next_stage stage ch =
    if stage == 0 && ch == b'0'
    then some 1
    else if stage == 0 && leb b'1' ch && leb ch b'9'
    then some 2
    else if (stage == 2 || stage == 4 || stage == 7) && is_digit ch
    then some stage
    else if (stage == 1 || stage == 2) && ch == b'.'
    then some 3
    else if stage == 3 && is_digit ch
    then some 4
    else if (stage == 1 || stage == 2 || stage == 4) && (ch == b'e' || ch == b'E')
    then some 5
    else if stage == 5 && (ch == b'+' || ch == b'-')
    then some 6
    else if (stage == 5 || stage == 6) && is_digit ch
    then some 7
    else none

-- A number may end after these stages.
abbrev pub may_end : ℕ → Bool
may_end stage = stage == 1 || stage == 2 || stage == 4 || stage == 7

-- The byte after a value is looked at again.
abbrev pub look_again : Round → Round
look_again (read e) = again e
look_again r = r

-- `if self.lex == 2`.
unfoldable pub number_byte : Option ℕ → Envelope → Round
number_byte (some stage) e = read (record e { number = stage })
number_byte none e =
    if not (may_end e.number) then refuse else look_again (value_done (record e { lex = 0 }))

abbrev pub is_space : ℕ → Bool
is_space ch = ch == b' ' || ch == b'\r' || ch == b'\n' || ch == b'\t'

abbrev pub set_phase : List ℕ → ℕ → Envelope → Envelope
set_phase stack phase e = record e { stack = phase ∷ stack }

-- Phases 0 and 1: a key, or the end of an empty object.
unfoldable pub key_phase : ℕ → ℕ → ℕ → Envelope → Round
unfolding pop
key_phase phase role ch e =
    if phase == 0 && ch == b'}'
    then value_done (pop e)
    else if ch == b'"'
    then read (record e {
      lex = 1;
      key = 1;
      capture = if not (role == 0) then 1 else 0;
      index = 0;
      mask = if not (role == 0) then 8191 else 0;
    })
    else refuse

-- Phases 4 and 7: the end of the container, or a comma.
unfoldable pub next_phase : ℕ → List ℕ → ℕ → Envelope → Round
unfolding pop
next_phase phase stack ch e =
    if ch == (if phase == 4 then b'}' else b']')
    then value_done (pop e)
    else if ch == b','
    then read (set_phase stack (if phase == 4 then 1 else 6) e)
    else refuse

-- The role of a container that opens.
abbrev pub child_role : ℕ → ℕ → ℕ → ℕ
child_role role p ch =
    if ch == b'{'
    then (if role == 1 && p == 2 then 2 else if role == 2 && p == 3 then 3 else 0)
    else 0

-- A container opens: its value counts as read in the parent, and at most 128 are open.
abbrev pub open_in : ℕ → ℕ → Round → Round
open_in phase role (read e) =
    let e' = push phase role e in if ltb 128 (length e'.stack) then refuse else read e'
open_in phase role r = r

-- The other phases: a value, or the end of an empty array.
unfoldable pub value_phase : ℕ → ℕ → ℕ → ℕ → Envelope → Round
unfolding push pop
value_phase phase role p ch e =
    if phase == 5 && ch == b']'
    then value_done (pop e)
    else if ch == b'"'
    then read (record e {
      lex = 1;
      key = 0;
      capture = if not (role == 0) && p == 1 then 1 else 0;
      index = 0;
      mask = if not (role == 0) && p == 1 then 8191 else 0;
    })
    else if ch == b'{' || ch == b'['
    then open_in (if ch == b'{' then 0 else 5) (child_role role p ch) (value_done e)
    else if ch == b't' || ch == b'f' || ch == b'n'
    then read (record e {
      lex = 3;
      literal = if ch == b't' then 0 else if ch == b'f' then 1 else 2;
      index = 1;
    })
    else if ch == b'-' || is_digit ch
    then read (record e { lex = 2; number = if ch == b'-' then 0 else if ch == b'0' then 1 else 2 })
    else refuse

-- The `match` on the phase of the innermost container.
unfoldable pub phase_byte : List ℕ → List ℕ → List ℕ → ℕ → Envelope → Round
unfolding key_phase next_phase value_phase
phase_byte (phase ∷ stack) (role ∷ roles) (p ∷ pending) ch e =
    if phase == 0 || phase == 1
    then key_phase phase role ch e
    else if phase == 2
    then (if ch == b':' then read (set_phase stack 3 e) else refuse)
    else if phase == 4 || phase == 7
    then next_phase phase stack ch e
    else value_phase phase role p ch e
phase_byte _ _ _ ch e = panic

-- No container is open: only the object that begins the line may come.
unfoldable pub first_byte : ℕ → Envelope → Round
unfolding push
first_byte ch e =
    if not (e.started == 0) || not (ch == b'{')
    then refuse
    else read (push 0 1 (record e { started = 1 }))

abbrev pub plain_on : List ℕ → ℕ → Envelope → Round
plain_on [] ch e = first_byte ch e
plain_on (phase ∷ stack) ch e = phase_byte (phase ∷ stack) e.roles e.pending ch e

unfoldable pub plain_byte : ℕ → Envelope → Round
unfolding first_byte phase_byte
plain_byte ch e =
    if is_space ch then read e else if not (e.done == 0) then refuse else plain_on e.stack ch e

-- One round of the loop of `feed`, past the deadline.
unfoldable pub round : ℕ → Envelope → Round
unfolding string_byte literal_byte next_stage number_byte plain_byte
round ch e =
    if e.lex == 1
    then string_byte ch e
    else if e.lex == 3
    then literal_byte (get_elem? words e.literal) ch e
    else if e.lex == 2
    then number_byte (next_stage e.number ch) e
    else plain_byte ch e
