-- ===== src/Envelope/Strings.antt =====
-- String tokens of anton-runtime/src/envelope.rs: `character`, `string_done` and the branch of
-- `feed` for a byte inside a string.
use herdr_observatory.Common.{codes, is_digit}
use herdr_observatory.Envelope.{Envelope, Round, read, refuse, panic, bump_index, value_done}
use herdr_observatory.Envelope.Bits.{test_bit, set_bit}
use herdr_observatory.Envelope.Names.{names, narrow, has_char, has_nibble, complete, first_bit}
use herdr_observatory.Prelude.{
  ℕ, ◌+◌, ◌-◌, Bool, not, ◌&&◌, ◌||◌, Option, none, some, List, [], ◌∷◌, ◌==◌, ltb, leb,
  if◌then◌else◌, any,
}

unfoldable pub character : ℕ → Envelope → Envelope
character ch e = record e {
  mask = narrow (has_char e.index ch) 0 names e.mask;
  index = bump_index e.index;
}

-- The key that a complete name stands for in an object.
abbrev pub key_of : ℕ → ℕ
key_of mask =
    if test_bit mask 0 then 1 else if test_bit mask 6 then 2 else if test_bit mask 7 then 3 else 0

abbrev pub is_relevant : ℕ → ℕ → Bool
is_relevant role key =
    (role == 1 && (key == 1 || key == 2))
    || (role == 2 && (key == 1 || key == 3))
    || (role == 3 && key == 1)

-- A key: refused where a relevant key comes twice.
unfoldable pub key_done : ℕ → List ℕ → List ℕ → List ℕ → List ℕ → Envelope → Round
key_done key (phase ∷ stack) (role ∷ roles) (p ∷ pending) (seen ∷ rest) e =
    if is_relevant role key
    then (if test_bit seen (key - 1)
        then refuse
        else read (record e {
          seen = set_bit seen (key - 1) ∷ rest;
          pending = key ∷ pending;
          stack = 2 ∷ stack;
          lex = 0;
        }))
    else read (record e { pending = 0 ∷ pending; stack = 2 ∷ stack; lex = 0 })
key_done key _ _ _ _ e = panic

-- The identifier of a complete name goes where its role says.
unfoldable pub store_name : ℕ → ℕ → Envelope → Envelope
store_name role value e =
    if role == 1
    then record e { kind = value }
    else if role == 2
    then record e { payload_type = value }
    else if role == 3
    then record e { item_type = value }
    else e

-- `self.lex = 0` after `value_done`.
abbrev pub end_token : Round → Round
end_token (read e) = read (record e { lex = 0 })
end_token r = r

abbrev pub other_names : List (List ℕ) → List (List ℕ)
other_names [] = []
other_names (name ∷ rest) = rest

unfoldable pub text_done : ℕ → List ℕ → List ℕ → Envelope → Round
unfolding store_name value_done
text_done mask (role ∷ roles) (p ∷ pending) e = end_token (
    value_done (
      if not (role == 0) && p == 1
      then store_name role (first_bit 1 (other_names names) mask) e
      else e))
text_done mask _ _ e = panic

unfoldable pub string_done : Envelope → Round
unfolding key_done text_done
string_done e =
    let mask = complete e.index 0 names e.mask in
    if not (e.key == 0)
    then key_done (key_of mask) e.stack e.roles e.pending e.seen e
    else text_done mask e.roles e.pending e

-- `char::to_digit(16)`.
unfoldable pub to_digit : ℕ → Option ℕ
to_digit ch =
    if is_digit ch
    then some (ch - b'0')
    else if leb b'a' ch && leb ch b'f'
    then some (ch - b'a' + 10)
    else if leb b'A' ch && leb ch b'F'
    then some (ch - b'A' + 10)
    else none

-- One digit of a `\u` escape. `3 - self.hex` would overflow past 3.
unfoldable pub hex_digit : Option ℕ → Envelope → Round
hex_digit none e = refuse
hex_digit (some digit) e =
    if ltb 3 e.hex
    then panic
    else let mask' = narrow (has_nibble e.index e.hex digit) 0 names e.mask in
      read (
        if e.hex + 1 == 4
        then record e { mask = mask'; index = bump_index e.index; hex = 0; escape = 0 }
        else record e { mask = mask'; hex = e.hex + 1 })

-- The bytes that may follow a backslash, but for `u`.
abbrev pub is_escape : ℕ → Bool
is_escape ch = any (λ c. c == ch) (codes "\"\\/bfnrt")

abbrev pub stands_for_itself : ℕ → Bool
stands_for_itself ch = ch == b'"' || ch == b'\\' || ch == b'/'

unfoldable pub escaped : ℕ → Envelope → Round
unfolding character
escaped ch e =
    if ch == b'u'
    then read (record e { escape = 2; hex = 0 })
    else if is_escape ch
    then (let e' = character (if stands_for_itself ch then ch else 0) e in
        read (record e' { escape = 0 }))
    else refuse

-- How many bytes follow the first byte of a character beyond ASCII.
unfoldable pub continuation : ℕ → Option ℕ
continuation ch =
    if leb 194 ch && leb ch 223
    then some 1
    else if leb 224 ch && leb ch 239
    then some 2
    else if leb 240 ch && leb ch 244
    then some 3
    else none

unfoldable pub lead_byte : Option ℕ → ℕ → Envelope → Round
lead_byte none ch e = refuse
lead_byte (some utf) ch e = read (record e {
  utf = utf;
  lo = if ch == 224 then 160 else if ch == 240 then 144 else 128;
  hi = if ch == 237 then 159 else if ch == 244 then 143 else 191;
})

-- `if self.lex == 1`.
unfoldable pub string_byte : ℕ → Envelope → Round
unfolding character string_done to_digit hex_digit escaped continuation lead_byte
string_byte ch e =
    if not (e.utf == 0)
    then (if leb e.lo ch && leb ch e.hi
        then read (record e { utf = e.utf - 1; lo = 128; hi = 191 })
        else refuse)
    else if e.escape == 2
    then hex_digit (to_digit ch) e
    else if not (e.escape == 0)
    then escaped ch e
    else if ch == b'\\'
    then read (record e { escape = 1 })
    else if ch == b'"'
    then string_done e
    else if ltb ch 32
    then refuse
    else if ltb ch 128
    then read (character ch e)
    else lead_byte (continuation ch) ch (character 0 e)
