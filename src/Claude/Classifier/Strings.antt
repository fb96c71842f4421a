-- ===== src/Claude/Classifier/Strings.antt =====
-- Strings in anton-runtime/src/claude/classifier.rs: the bytes of a string, the units of a text, and
-- what a complete string, key or captured value does. A `u16` code keeps its wrap-around.
use herdr_observatory.Claude.Analyse.{wide, analyse}
use herdr_observatory.Claude.Blocks.{text_result}
use herdr_observatory.Claude.Classifier.{
  Context, Classifier, Frame, no_node, cap, is_text_node, scalar, value_done,
}
use herdr_observatory.Claude.Classifier.Keys.{key_done, record_byte, quoted}
use herdr_observatory.Envelope.Bits.{set_bit}
use herdr_observatory.Envelope.Strings.{to_digit, is_escape, continuation}
use herdr_observatory.Json.{Value}
use herdr_observatory.Prelude.{
  ℕ, Bool, false, length, ◌+◌, ◌%◌, ltb, ◌-◌, ◌*◌, List, Option, none, some, [], ◌∷◌, ◌++◌, not,
  ◌&&◌, ◌==◌, leb, if◌then◌else◌,
}

abbrev pub limit : ℕ
limit = 4096

-- `b"\"\\/\x08\x0c\n\r\t"`, by the letter of the escape.
abbrev pub unit_of : ℕ → ℕ
unit_of ch =
    if ch == b'b'
    then 8
    else if ch == b'f'
    then 12
    else if ch == b'n'
    then 10
    else if ch == b'r'
    then 13
    else if ch == b't'
    then 9
    else ch

-- What one byte of a string is of a text: a unit, and whether it is a high surrogate.
abbrev pub is_high : ℕ → Bool
is_high code = leb 55296 code && leb code 56319

unfoldable pub code_unit : Bool → ℕ → Option ℕ
code_unit paired code =
    if leb code 127
    then some code
    else if leb 56320 code && leb code 57343 && paired
    then none
    else some wide

abbrev pub frames_to_colon : List Frame → List Frame
frames_to_colon [] = []
frames_to_colon (frame ∷ frames) = record frame { phase = 2 } ∷ frames

abbrev pub mark_lost : ℕ → Classifier → Classifier
mark_lost node c = record c { lost = set_bit c.lost node }

abbrev pub mismatch : Classifier → Classifier
mismatch c = record c { entry = record c.entry { identity = 2 } }

-- A captured value that is too long: a session that long is another session.
abbrev pub too_long : ℕ → Classifier → Classifier
too_long node c = if node == 3 then mismatch c else mark_lost node c

abbrev pub clear_texts : Classifier → Classifier
clear_texts c = record c { scan = []; value = [] }

module _ (x : Context) where
  unfoldable pub text_done : ℕ → Classifier → Classifier
  unfolding analyse
  text_done node c = record c {
    blocks = text_result node (analyse x.digest c.scan) c.blocks;
    scan = [];
  }

  abbrev pub parsed : ℕ → Option Value → Classifier → Classifier
  parsed node none c = mark_lost node c
  parsed node (some v) c = scalar x node v c

  abbrev pub capture_done_at : ℕ → Classifier → Classifier
  capture_done_at node c =
      if node == no_node
      then c
      else if is_text_node node
      then clear_texts (if c.lex == 1 then text_done node c else c)
      else if ltb cap (length c.value)
      then too_long node (record c { value = [] })
      else parsed node (x.parse (if c.lex == 1 then quoted c.value else c.value))
          (record c { value = [] })

  -- The captured string or number is complete.
  unfoldable pub capture_done : Classifier → Classifier
  unfolding text_done scalar set_bit
  capture_done c = capture_done_at c.capture (record c { capture = no_node })

  -- One unit of a text; after the prefix the rest of the value is skipped.
  unfoldable pub unit : ℕ → Classifier → Classifier
  unfolding text_done
  unit u c =
      if not (is_text_node c.capture)
      then c
      else if ltb (length c.scan) limit
      then record c { scan = c.scan ++ (u ∷ []) }
      else text_done c.capture (record c { capture = no_node })

  -- The end of each branch that reads on.
  unfoldable pub string_part : Option ℕ → Bool → ℕ → Classifier → Classifier
  unfolding unit record_byte
  string_part none high ch c = record_byte ch c
  string_part (some u) high ch c =
      let d = record c { high = high } in record_byte ch (if c.key == 0 then unit u d else d)

  abbrev pub last_digit : ℕ → ℕ → Classifier → Classifier
  last_digit code ch c =
      string_part (code_unit c.high code) (is_high code) ch
        (record c { code = code; hex = 0; escape = 0; high = false })

  -- One digit of a `\u` escape.
  abbrev pub hex_digit : Option ℕ → ℕ → Classifier → Option Classifier
  hex_digit none ch c = none
  hex_digit (some digit) ch c =
      let code = c.code * 16 % 65536 + digit in
      some (
        if c.hex + 1 == 4
        then last_digit code ch c
        else string_part none false ch (record c { code = code; hex = c.hex + 1 }))

  abbrev pub escaped : ℕ → Classifier → Option Classifier
  escaped ch c =
      if ch == b'u'
      then some (string_part none false ch (record c { escape = 2; hex = 0; code = 0 }))
      else if is_escape ch
      then some (string_part (some (unit_of ch)) false ch (record c { escape = 0 }))
      else none

  abbrev pub lead_byte : Option ℕ → ℕ → Classifier → Option Classifier
  lead_byte none ch c = none
  lead_byte (some utf) ch c = some (
      string_part (some wide) false ch (record c {
        utf = utf;
        lo = if ch == 224 then 160 else if ch == 240 then 144 else 128;
        hi = if ch == 237 then 159 else if ch == 244 then 143 else 191;
      }))

  -- `let last = self.stack.len().checked_sub(1).ok_or(())?`.
  abbrev pub string_done_in : List Frame → Classifier → Option Classifier
  string_done_in [] c = none
  string_done_in (frame ∷ frames) c =
      let d =
        if not (c.key == 0)
        then (let e = key_done x c in record e { frames = frames_to_colon e.frames })
        else value_done (capture_done c) in
      some (record d { lex = 0; key = 0; high = false })

  unfoldable pub string_done : Classifier → Option Classifier
  unfolding key_done capture_done value_done
  string_done c = string_done_in c.frames c

  abbrev pub plain_byte : ℕ → Classifier → Option Classifier
  plain_byte ch c =
      if ltb ch 32
      then none
      else if leb 128 ch
      then lead_byte (continuation ch) ch c
      else some (string_part (some ch) false ch c)

  unfoldable pub string_byte : ℕ → Classifier → Option Classifier
  unfolding string_part string_done code_unit to_digit continuation
  string_byte ch c =
      if not (c.utf == 0)
      then (if leb c.lo ch && leb ch c.hi
          then some (string_part none false ch (record c { utf = c.utf - 1; lo = 128; hi = 191 }))
          else none)
      else if c.escape == 2
      then hex_digit (to_digit ch) ch c
      else if not (c.escape == 0)
      then escaped ch c
      else if ch == b'\\'
      then some (string_part none false ch (record c { escape = 1 }))
      else if ch == b'"'
      then (if ltb 0 c.deep then some (record c { lex = 0 }) else string_done c)
      else plain_byte ch c
