-- ===== src/Claude/Classifier/Filled.antt =====
-- The record that the classifier of anton-runtime/src/claude/classifier.rs fills in is one that the
-- replay may take, whatever bytes it is fed and wherever a pass ends.
use herdr_observatory.Claude.Analyse.{wide}
use herdr_observatory.Claude.Classifier.{
  stand_in, end, object, cap, is_frame, is_text_node, no_node, Context, Classifier, Frame, scalar,
  value_done, value_done_in, element_done, open_container,
}
use herdr_observatory.Claude.Classifier.Keys.{
  quoted, string_of, viable, node_of, parent_of, key_done, record_byte, key_byte, value_byte,
  select_key, key_done_in,
}
use herdr_observatory.Claude.Classifier.Strings.{
  unit_of, is_high, code_unit, string_done, hex_digit, escaped, plain_byte, string_byte, lead_byte,
  clear_texts, string_done_in, too_long, parsed, capture_done_at, unit, text_done, string_part,
  capture_done,
}
use herdr_observatory.Claude.Finished.{FillingOk, set-Ok}
use herdr_observatory.Common.{hex_id}
use herdr_observatory.Envelope.Strings.{continuation, to_digit, is_escape}
use herdr_observatory.Json.{Value}
use herdr_observatory.Prelude.{
  false, ℕ, Bool, true, length, ◌+◌, ◌%◌, ◌-◌, ◌*◌, ltb, Holds, ◌∙◌, List, String, Option, none,
  some, [], ◌∷◌, ◌++◌, not, ◌||◌, ◌&&◌, ◌==◌, leb, if◌then◌else◌, if_elim, ◌≡◌, refl, arith,
}

abbrev pub Keeps : Classifier → Classifier → Type 0
Keeps c d = d.entry ≡ c.entry

element_done-Keeps : (node : ℕ) (c : Classifier) → Keeps c (element_done node c)
element_done-Keeps node c = ground arith

value_done_in-Keeps : (frames : List Frame) (c : Classifier) → Keeps c (value_done_in frames c)
value_done_in-Keeps [] c = refl
value_done_in-Keeps (frame ∷ frames) c = ground arith

pub value_done-Keeps : (c : Classifier) → Keeps c (value_done c)
unfolding value_done
value_done-Keeps c = value_done_in-Keeps c.frames c

key_byte-Keeps : (parent ch : ℕ) (c : Classifier) → Keeps c (key_byte parent ch c)
key_byte-Keeps parent ch c =
    if_elim (Keeps c) (not (parent == no_node) && not c.miss)
      (λ _. if_elim (Keeps c) (viable parent (c.name ++ (ch ∷ []))) (λ _. refl) (λ _. refl))
      (λ _. refl)

value_byte-Keeps : (ch : ℕ) (c : Classifier) → Keeps c (value_byte ch c)
value_byte-Keeps ch c =
    if_elim (Keeps c)
      (not (c.capture == no_node) && not (is_text_node c.capture) && leb (length c.value) cap)
      (λ _. refl) (λ _. refl)

pub record_byte-Keeps : (ch : ℕ) (c : Classifier) → Keeps c (record_byte ch c)
unfolding record_byte
record_byte-Keeps ch c =
    if_elim (Keeps c) (not (c.key == 0)) (λ _. key_byte-Keeps (parent_of c.frames) ch c)
      (λ _. value_byte-Keeps ch c)

select_key-Keeps :
    (node : ℕ) (frame : Frame) (frames : List Frame) (c : Classifier)
    → Keeps c (select_key node frame frames c)
select_key-Keeps node frame frames c = ground arith

unit-Keeps : (x : Context) (u : ℕ) (c : Classifier) → Keeps c (unit x u c)
unfolding unit text_done
unit-Keeps x u c = ground arith

pub string_part-Keeps :
    (x : Context) (o : Option ℕ) (high : Bool) (ch : ℕ) (c : Classifier)
    → Keeps c (string_part x o high ch c)
unfolding string_part
string_part-Keeps x none high ch c = record_byte-Keeps ch c
string_part-Keeps x (some u) high ch c =
    let d = record c { high = high } in
    record_byte-Keeps ch (if c.key == 0 then unit x u d else d)
    ∙ if_elim (Keeps c) (c.key == 0) (λ _. unit-Keeps x u d) (λ _. refl)

key_done_in-Keeps :
    (x : Context) (frames : List Frame) (c : Classifier) → Keeps c (key_done_in x frames c)
key_done_in-Keeps x [] c = refl
key_done_in-Keeps x (frame ∷ frames) c =
    if_elim (Keeps c) (frame.node == no_node) (λ _. refl)
      λ _.
        if_elim (Keeps c) c.miss (λ _. refl)
          (λ _.
            select_key-Keeps (node_of frame.node (string_of (x.parse (quoted c.name)))) frame frames
              (record c { name = [] }))

abbrev pub Fills : Context → Classifier → Type 0
Fills x c = FillingOk x.horizon c.entry

-- Every byte keeps what holds of the fields, given a digest of 64 hexadecimal digits.
module _ (x : Context) (hex : (s : String) → hex_id (x.sha256 s) 64 ≡ true) where
  pub kept : (c d : Classifier) → Keeps c d → Fills x c → Fills x d
  kept c d e f = rw e f

  pub scalar-Fills :
      (node : ℕ) (v : Value) (c : Classifier) → Fills x c → Fills x (scalar x node v c)
  unfolding scalar
  scalar-Fills node v c f =
      if_elim (Fills x) (node == 18) (λ _. f)
        λ _.
          if_elim (Fills x) (leb 20 node && leb node 24) (λ _. f)
            λ _.
              if_elim (Fills x) (node == 38 || node == 39 || node == 41 || node == 42) (λ _. f)
                λ _.
                  if_elim (Fills x) (node == no_node || is_frame node) (λ _. f)
                    λ _. set-Ok x.sha256 hex x.timestamp_us x.id x.horizon node v c.entry f

  pub open_container-Fills :
      (node : ℕ) (is_map : Bool) (c : Classifier)
      → Fills x c
      → Fills x ((open_container x node is_map c).1)
  unfolding open_container
  open_container-Fills node is_map c f =
      let P : ℕ × Classifier → Type 0 = λ p. Fills x (p.1) in
      if_elim P (node == 9 && is_map) (λ _. f)
        λ _.
          if_elim P
            (((node == 13 || node == 19 || node == 35 || node == 40) && is_map)
              || ((node == 39 || node == 38) && not is_map))
            (λ _. f)
            λ _.
              if_elim P ((node == 25 || node == 27) && is_map)
                (λ _. scalar-Fills node (object end) c f)
                λ _.
                  if_elim P (node == 18 && not is_map) (λ _. f)
                    λ _.
                      if_elim P (node == 18) (λ _. f)
                        λ _.
                          if_elim P (node == no_node || is_frame node) (λ _. f)
                            λ _. scalar-Fills node (stand_in is_map) c f

  parsed-Fills :
      (node : ℕ) (o : Option Value) (c : Classifier) → Fills x c → Fills x (parsed x node o c)
  parsed-Fills node none c f = f
  parsed-Fills node (some v) c f = scalar-Fills node v c f

  too_long-Fills : (node : ℕ) (c : Classifier) → Fills x c → Fills x (too_long node c)
  too_long-Fills node c f = if_elim (Fills x) (node == 3) (λ _. f) (λ _. f)

  pub capture_done_at-Fills :
      (node : ℕ) (c : Classifier) → Fills x c → Fills x (capture_done_at x node c)
  unfolding text_done
  capture_done_at-Fills node c f =
      if_elim (Fills x) (node == no_node) (λ _. f)
        λ _.
          if_elim (Fills x) (is_text_node node)
            (λ _.
              if_elim (λ d. Fills x (clear_texts d)) (c.lex == 1)
                (λ _. kept c (text_done x node c) refl f) (λ _. f))
            λ _.
              if_elim (Fills x) (ltb cap (length c.value))
                (λ _. too_long-Fills node (record c { value = [] }) f)
                λ _.
                  parsed-Fills node (x.parse (if c.lex == 1 then quoted c.value else c.value))
                    (record c { value = [] }) f

  string_done_in-Fills :
      (frames : List Frame) (c : Classifier)
      → Fills x c
      → Holds (Fills x) (string_done_in x frames c)
  unfolding capture_done key_done
  string_done_in-Fills [] c f = tt
  string_done_in-Fills (frame ∷ frames) c f =
      if_elim (Fills x) (not (c.key == 0))
        (λ _. kept c (key_done x c) (key_done_in-Keeps x c.frames c) f)
        λ _.
          kept (capture_done x c) (value_done (capture_done x c))
            (value_done-Keeps (capture_done x c))
            (capture_done_at-Fills c.capture (record c { capture = no_node }) f)

  string_part-Fills :
      (o : Option ℕ) (high : Bool) (ch : ℕ) (c d : Classifier)
      → Keeps c d
      → Fills x c
      → Fills x (string_part x o high ch d)
  string_part-Fills o high ch c d e f =
      kept c (string_part x o high ch d) (string_part-Keeps x o high ch d ∙ e) f

  hex_digit-Fills :
      (o : Option ℕ) (ch : ℕ) (c : Classifier) → Fills x c → Holds (Fills x) (hex_digit x o ch c)
  hex_digit-Fills none ch c f = tt
  hex_digit-Fills (some digit) ch c f =
      let code = c.code * 16 % 65536 + digit in
      if_elim (Fills x) (c.hex + 1 == 4)
        (λ _.
          string_part-Fills (code_unit c.high code) (is_high code) ch c
            (record c { code = code; hex = 0; escape = 0; high = false }) refl f)
        (λ _. string_part-Fills none false ch c (record c { code = code; hex = c.hex + 1 }) refl f)

  escaped-Fills : (ch : ℕ) (c : Classifier) → Fills x c → Holds (Fills x) (escaped x ch c)
  escaped-Fills ch c f =
      if_elim (Holds (Fills x)) (ch == b'u')
        (λ _. string_part-Fills none false ch c (record c { escape = 2; hex = 0; code = 0 }) refl f)
        λ _.
          if_elim (Holds (Fills x)) (is_escape ch)
            (λ _. string_part-Fills (some (unit_of ch)) false ch c (record c { escape = 0 }) refl f)
            λ _. tt

  lead_byte-Fills :
      (o : Option ℕ) (ch : ℕ) (c : Classifier) → Fills x c → Holds (Fills x) (lead_byte x o ch c)
  lead_byte-Fills none ch c f = tt
  lead_byte-Fills (some utf) ch c f =
      string_part-Fills (some wide) false ch c
        (record c {
          utf = utf;
          lo = if ch == 224 then 160 else if ch == 240 then 144 else 128;
          hi = if ch == 237 then 159 else if ch == 244 then 143 else 191;
        })
        refl f

  plain_byte-Fills : (ch : ℕ) (c : Classifier) → Fills x c → Holds (Fills x) (plain_byte x ch c)
  plain_byte-Fills ch c f =
      if_elim (Holds (Fills x)) (ltb ch 32) (λ _. tt)
        λ _.
          if_elim (Holds (Fills x)) (leb 128 ch) (λ _. lead_byte-Fills (continuation ch) ch c f)
            λ _. string_part-Fills (some ch) false ch c c refl f

  pub string_byte-Fills :
      (ch : ℕ) (c : Classifier) → Fills x c → Holds (Fills x) (string_byte x ch c)
  unfolding string_byte string_done
  string_byte-Fills ch c f =
      let P : Option Classifier → Type 0 = Holds (Fills x) in
      if_elim P (not (c.utf == 0))
        (λ _.
          if_elim P (leb c.lo ch && leb ch c.hi)
            (λ _.
              string_part-Fills none false ch c (record c { utf = c.utf - 1; lo = 128; hi = 191 })
                refl f)
            (λ _. tt))
        λ _.
          if_elim P (c.escape == 2) (λ _. hex_digit-Fills (to_digit ch) ch c f)
            λ _.
              if_elim P (not (c.escape == 0)) (λ _. escaped-Fills ch c f)
                λ _.
                  if_elim P (ch == b'\\')
                    (λ _. string_part-Fills none false ch c (record c { escape = 1 }) refl f)
                    λ _.
                      if_elim P (ch == b'"')
                        (λ _.
                          if_elim P (ltb 0 c.deep) (λ _. f)
                            (λ _. string_done_in-Fills c.frames c f))
                        λ _. plain_byte-Fills ch c f
