-- ===== src/Claude/Classifier/Structure.antt =====
-- `structural` and `deep_byte` of anton-runtime/src/claude/classifier.rs: the bytes between the tokens
-- of a record.
use herdr_observatory.Claude.Classifier.{
  Context, Classifier, Frame, no_node, depth, deep_limit, is_frame, is_presence, scalar,
  open_container, value_done, push, pop, target,
}
use herdr_observatory.Claude.Classifier.Keys.{record_byte}
use herdr_observatory.Common.{is_digit, codes}
use herdr_observatory.Json.{text}
use herdr_observatory.Prelude.{
  ℕ, Bool, false, true, length, ◌-◌, ◌+◌, ltb, List, Option, none, some, [], ◌∷◌, not, ◌||◌, ◌&&◌,
  ◌==◌, leb, if◌then◌else◌, any,
}

abbrev pub is_blank : ℕ → Bool
is_blank ch = ch == b' ' || ch == b'\r' || ch == b'\n' || ch == b'\t'

-- `self.stack[last] = phase`.
abbrev pub set_phase : ℕ → Frame → List Frame → Classifier → Classifier
set_phase phase frame frames c = record c { frames = record frame { phase = phase } ∷ frames }

abbrev pub close : Classifier → Classifier
close c = value_done (pop c)

abbrev pub is_token : ℕ → Bool
is_token ch =
    ch == b','
    || ch == b':'
    || ch == b'-'
    || ch == b'+'
    || ch == b'.'
    || is_digit ch
    || any (λ letter. letter == ch) (codes "truefalsn")
    || ch == b'E'

-- A byte between the tokens of what is nested past the bound.
unfoldable pub deep_byte : ℕ → Classifier → Option Classifier
unfolding value_done
deep_byte ch c =
    if ch == b'"'
    then some (record c { lex = 1; key = 0 })
    else if (ch == b'{' || ch == b'[') && ltb c.deep deep_limit
    then some (record c { deep = c.deep + 1 })
    else if ch == b'}' || ch == b']'
    then (let d = record c { deep = c.deep - 1 } in
        some (if c.deep - 1 == 0 then value_done d else d))
    else if is_token ch
    then some c
    else none

-- A key, or the end of an empty object.
unfoldable pub key_start : ℕ → ℕ → Classifier → Option Classifier
unfolding value_done
key_start phase ch c =
    if phase == 0 && ch == b'}'
    then some (close c)
    else if ch == b'"'
    then some (record c { lex = 1; key = 1; name = []; miss = false })
    else none

unfoldable pub after_value : ℕ → ℕ → Frame → List Frame → Classifier → Option Classifier
unfolding value_done
after_value phase ch frame frames c =
    if ch == (if phase == 4 then b'}' else b']')
    then some (close c)
    else if ch == b','
    then some (set_phase (if phase == 4 then 1 else 6) frame frames c)
    else none

-- A scalar of a frame is not captured.
abbrev pub capture_of : ℕ → ℕ
capture_of node = if is_frame node then no_node else node

-- The container joins the frames; past the bound it is counted.
abbrev pub opened : ℕ → ℕ × Classifier → Option Classifier
opened ch (child, c) =
    if leb depth (length c.frames) && child == no_node
    then some (record c { deep = 1; overflow = true })
    else push (if ch == b'{' then 0 else 5) child c

abbrev pub literal_start : ℕ → ℕ → Classifier → Classifier
literal_start capture ch c = record c {
  lex = 3;
  literal = if ch == b't' then 0 else if ch == b'f' then 1 else 2;
  index = 1;
  capture = capture;
}

abbrev pub number_in : ℕ → ℕ → Classifier → Classifier
number_in capture ch c = record c {
  lex = 2;
  number = if ch == b'-' then 0 else if ch == b'0' then 1 else 2;
  capture = capture;
  value = [];
}

unfoldable pub number_start : ℕ → ℕ → Classifier → Classifier
unfolding record_byte
number_start capture ch c = record_byte ch (number_in capture ch c)

module _ (x : Context) where
  -- A string starts: where only its presence counts, it is set at once.
  unfoldable pub string_start : ℕ → Classifier → Classifier
  unfolding scalar
  string_start capture c =
      let d = record c { lex = 1; key = 0; capture = capture } in
      let e =
        if is_presence capture
        then record (scalar x capture (text "") d) { capture = no_node }
        else d in
      record e { value = []; scan = [] }

  abbrev pub value_at : ℕ → ℕ → Classifier → Option Classifier
  value_at node ch c =
      if ch == b'"'
      then some (string_start (capture_of node) c)
      else if ch == b'{' || ch == b'['
      then opened ch (open_container x node (ch == b'{') c)
      else if ch == b't' || ch == b'f' || ch == b'n'
      then some (literal_start (capture_of node) ch c)
      else if ch == b'-' || is_digit ch
      then some (number_start (capture_of node) ch c)
      else none

  unfoldable pub value_start : ℕ → ℕ → Classifier → Option Classifier
  unfolding value_done target push open_container string_start number_start
  value_start phase ch c =
      if phase == 5 && ch == b']' then some (close c) else value_at (target c.frames) ch c

  abbrev pub in_frame : ℕ → List Frame → Classifier → Option Classifier
  in_frame ch [] c =
      if not (c.started == 0) || not (ch == b'{') then none else push 0 0 (record c { started = 1 })
  in_frame ch (frame ∷ frames) c =
      if frame.phase == 0 || frame.phase == 1
      then key_start frame.phase ch c
      else if frame.phase == 2
      then (if ch == b':' then some (set_phase 3 frame frames c) else none)
      else if frame.phase == 4 || frame.phase == 7
      then after_value frame.phase ch frame frames c
      else if frame.phase == 3 || frame.phase == 5 || frame.phase == 6
      then value_start frame.phase ch c
      else none

  unfoldable pub structural : ℕ → Classifier → Option Classifier
  unfolding key_start after_value value_start push deep_byte
  structural ch c =
      if is_blank ch
      then some c
      else if not (c.done == 0)
      then none
      else if ltb 0 c.deep
      then deep_byte ch c
      else in_frame ch c.frames c
