-- ===== src/Claude/Classifier/Fed.antt =====
-- The record that anton-runtime/src/claude/classifier.rs fills in, over all the bytes that it is fed.
use herdr_observatory.Claude.Classifier.{
  text, open_container, target, deep_limit, is_presence, pop, no_node, depth, push, cap, Context,
  Classifier, Frame, scalar, value_done,
}
use herdr_observatory.Claude.Classifier.Feed.{feed, byte, number_read, suspend}
use herdr_observatory.Claude.Classifier.Filled.{
  Fills, Keeps, kept, scalar-Fills, capture_done_at-Fills, string_byte-Fills, open_container-Fills,
  value_done-Keeps, record_byte-Keeps,
}
use herdr_observatory.Claude.Classifier.Keys.{record_byte}
use herdr_observatory.Claude.Classifier.Strings.{capture_done}
use herdr_observatory.Claude.Classifier.Structure.{
  is_blank, number_in, is_token, capture_of, in_frame, value_at, structural, string_start,
  value_start, after_value, key_start, deep_byte, number_start, opened,
}
use herdr_observatory.Claude.Classifier.Tokens.{
  next_stage, is_final, word, number_byte, number_stage, literal_byte, is_at, literal_word,
  number_end, spelled,
}
use herdr_observatory.Common.{is_digit, hex_id}
use herdr_observatory.Json.{Value}
use herdr_observatory.Prelude.{
  ℕ, false, true, length, ◌+◌, ◌-◌, ltb, ◌∙◌, List, String, Option, none, some, [], ◌∷◌, not, ◌||◌,
  ◌&&◌, ◌==◌, leb, if◌then◌else◌, if_elim, ◌≡◌, refl, Holds,
}

push-Fills :
    (x : Context) (phase node : ℕ) (c : Classifier)
    → Fills x c
    → Holds (Fills x) (push phase node c)
unfolding push
push-Fills x phase node c f =
    if_elim (Holds (Fills x)) (leb depth (length c.frames)) (λ _. tt) (λ _. f)

opened-Fills :
    (x : Context) (ch : ℕ) (p : ℕ × Classifier) → Fills x (p.1) → Holds (Fills x) (opened ch p)
opened-Fills x ch (child, c) f =
    if_elim (Holds (Fills x)) (leb depth (length c.frames) && child == no_node) (λ _. f)
      (λ _. push-Fills x (if ch == b'{' then 0 else 5) child c f)

module _ (x : Context) (hex : (s : String) → hex_id (x.sha256 s) 64 ≡ true) where
  done-Fills : (c d : Classifier) → Keeps c d → Fills x c → Fills x (value_done d)
  done-Fills c d e f = kept x hex c (value_done d) (value_done-Keeps d ∙ e) f

  recorded-Fills : (ch : ℕ) (c d : Classifier) → Keeps c d → Fills x c → Fills x (record_byte ch d)
  recorded-Fills ch c d e f = kept x hex c (record_byte ch d) (record_byte-Keeps ch d ∙ e) f

  deep_byte-Fills : (ch : ℕ) (c : Classifier) → Fills x c → Holds (Fills x) (deep_byte ch c)
  unfolding deep_byte
  deep_byte-Fills ch c f =
      let P : Option Classifier → Type 0 = Holds (Fills x) in
      if_elim P (ch == b'"') (λ _. f)
        λ _.
          if_elim P ((ch == b'{' || ch == b'[') && ltb c.deep deep_limit) (λ _. f)
            λ _.
              if_elim P (ch == b'}' || ch == b']')
                (λ _.
                  if_elim (Fills x) (c.deep - 1 == 0)
                    (λ _. done-Fills c (record c { deep = c.deep - 1 }) refl f) (λ _. f))
                λ _. if_elim P (is_token ch) (λ _. f) (λ _. tt)

  key_start-Fills :
      (phase ch : ℕ) (c : Classifier) → Fills x c → Holds (Fills x) (key_start phase ch c)
  unfolding key_start
  key_start-Fills phase ch c f =
      let P : Option Classifier → Type 0 = Holds (Fills x) in
      if_elim P (phase == 0 && ch == b'}') (λ _. done-Fills c (pop c) refl f)
        λ _. if_elim P (ch == b'"') (λ _. f) (λ _. tt)

  after_value-Fills :
      (phase ch : ℕ) (frame : Frame) (frames : List Frame) (c : Classifier)
      → Fills x c
      → Holds (Fills x) (after_value phase ch frame frames c)
  unfolding after_value
  after_value-Fills phase ch frame frames c f =
      let P : Option Classifier → Type 0 = Holds (Fills x) in
      if_elim P (ch == (if phase == 4 then b'}' else b']')) (λ _. done-Fills c (pop c) refl f)
        λ _. if_elim P (ch == b',') (λ _. f) (λ _. tt)

  string_start-Fills :
      (capture : ℕ) (c : Classifier) → Fills x c → Fills x (string_start x capture c)
  unfolding string_start
  string_start-Fills capture c f =
      let d = record c { lex = 1; key = 0; capture = capture } in
      if_elim (λ e. Fills x e) (is_presence capture) (λ _. scalar-Fills x hex capture (text "") d f)
        (λ _. f)

  value_at-Fills :
      (node ch : ℕ) (c : Classifier) → Fills x c → Holds (Fills x) (value_at x node ch c)
  unfolding number_start
  value_at-Fills node ch c f =
      let P : Option Classifier → Type 0 = Holds (Fills x) in
      if_elim P (ch == b'"') (λ _. string_start-Fills (capture_of node) c f)
        λ _.
          if_elim P (ch == b'{' || ch == b'[')
            (λ _.
              opened-Fills x ch (open_container x node (ch == b'{') c)
                (open_container-Fills x hex node (ch == b'{') c f))
            λ _.
              if_elim P (ch == b't' || ch == b'f' || ch == b'n') (λ _. f)
                λ _.
                  if_elim P (ch == b'-' || is_digit ch)
                    (λ _. recorded-Fills ch c (number_in (capture_of node) ch c) refl f) λ _. tt

  in_frame-Fills :
      (ch : ℕ) (frames : List Frame) (c : Classifier)
      → Fills x c
      → Holds (Fills x) (in_frame x ch frames c)
  unfolding value_start
  in_frame-Fills ch [] c f =
      if_elim (Holds (Fills x)) (not (c.started == 0) || not (ch == b'{')) (λ _. tt)
        (λ _. push-Fills x 0 0 (record c { started = 1 }) f)
  in_frame-Fills ch (frame ∷ frames) c f =
      let P : Option Classifier → Type 0 = Holds (Fills x) in
      if_elim P (frame.phase == 0 || frame.phase == 1) (λ _. key_start-Fills frame.phase ch c f)
        λ _.
          if_elim P (frame.phase == 2) (λ _. if_elim P (ch == b':') (λ _. f) (λ _. tt))
            λ _.
              if_elim P (frame.phase == 4 || frame.phase == 7)
                (λ _. after_value-Fills frame.phase ch frame frames c f)
                λ _.
                  if_elim P (frame.phase == 3 || frame.phase == 5 || frame.phase == 6)
                    (λ _.
                      if_elim P (frame.phase == 5 && ch == b']') (λ _. done-Fills c (pop c) refl f)
                        (λ _. value_at-Fills (target c.frames) ch c f))
                    λ _. tt

  structural-Fills : (ch : ℕ) (c : Classifier) → Fills x c → Holds (Fills x) (structural x ch c)
  unfolding structural
  structural-Fills ch c f =
      let P : Option Classifier → Type 0 = Holds (Fills x) in
      if_elim P (is_blank ch) (λ _. f)
        λ _.
          if_elim P (not (c.done == 0)) (λ _. tt)
            λ _.
              if_elim P (ltb 0 c.deep) (λ _. deep_byte-Fills ch c f)
                λ _. in_frame-Fills ch c.frames c f

  spelled-Fills :
      (letters : List ℕ) (v : Value) (c : Classifier) → Fills x c → Fills x (spelled x letters v c)
  unfolding spelled
  spelled-Fills letters v c f =
      let d = record c { index = c.index + 1; capture = no_node } in
      let e = scalar x c.capture v d in
      if_elim (Fills x) (c.index + 1 == length letters)
        (λ _. done-Fills e (record e { lex = 0 }) refl (scalar-Fills x hex c.capture v d f))
        (λ _. f)

  literal_word-Fills :
      (o : Option (List ℕ × Value)) (ch : ℕ) (c : Classifier)
      → Fills x c
      → Holds (Fills x) (literal_word x o ch c)
  literal_word-Fills none ch c f = tt
  literal_word-Fills (some (letters, v)) ch c f =
      if_elim (Holds (Fills x)) (is_at letters c.index ch) (λ _. spelled-Fills letters v c f)
        (λ _. tt)

  number_end-Fills : (c : Classifier) → Fills x c → Fills x (number_end x c)
  unfolding number_end capture_done
  number_end-Fills c f =
      let d = capture_done x c in
      done-Fills d (record d { lex = 0 }) refl
        (capture_done_at-Fills x hex c.capture (record c { capture = no_node }) f)

  -- A byte of a number, read again where it ends it.
  number_read-Fills :
      (o : Option ℕ) (ch : ℕ) (c : Classifier)
      → Fills x c
      → Holds (Fills x) (number_read x ch (number_stage x o ch c))
  number_read-Fills (some stage) ch c f = recorded-Fills ch c (record c { number = stage }) refl f
  number_read-Fills none ch c f =
      if_elim (λ o. Holds (Fills x) (number_read x ch o)) (is_final c.number)
        (λ _. structural-Fills ch (number_end x c) (number_end-Fills c f)) (λ _. tt)

  byte-Fills : (ch : ℕ) (c : Classifier) → Fills x c → Holds (Fills x) (byte x ch c)
  unfolding byte literal_byte number_byte
  byte-Fills ch c f =
      let P : Option Classifier → Type 0 = Holds (Fills x) in
      if_elim P (c.lex == 1) (λ _. string_byte-Fills x hex ch c f)
        λ _.
          if_elim P (c.lex == 3) (λ _. literal_word-Fills (word c.literal) ch c f)
            λ _.
              if_elim P (c.lex == 2) (λ _. number_read-Fills (next_stage c.number ch) ch c f)
                λ _. structural-Fills ch c f

  fed-Fills :
      (chars : List ℕ) (o : Option Classifier)
      → Holds (Fills x) o
      → Holds (Fills x) (elim o [ none ↦ none | some c ↦ feed x chars c ])
  unfolding feed
  fed-Fills chars none f = tt
  fed-Fills [] (some c) f = f
  fed-Fills (ch ∷ chars) (some c) f = fed-Fills chars (byte x ch c) (byte-Fills ch c f)

  pub feed-Fills : (chars : List ℕ) (c : Classifier) → Fills x c → Holds (Fills x) (feed x chars c)
  feed-Fills chars c f = fed-Fills chars (some c) f

pub suspend-Fills : (x : Context) (c : Classifier) → Fills x c → Fills x (suspend c)
unfolding suspend
suspend-Fills x c f =
    if_elim (λ d. Fills x (record d { value = []; scan = []; high = false }))
      ((c.lex == 1 || c.lex == 2) && not (c.capture == no_node))
      (λ _. if_elim (Fills x) (c.capture == 3 && ltb cap (length c.value)) (λ _. f) (λ _. f))
      (λ _. f)
