-- ===== src/Claude/Classifier/Keys.antt =====
-- Keys in anton-runtime/src/claude/classifier.rs: only bytes that may still spell a consumed key are
-- kept.
use herdr_observatory.Claude.Blocks.{nodes}
use herdr_observatory.Claude.Classifier.{
  cap, is_text_node, Value, Context, Classifier, Frame, no_node,
}
use herdr_observatory.Common.{codes}
use herdr_observatory.Envelope.Bits.{test_bit, set_bit}
use herdr_observatory.Json.{as_str, Value}
use herdr_observatory.Prelude.{
  ℕ, Bool, false, true, length, suc, str_eq, ◌&&◌, ◌==◌, ◌-◌, ◌%◌, ◌+◌, ◌/◌, ltb, any, leb, List,
  String, Option, none, some, [], ◌∷◌, ◌++◌, not, if◌then◌else◌,
}

-- A digit of `{:04x}`.
abbrev pub hex_char : ℕ → ℕ
hex_char digit = if ltb digit 10 then digit + b'0' else digit - 10 + b'a'

-- The escape of a byte after its backslash.
abbrev pub escape_of : ℕ → List ℕ
escape_of want = b'u' ∷ b'0' ∷ b'0' ∷ hex_char (want / 16) ∷ hex_char (want % 16) ∷ []

abbrev pub to_lower : ℕ → ℕ
to_lower c = if leb b'A' c && leb c b'Z' then c + 32 else c

-- As much of an escape as there is, whatever the case of its letters: what follows it.
abbrev pub match_escape : List ℕ → List ℕ → Option (List ℕ)
match_escape [] raw = some raw
match_escape (e ∷ es) [] = some []
match_escape (e ∷ es) (r ∷ rs) = if to_lower e == to_lower r then match_escape es rs else none

abbrev pub starts_lower : List ℕ → Bool
starts_lower [] = true
starts_lower (c ∷ cs) = c == b'u'

-- Plain bytes and escapes decode to a prefix of the key.
unfoldable pub spells : List ℕ → List ℕ → Bool
spells key [] = true
spells [] (c ∷ raw) = false
spells (want ∷ key) (c ∷ raw) =
    if not (c == b'\\')
    then (let rest = spells key raw in c == want && rest)
    else elim (match_escape (escape_of want) raw) [
      | none ↦ false
      | some after ↦ starts_lower raw && spells key after
    ]

-- Whether the bytes that have been read may still spell a key at `parent`.
unfoldable pub viable : ℕ → List ℕ → Bool
unfolding spells
viable parent raw =
    any (λ (owner, key). owner == parent && not (str_eq key "") && spells (codes key) raw) nodes

abbrev pub node_from : ℕ → List (ℕ × String) → ℕ → String → ℕ
node_from n [] parent name = no_node
node_from n ((owner, key) ∷ rest) parent name =
    if owner == parent && not (str_eq key "") && str_eq key name
    then n
    else node_from (suc n) rest parent name

abbrev pub node_of : ℕ → Option String → ℕ
node_of parent none = no_node
node_of parent (some name) = node_from 0 nodes parent name

abbrev pub string_of : Option Value → Option String
string_of none = none
string_of (some v) = as_str v

abbrev pub quoted : List ℕ → List ℕ
quoted raw = b'"' ∷ (raw ++ (b'"' ∷ []))

-- The key's node, and what it does to the frame: a key that comes twice is lost.
abbrev pub select_key : ℕ → Frame → List Frame → Classifier → Classifier
select_key node frame frames c =
    let dropped = record c { frames = record frame { pending = no_node } ∷ frames } in
    let kept = record c { frames = record frame { pending = node } ∷ frames } in
    if node == no_node
    then kept
    else if test_bit c.seen node
    then record dropped { lost = set_bit c.lost node }
    else record kept { seen = set_bit c.seen node }

module _ (x : Context) where
  abbrev pub key_done_in : List Frame → Classifier → Classifier
  key_done_in [] c = c
  key_done_in (frame ∷ frames) c =
      let dropped = record c { frames = record frame { pending = no_node } ∷ frames } in
      if frame.node == no_node
      then dropped
      else if c.miss
      then record dropped { miss = false }
      else select_key (node_of frame.node (string_of (x.parse (quoted c.name)))) frame frames
          (record c { name = [] })

  -- A key is complete.
  unfoldable pub key_done : Classifier → Classifier
  unfolding test_bit set_bit
  key_done c = key_done_in c.frames c

abbrev pub parent_of : List Frame → ℕ
parent_of [] = no_node
parent_of (frame ∷ frames) = frame.node

-- A byte of a key, while it may spell one.
abbrev pub name_byte : ℕ → ℕ → Classifier → Classifier
name_byte parent ch c =
    if viable parent (c.name ++ (ch ∷ []))
    then record c { name = c.name ++ (ch ∷ []) }
    else record c { name = []; miss = true }

abbrev pub key_byte : ℕ → ℕ → Classifier → Classifier
key_byte parent ch c = if not (parent == no_node) && not c.miss then name_byte parent ch c else c

abbrev pub value_byte : ℕ → Classifier → Classifier
value_byte ch c =
    if not (c.capture == no_node) && not (is_text_node c.capture) && leb (length c.value) cap
    then record c { value = c.value ++ (ch ∷ []) }
    else c

unfoldable pub record_byte : ℕ → Classifier → Classifier
unfolding viable
record_byte ch c = if not (c.key == 0) then key_byte (parent_of c.frames) ch c else value_byte ch c
