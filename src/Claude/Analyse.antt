-- ===== src/Claude/Analyse.antt =====
-- anton-runtime/src/claude/text.rs: what is derived of one text value. An index into the units is the
-- list of the units from there on.
use herdr_observatory.Claude.{Text, lead_notification, lead_other}
use herdr_observatory.Common.{codes, same_bytes, is_alphanumeric, is_digit, hex_id}
use herdr_observatory.Prelude.{
  Option, ℕ, Bool, true, false, String, List, is_none, is_none_or, any, unwrap_or, all, is_some,
  leb, ◌==◌, ◌&&◌, ltb, zero, suc, none, some, [], ◌∷◌, ◌++◌, not, ◌||◌, if◌then◌else◌, length,
}

abbrev pub wide : ℕ
wide = 128

-- Characters as code points: one unit for each.
abbrev pub units : List ℕ → List ℕ
units [] = []
units (c ∷ cs) = (if ltb c 128 then c else wide) ∷ units cs

abbrev pub take_units : ℕ → List ℕ → List ℕ
take_units zero us = []
take_units (suc n) [] = []
take_units (suc n) (u ∷ us) = u ∷ take_units n us

abbrev pub wrappers : List String
wrappers =
    "command-name" ∷ "local-command-stdout" ∷ "local-command-stderr" ∷ "bash-input" ∷ "bash-stdout"
    ∷ "bash-stderr" ∷ "task-notification" ∷ []

abbrev pub statuses : List String
statuses = "completed" ∷ "failed" ∷ "killed" ∷ "blocked" ∷ []

abbrev pub status_other : ℕ
status_other = 5

abbrev pub markers : List String
markers = "[Request interrupted by user]" ∷ "[Request interrupted by user for tool use]" ∷ []

abbrev pub position_from : ℕ → List String → List ℕ → Option ℕ
position_from n [] value = none
position_from n (name ∷ names) value =
    if same_bytes (codes name) value then some n else position_from (suc n) names value

-- From 1 on.
abbrev pub position : List String → List ℕ → Option ℕ
position names value = position_from 1 names value

abbrev pub is_name_char : ℕ → Bool
is_name_char c = (leb b'a' c && leb c b'z') || is_digit c || c == b'-' || c == b'_'

-- The name at the start, among the first `n` units, and the units from its end on.
abbrev pub name_at : ℕ → List ℕ → Option (List ℕ × List ℕ)
name_at zero rest = none
name_at (suc n) [] = none
name_at (suc n) (c ∷ cs) =
    if is_name_char c
    then elim (name_at n cs) [ none ↦ none | some (name, rest) ↦ some (c ∷ name, rest) ]
    else some ([], c ∷ cs)

abbrev pub close_name : Option (List ℕ × List ℕ) → Option (List ℕ × List ℕ)
close_name (some (c ∷ name, end ∷ rest)) = if end == b'>' then some (c ∷ name, rest) else none
close_name _ = none

-- A `<name>` tag: its name, and the units after it.
unfoldable pub tag : List ℕ → Option (List ℕ × List ℕ)
tag [] = none
tag (c ∷ cs) = if c == b'<' then close_name (name_at 33 cs) else none

abbrev pub strip_prefix : List ℕ → List ℕ → Option (List ℕ)
strip_prefix [] units = some units
strip_prefix (c ∷ cs) [] = none
strip_prefix (c ∷ cs) (u ∷ us) = if c == u then strip_prefix cs us else none

-- The first window that is `close`: the units before it, and those after it.
unfoldable pub find_close : List ℕ → List ℕ → Option (List ℕ × List ℕ)
find_close close [] = none
find_close close (u ∷ us) = elim (strip_prefix close (u ∷ us)) [
  | some after ↦ some ([], after)
  | none ↦ elim (find_close close us) [
    | none ↦ none
    | some (value, after) ↦ some (u ∷ value, after)
  ]
]

abbrev pub is_space : ℕ → Bool
is_space c = c == b' ' || c == b'\t' || c == b'\r' || c == b'\n'

abbrev pub skip_spaces : List ℕ → List ℕ
skip_spaces [] = []
skip_spaces (c ∷ cs) = if is_space c then skip_spaces cs else c ∷ cs

abbrev pub close_of : List ℕ → List ℕ
close_of name = b'<' ∷ b'/' ∷ (name ++ (b'>' ∷ []))

-- `from_utf8` and `safe_id`: a wide unit is no text, and no unit of an identity.
abbrev pub is_task_id : List ℕ → Bool
is_task_id value =
    ltb 0 (length value)
    && leb (length value) 128
    && all (λ c. is_alphanumeric c || c == b'_' || c == b'-') value

-- Something other than space stands after the first closing tag.
abbrev pub has_trailer : Option (List ℕ × List ℕ) → Bool
has_trailer none = false
has_trailer (some (_, after)) = any (λ c. not (is_space c)) after

abbrev pub flatten : Option (Option String) → Option String
flatten none = none
flatten (some task) = task

-- The task that is known, if one has been seen, and the status.
abbrev pub Seen : Type 0
Seen = Option (Option String) × ℕ

abbrev pub notified : Bool → Bool → Option Seen → Option Text
notified interrupt trailer none = none
notified interrupt trailer (some (task, status)) = some (record {
  lead = lead_notification;
  interrupt = interrupt;
  task = if trailer then none else flatten task;
  status = status;
})

module _ (sha256 : List ℕ → String) where
  -- One element: whether the scan stops, and what has been seen.
  unfoldable pub element : List ℕ → List ℕ → Seen → Bool × Seen
  element name value (task, status) =
      if same_bytes name (codes "task-id") && is_some task
      then (true, (some none, status))
      else let task' =
          if same_bytes name (codes "task-id")
          then some (if is_task_id value then some (sha256 value) else none)
          else task in
        let status' =
          if same_bytes name (codes "status") && status == 0
          then unwrap_or (position statuses value) status_other
          else status in
        (is_some task' && not (status' == 0), (task', status'))

  -- `none` where the fuel is out.
  unfoldable pub scan : ℕ → List ℕ → Seen → Option Seen
  unfolding tag find_close element
  scan zero rest seen = none
  scan (suc n) rest seen = elim (tag (skip_spaces rest)) [
    | none ↦ some seen
    | some (name, start) ↦ elim (find_close (close_of name) start) [
      | none ↦ some seen
      | some (value, after) ↦
          let (stop, found) = element name value seen in
          elim stop [ true ↦ some found | false ↦ scan n after found ]
    ]
  ]

  -- The text by its leading tag.
  abbrev pub led : Bool → Option (List ℕ × List ℕ) → Option Text
  led interrupt none = some (record { lead = 0; interrupt = interrupt; task = none; status = 0 })
  led interrupt (some (name, after)) =
      let lead = unwrap_or (position wrappers name) lead_other in
      if lead == lead_notification
      then notified interrupt (has_trailer (find_close (codes "</task-notification>") after))
          (scan (suc (length after)) after (none, 0))
      else some (record { lead = lead; interrupt = interrupt; task = none; status = 0 })

  -- `none` would be a scan without end.
  unfoldable pub analyse : List ℕ → Option Text
  unfolding tag find_close scan
  analyse units = led (any (λ marker. same_bytes units (codes marker)) markers) (tag units)

  -- `Text::of`: only the first 4096 units are read.
  unfoldable pub text_of : List ℕ → Option Text
  unfolding analyse
  text_of text = analyse (take_units 4096 (units text))

-- `Text::validate`.
unfoldable pub text_valid : Text → Bool
text_valid t =
    leb t.lead lead_other
    && leb t.status status_other
    && is_none_or t.task (λ key. hex_id key 64)
    && (t.lead == lead_notification || (is_none t.task && t.status == 0))
