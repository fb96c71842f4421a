-- ===== src/Telemetry/Agent.antt =====
-- `session_binding`, `decimal` and `telemetry_from_agent` of anton-runtime/src/telemetry.rs: the
-- telemetry that an agent carries in its tokens.
use herdr_observatory.Common.{is_digit, codes, max_safe, byte_len}
use herdr_observatory.Json.{
  unsigned, null, or_null, json_number, object, set, as_str, Fields, Value, index, end, get,
}
use herdr_observatory.Prelude.{
  ◌^◌, length, all, leb, ◌-◌, filter, ltb, str_append, ◌+◌, ◌&&◌, false, true, ◌||◌, is_some,
  str_eq, ◌*◌, is_some_and, ℕ, List, String, Bool, Option, none, some, [], ◌∷◌, if◌then◌else◌, ◌==◌,
  not,
}
use herdr_observatory.Telemetry.{TelemetryView}
use herdr_observatory.Telemetry.Names.{outcome_keys, split}
use herdr_observatory.Telemetry.View.{number_keys, telemetry_view_at}

-- A JSON value is a given text.
abbrev pub is_text : Value → String → Bool
is_text v s = is_some_and (as_str v) (λ t. str_eq t s)

abbrev pub is_nil : List ℕ → Bool
is_nil [] = true
is_nil (c ∷ s) = false

abbrev bind_session : (String → String) → String → Option String → Option String → Option String
bind_session sha256 harness (some kind) (some value) =
    if not (str_eq kind "id" || str_eq kind "path") || str_eq value ""
    then none
    else some
        (sha256 (str_append harness (str_append ":" (str_append kind (str_append ":" value)))))
bind_session sha256 harness _ _ = none

-- The digest is the crate sha2's.
unfoldable pub session_binding : (String → String) → Value → Option String
session_binding sha256 agent = elim (as_str (index agent "agent")) [
  | none ↦ none
  | some harness ↦
      let session = index agent "agent_session" in
      if not (is_text (index session "agent") harness)
        || not (is_text (index session "source") (str_append "herdr:" harness))
      then none
      else bind_session sha256 harness (as_str (index session "kind"))
          (as_str (index session "value"))
]

-- Reading digits from the left.
abbrev pub digits_value : ℕ → List ℕ → ℕ
digits_value acc [] = acc
digits_value acc (c ∷ s) = digits_value (acc * 10 + (c - b'0')) s

unfoldable pub decimal : List ℕ → ℕ → Option ℕ
decimal value max =
    if is_nil value || ltb max (byte_len value) || not (all is_digit value)
    then none
    else filter (λ n. ltb n (2 ^ 64)) (some (digits_value 0 value))

-- `GROUPS`, each with the token `obs_n{index}` it is packed in.
abbrev pub groups : List (String × List String)
groups =
    ("obs_n0", "input" ∷ "output_tokens" ∷ "cache_read" ∷ "cache_write" ∷ [])
    ∷ ("obs_n1", "context" ∷ "window" ∷ "usage_seq" ∷ "total_input" ∷ [])
    ∷ (
      "obs_n2",
      "total_output" ∷ "total_cache_read" ∷ "total_cache_write" ∷ "total_uncached_input" ∷ [],
    )
    ∷ ("obs_n3", "compactions" ∷ "context_percent" ∷ [])
    ∷ []

-- The texts that are packed with one width each.
abbrev pub packs : List (String × List String × List ℕ)
packs =
    (
      "obs_completion",
      "subagent_total" ∷ "subagent_done" ∷ "subagent_status_seq" ∷ [],
      3 ∷ 3 ∷ 16 ∷ [],
    )
    ∷ ("obs_outcomes", outcome_keys, 3 ∷ 3 ∷ 3 ∷ 3 ∷ 3 ∷ [])
    ∷ ("obs_children", "subagent_starts" ∷ "subagent_stops" ∷ "subagent_seq" ∷ [], 3 ∷ 3 ∷ 16 ∷ [])
    ∷ []

-- One group's values, as many as its keys.
unfoldable pub set_group : List String → List (List ℕ) → Value → Option Value
unfolding decimal
set_group (key ∷ keys) (value ∷ values) raw =
    if is_nil value
    then set_group keys values (set key null raw)
    else elim (filter (λ n. leb n max_safe) (decimal value 16)) [
      | none ↦ none
      | some n ↦ set_group keys values (set key (unsigned n) raw)
    ]
set_group _ _ raw = some raw

abbrev pub token_text : Fields → String → Option String
token_text tokens key = elim (get key tokens) [ none ↦ none | some v ↦ as_str v ]

unfoldable pub set_groups : Fields → List (String × List String) → Value → Option Value
unfolding set_group split
set_groups tokens [] raw = some raw
set_groups tokens ((token, keys) ∷ rest) raw = elim (token_text tokens token) [
  | none ↦ none
  | some packed ↦
      let values = split b',' (codes packed) in
      if ltb 67 (byte_len (codes packed)) || not (length values == length keys)
      then none
      else elim (set_group keys values raw) [
        | none ↦ none
        | some raw' ↦ set_groups tokens rest raw'
      ]
]

-- Whether every value is a number of its width; the third of `obs_children` may be empty.
unfoldable pub fits_widths : Bool → ℕ → List (List ℕ) → List ℕ → Bool
unfolding decimal
fits_widths may i (value ∷ values) (width ∷ widths) =
    (is_some (decimal value width) || (may && i == 2 && is_nil value))
    && fits_widths may (i + 1) values widths
fits_widths may i _ _ = true

unfoldable pub set_numbers : List String → List (List ℕ) → Value → Value
unfolding decimal
set_numbers (key ∷ keys) (value ∷ values) raw =
    set_numbers keys values (set key (json_number (decimal value 16)) raw)
set_numbers _ _ raw = raw

unfoldable pub set_packs : Fields → List (String × List String × List ℕ) → Value → Value
unfolding fits_widths set_numbers split
set_packs tokens [] raw = raw
set_packs tokens ((source, keys, widths) ∷ rest) raw =
    set_packs tokens rest (elim (token_text tokens source) [
      | none ↦ raw
      | some packed ↦
          let values = split b',' (codes packed) in
          if length values == length keys
            && fits_widths (str_eq source "obs_children") 0 values widths
          then set_numbers keys values raw
          else raw
    ])

-- Version 1 has a token for each number.
unfoldable pub set_singles : Fields → List String → Value → Value
unfolding decimal
set_singles tokens [] raw = raw
set_singles tokens (key ∷ keys) raw = set_singles tokens keys (
    set key
      (elim (token_text tokens (str_append "obs_" key)) [
        | none ↦ null
        | some s ↦ json_number (decimal (codes s) 16)
      ])
      raw)

unfoldable pub copy_tokens : Fields → List String → Value → Value
copy_tokens tokens [] raw = raw
copy_tokens tokens (key ∷ keys) raw =
    copy_tokens tokens keys (set key (or_null (get (str_append "obs_" key) tokens)) raw)

-- The text fields, with `seq` as a number.
unfoldable pub raw_texts : Fields → Value
unfolding copy_tokens decimal
raw_texts tokens =
    let raw =
      copy_tokens tokens
        ("seq" ∷ "event" ∷ "phase" ∷ "tool" ∷ "model" ∷ "result" ∷ "usage_source" ∷ [])
        (object end) in
    set "seq"
      (elim (as_str (index raw "seq")) [
        | none ↦ null
        | some s ↦ json_number (decimal (codes s) 16)
      ])
      raw

unfoldable pub raw_of : String → Fields → Option Value
unfolding raw_texts set_groups set_packs set_singles
raw_of version tokens =
    if str_eq version "2"
    then elim (set_groups tokens groups (raw_texts tokens)) [
      | none ↦ none
      | some raw ↦ some (set_packs tokens packs raw)
    ]
    else some (set_singles tokens number_keys (raw_texts tokens))

abbrev pub as_object : Value → Option Fields
as_object (object fs) = some fs
as_object _ = none

-- `obs_bind` is this session's binding.
abbrev pub is_bound : Option String → Option String → Bool
is_bound (some token) (some binding) = str_eq token binding
is_bound _ _ = false

module _ (sha256 : String → String) (past : ℕ → Bool) where
  unfoldable pub from_tokens : Value → Fields → Option TelemetryView
  unfolding raw_of session_binding telemetry_view_at
  from_tokens agent tokens = elim (token_text tokens "obs_v") [
    | none ↦ none
    | some version ↦
        if not (str_eq version "1" || str_eq version "2")
          || not (is_bound (token_text tokens "obs_bind") (session_binding sha256 agent))
        then none
        else elim (raw_of version tokens) [ none ↦ none | some raw ↦ telemetry_view_at past raw ]
  ]

  unfoldable pub telemetry_from_agent : Value → Option TelemetryView
  unfolding from_tokens
  telemetry_from_agent agent = elim (as_object (index agent "tokens")) [
    | none ↦ none
    | some tokens ↦ from_tokens agent tokens
  ]
