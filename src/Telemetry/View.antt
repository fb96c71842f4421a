-- ===== src/Telemetry/View.antt =====
-- `telemetry_view_at` of anton-runtime/src/telemetry.rs.
use herdr_observatory.Json.{as_str, is_object, is_null, number, Value, index}
use herdr_observatory.Prelude.{
  is_some, unwrap_or, is_none_or, get_elem?, ◌&&◌, [], str_eq, ◌+◌, ◌||◌, ltb, leb, is_some_and,
  none, ◌∷◌, some, false, filter, ℕ, Bool, Option, String, List, if◌then◌else◌, ◌==◌, not,
}
use herdr_observatory.Telemetry.{TelemetryView}
use herdr_observatory.Telemetry.Names.{
  outcome_keys, phases, tool_name, events, safe_model, contains,
}

-- `raw[key]` through `filter` on texts.
abbrev pub one_of : List String → Value → Option String
one_of names v = filter (λ s. contains names s) (as_str v)

abbrev pub tool_of : Value → Option String
tool_of v = elim (filter (λ s. not (str_eq s "")) (as_str v)) [
  | none ↦ none
  | some tool ↦ some (tool_name tool)
]

-- The three checks of the counters of subagents.
abbrev pub starts_valid : Option ℕ → Option ℕ → Option ℕ → Bool → ℕ → Bool
starts_valid starts stops child_seq absent seq =
    is_some_and starts (λ v. leb v 999)
    && is_some_and stops (λ v. leb v 999)
    && (absent || is_some_and child_seq (λ v. leb v seq))
    && (not (ltb 0 (unwrap_or starts 0) || ltb 0 (unwrap_or stops 0)) || is_some child_seq)

abbrev pub totals_valid : Option ℕ → Option ℕ → Option ℕ → ℕ → Bool
totals_valid (some t) (some d) (some s) seq = leb d t && leb t 128 && ltb 0 s && leb s seq
totals_valid _ _ _ seq = false

abbrev pub when : {A : Type 0} → Bool → Option A → Option A
when b o = if b then o else none

abbrev pub join : Option ℕ → Option (List ℕ) → Option (List ℕ)
join (some v) (some rest) = some (v ∷ rest)
join _ _ = none

-- `collect` of the five outcomes.
unfoldable pub collect : Value → List String → Option (List ℕ)
collect raw [] = some []
collect raw (key ∷ keys) =
    let rest = collect raw keys in join (filter (λ v. leb v 128) (number (index raw key))) rest

abbrev pub sum : List ℕ → ℕ
sum [] = 0
sum (x ∷ xs) = x + sum xs

abbrev pub is_coherent : Option (List ℕ) → Option ℕ → Option ℕ → Bool
is_coherent none total finished = false
is_coherent (some xs) total finished =
    is_some_and total (λ t. sum xs == t)
    && is_some_and (get_elem? xs 1) (λ v. is_some_and finished (λ d. v == d))

abbrev pub number_keys : List String
number_keys =
    "input" ∷ "output_tokens" ∷ "cache_read" ∷ "cache_write" ∷ "context" ∷ "window" ∷ "usage_seq"
    ∷ "total_input" ∷ "total_output" ∷ "total_cache_read" ∷ "total_cache_write"
    ∷ "total_uncached_input" ∷ "compactions" ∷ "context_percent" ∷ []

-- `result[key] = Null` for some keys.
abbrev pub without : List String → (String → Option ℕ) → String → Option ℕ
without keys numbers k = if contains keys k then none else numbers k

abbrev pub numbers_of : Value → String → Option ℕ
numbers_of raw k = if contains number_keys k then number (index raw k) else none

-- Both are there, and the first is greater.
abbrev pub exceeds : Option ℕ → Option ℕ → Bool
exceeds (some a) (some b) = ltb b a
exceeds _ _ = false

unfoldable pub clear_percent : (String → Option ℕ) → String → Option ℕ
clear_percent numbers =
    if is_some_and (numbers "context_percent") (λ v. ltb 100 v)
    then without ("context_percent" ∷ []) numbers
    else numbers

unfoldable pub clear_totals : (String → Option ℕ) → String → Option ℕ
clear_totals numbers =
    if exceeds (numbers "total_cache_read") (numbers "total_input")
    then without ("total_input" ∷ "total_cache_read" ∷ "total_uncached_input" ∷ []) numbers
    else numbers

unfoldable pub clear_window : (String → Option ℕ) → String → Option ℕ
clear_window numbers =
    if is_some_and (numbers "window") (λ v. v == 0)
      || exceeds (numbers "context") (numbers "window")
    then without ("context" ∷ "window" ∷ "context_percent" ∷ []) numbers
    else numbers

-- `past v` is `v as f64 / 1e6 <= time`.
module _ (past : ℕ → Bool) where
  -- Whether the usage numbers claim a time that is missing or yet to come.
  abbrev pub bad_usage : Value → Bool
  bad_usage raw =
      (not (is_null (index raw "usage_seq")) || not (is_null (index raw "usage_source")))
      && is_none_or (number (index raw "usage_seq")) (λ v. not (past v))

  unfoldable pub usage_numbers : Value → String → Option ℕ
  unfolding clear_percent clear_totals clear_window
  usage_numbers raw = clear_window (
      clear_totals (
        clear_percent
          (if bad_usage raw then without number_keys (numbers_of raw) else numbers_of raw)))

  abbrev pub usage_source_of : Value → Option String
  usage_source_of raw =
      if bad_usage raw
      then none
      else one_of ("codex-rollout" ∷ "pi-extension" ∷ "claude-transcript" ∷ [])
          (index raw "usage_source")

  -- The view, once `seq`, `event` and `phase` have passed.
  unfoldable pub view_of : ℕ → String → String → Value → TelemetryView
  unfolding usage_numbers collect safe_model tool_name
  view_of seq event phase raw =
      let starts = number (index raw "subagent_starts") in
      let stops = number (index raw "subagent_stops") in
      let child_seq = number (index raw "subagent_seq") in
      let children = starts_valid starts stops child_seq (is_null (index raw "subagent_seq")) seq in
      let total = number (index raw "subagent_total") in
      let finished = number (index raw "subagent_done") in
      let stamp = number (index raw "subagent_status_seq") in
      let totals = totals_valid total finished stamp seq in
      let outcomes = collect raw outcome_keys in
      record {
        seq = seq;
        event = event;
        phase = phase;
        tool = tool_of (index raw "tool");
        model = filter (λ s. safe_model s) (as_str (index raw "model"));
        result = one_of ("finished" ∷ "error" ∷ "cancelled" ∷ []) (index raw "result");
        numbers = usage_numbers raw;
        subagent_starts = when children starts;
        subagent_stops = when children stops;
        subagent_seq = when children child_seq;
        subagent_total = when totals total;
        subagent_done = when totals finished;
        subagent_status_seq = when totals stamp;
        outcomes = if totals && is_coherent outcomes total finished then outcomes else none;
        usage_source = usage_source_of raw;
      }

  unfoldable pub telemetry_view_at : Value → Option TelemetryView
  unfolding view_of
  telemetry_view_at raw =
      if not (is_object raw) then none else elim (filter past (number (index raw "seq"))) [
        | none ↦ none
        | some seq ↦ elim (one_of events (index raw "event")) [
          | none ↦ none
          | some event ↦ elim (one_of phases (index raw "phase")) [
            | none ↦ none
            | some phase ↦ some (view_of seq event phase raw)
          ]
        ]
      ]
