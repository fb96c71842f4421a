-- ===== src/Telemetry/Samples.antt =====
-- Concrete telemetry: the theorems on anton-runtime/src/telemetry.rs applied to it.
use herdr_observatory.Json.{
  insert_field, set, number, Fields, Value, index, end, field, object, text, unsigned, get,
}
use herdr_observatory.Prelude.{◌≡◌, leb, Bool, ℕ, String, none, some, refl}
use herdr_observatory.Telemetry.{TelemetryView}
use herdr_observatory.Telemetry.Agent.{
  decimal, session_binding, copy_tokens, raw_texts, raw_of, from_tokens, as_object, set_singles,
  telemetry_from_agent,
}
use herdr_observatory.Telemetry.Bound.{telemetry_from_agent-Coherent, TokensBound}
use herdr_observatory.Telemetry.Coherent.{telemetry_view_at-Coherent, Coherent}
use herdr_observatory.Telemetry.View.{
  clear_window, clear_totals, number_keys, clear_percent, usage_numbers, telemetry_view_at, view_of,
}

abbrev past : ℕ → Bool
past v = leb v 1000

-- More context than the window.
abbrev payload : Value
payload = object (
    field "seq" (unsigned 5) (
      field "event" (text "turn") (
        field "phase" (text "working") (
          field "tool" (text "mcp__search")
            (field "context" (unsigned 30) (field "window" (unsigned 20) end))))))

abbrev published : TelemetryView
published = view_of past 5 "turn" "working" payload

payload-published : telemetry_view_at past payload ≡ some published
unfolding telemetry_view_at index get number
payload-published = refl

published-context : published.numbers "context" ≡ none
unfolding view_of usage_numbers clear_percent clear_totals clear_window index get number
published-context = refl

telemetry_view_at-Coherent_example : Coherent past published
telemetry_view_at-Coherent_example =
    telemetry_view_at-Coherent past payload published payload-published

-- An agent with tokens of version 1.
abbrev tokens : Fields
tokens = field "obs_v" (text "1") (
    field "obs_bind" (text "pi:id:x") (
      field "obs_seq" (text "5") (
        field "obs_event" (text "turn")
          (field "obs_phase" (text "working") (field "obs_input" (text "17") end)))))

abbrev agent : Value
agent = object (
    field "agent" (text "pi") (
      field "agent_session"
        (object (
          field "agent" (text "pi") (
            field "source" (text "herdr:pi")
              (field "kind" (text "id") (field "value" (text "x") end)))))
        (field "tokens" (object tokens) end)))

abbrev same : String → String
same s = s

abbrev agent_view : TelemetryView
agent_view = view_of past 5 "turn" "working" (set_singles tokens number_keys (raw_texts tokens))

agent-published : telemetry_from_agent same past agent ≡ some agent_view
unfolding telemetry_from_agent from_tokens raw_of raw_texts copy_tokens set set_singles insert_field
    session_binding decimal telemetry_view_at index get number
agent-published = refl

telemetry_from_agent-Coherent_example :
    TokensBound same agent (as_object (index agent "tokens")) × Coherent past agent_view
telemetry_from_agent-Coherent_example =
    telemetry_from_agent-Coherent same past agent agent_view agent-published
