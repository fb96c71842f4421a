-- ===== src/Telemetry/Bound.antt =====
-- `telemetry_from_agent` of anton-runtime/src/telemetry.rs publishes a view for the session that
-- the tokens are bound to, and for no other.
use herdr_observatory.Json.{Fields, Value, index}
use herdr_observatory.Prelude.{
  not-eq_false, ||-eq_false, inl, inr, Bool-cases, eq_iff, true, ◌≡◌, ◌||◌, str_eq, if◌then◌else◌,
  Bool, Option, String, ℕ, none, some, not,
}
use herdr_observatory.Telemetry.{TelemetryView}
use herdr_observatory.Telemetry.Agent.{
  as_object, raw_of, session_binding, from_tokens, token_text, telemetry_from_agent, is_bound,
}
use herdr_observatory.Telemetry.Coherent.{telemetry_view_at-Coherent, Coherent}
use herdr_observatory.Telemetry.View.{telemetry_view_at}

-- The agent has tokens, bound to its session.
abbrev pub BoundTo : Option String → Option String → Type 0
BoundTo (some token) (some binding) = token ≡ binding
BoundTo _ _ = ⊥

abbrev pub TokensBound : (String → String) → Value → Option Fields → Type 0
TokensBound sha256 agent none = ⊥
TokensBound sha256 agent (some tokens) =
    BoundTo (token_text tokens "obs_bind") (session_binding sha256 agent)

bound_to : (token binding : Option String) → is_bound token binding ≡ true → BoundTo token binding
bound_to (some token) (some binding) h = (eq_iff token binding).0 h
bound_to (some token) none h = cc
bound_to none _ h = cc

from_raw :
    (past : ℕ → Bool) (raw : Option Value) (v : TelemetryView)
    → elim raw [ none ↦ none | some r ↦ telemetry_view_at past r ] ≡ some v
    → Coherent past v
from_raw past none v eq = cc
from_raw past (some r) v eq = telemetry_view_at-Coherent past r v eq

module _ (sha256 : String → String) (past : ℕ → Bool) (agent : Value) (v : TelemetryView) where
  from_version :
      (tokens : Fields) (version : Option String)
      → elim version [
        | none ↦ none
        | some version ↦
            if not (str_eq version "1" || str_eq version "2")
              || not (is_bound (token_text tokens "obs_bind") (session_binding sha256 agent))
            then none
            else elim (raw_of version tokens) [
              | none ↦ none
              | some raw ↦ telemetry_view_at past raw
            ]
      ]
        ≡ some v
      → TokensBound sha256 agent (some tokens) × Coherent past v
  from_version tokens none eq = cc
  from_version tokens (some version) eq =
      elim (Bool-cases (
        not (str_eq version "1" || str_eq version "2")
        || not (is_bound (token_text tokens "obs_bind") (session_binding sha256 agent)))) [
          | inl h ↦ absurd (refused (rw h at eq))
          | inr h ↦
              let (known, bound) =
                ||-eq_false (not (str_eq version "1" || str_eq version "2"))
                  (not (is_bound (token_text tokens "obs_bind") (session_binding sha256 agent)))
                  h in
              (
                bound_to (token_text tokens "obs_bind") (session_binding sha256 agent) (
                    not-eq_false
                      (is_bound (token_text tokens "obs_bind") (session_binding sha256 agent))
                      bound),
                from_raw past (raw_of version tokens) v (rw h at eq),
              )
        ]
    where
      refused : none ≡ some v → ⊥
      refused e = cc

  from_object :
      (tokens : Option Fields)
      → elim tokens [ none ↦ none | some fs ↦ from_tokens sha256 past agent fs ] ≡ some v
      → TokensBound sha256 agent tokens × Coherent past v
  unfolding from_tokens
  from_object none eq = cc
  from_object (some fs) eq = from_version fs (token_text fs "obs_v") eq

-- Where an agent's telemetry is published, the agent has tokens whose `obs_bind` is the binding
-- of its own session, and the view is coherent.
pub telemetry_from_agent-Coherent :
    (sha256 : String → String) (past : ℕ → Bool) (agent : Value) (v : TelemetryView)
    → telemetry_from_agent sha256 past agent ≡ some v
    → TokensBound sha256 agent (as_object (index agent "tokens")) × Coherent past v
unfolding telemetry_from_agent
telemetry_from_agent-Coherent sha256 past agent v eq =
    from_object sha256 past agent v (as_object (index agent "tokens")) eq
