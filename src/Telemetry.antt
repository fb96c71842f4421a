-- ===== src/Telemetry.antt =====
-- anton-runtime/src/telemetry.rs: the public view of an agent's telemetry. The view is a JSON
-- object with fixed keys; here it is a record, where `Null` is `none`.
pub mod Names
pub mod View
pub mod Coherent
pub mod Agent
pub mod Bound
pub mod Samples
use herdr_observatory.Prelude.{ℕ, String, Option, List}

pub record TelemetryView : Type 0 where
  pub seq : ℕ
  pub event : String
  pub phase : String
  pub tool : Option String
  pub model : Option String
  pub result : Option String
  -- The keys of `NUMBERS`.
  pub numbers : String → Option ℕ
  pub subagent_starts : Option ℕ
  pub subagent_stops : Option ℕ
  pub subagent_seq : Option ℕ
  pub subagent_total : Option ℕ
  pub subagent_done : Option ℕ
  pub subagent_status_seq : Option ℕ
  -- The keys of `OUTCOMES`, all five or none.
  pub outcomes : Option (List ℕ)
  pub usage_source : Option String
