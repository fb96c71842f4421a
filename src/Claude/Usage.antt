-- ===== src/Claude/Usage.antt =====
-- `Row::usage` of anton-runtime/src/claude.rs: the usage that is published.
use herdr_observatory.Claude.{Counters, Response, Group}
use herdr_observatory.Claude.Cursor.{sum, totals}
use herdr_observatory.Claude.Row.{Row}
use herdr_observatory.Prelude.{
  Option, ℕ, Bool, String, ◌&&◌, ltb, filter, none, some, [], ◌∷◌, not, if◌then◌else◌,
}

-- The fields of the object, less its source, which is a constant where `usage_seq` is known.
pub record Usage : Type 0 where
  pub total_input : Option ℕ
  pub total_cache_read : Option ℕ
  pub total_cache_write : Option ℕ
  pub total_uncached_input : Option ℕ
  pub total_output : Option ℕ
  pub input : Option ℕ
  pub output_tokens : Option ℕ
  pub cache_read : Option ℕ
  pub cache_write : Option ℕ
  pub context : Option ℕ
  pub model : Option String
  pub usage_seq : Option ℕ
  pub compactions : Option ℕ

-- `known.then_some(value)`.
abbrev pub then_some : Bool → ℕ → Option ℕ
then_some known value = if known then some value else none

abbrev pub context_of : Option Counters → Option ℕ
context_of none = none
context_of (some t) = sum (t.at0 ∷ t.at2 ∷ t.at3 ∷ [])

abbrev pub field : (Counters → ℕ) → Option Counters → Option ℕ
field f none = none
field f (some t) = some (f t)

abbrev pub usage_of_response : Option Response → Option Counters
usage_of_response none = none
usage_of_response (some r) = some r.usage

abbrev pub model_of_response : Option Response → Option String
model_of_response none = none
model_of_response (some r) = r.model

abbrev pub open_response : Option Group → Option Response
open_response none = none
open_response (some g) = g.response

-- The response of the open group, and else the last one.
abbrev pub response_of_row : Row → Option Response
response_of_row r = elim (open_response r.claude.open_group) [
  | some response ↦ some response
  | none ↦ filter (λ _. r.claude.last_valid) r.claude.last
]

abbrev pub is_usage_known : Row → Bool
is_usage_known r = ltb 0 r.claude.usage_seq && not r.claude.foreign

unfoldable pub usage : Row → Usage
unfolding totals sum
usage r =
    let known = is_usage_known r in
    let all = filter (λ _. known && r.claude.totals_valid) (totals r.claude) in
    let response = filter (λ _. known) (response_of_row r) in
    let counters = usage_of_response response in
    record {
      total_input = context_of all;
      total_cache_read = field (λ t. t.at2) all;
      total_cache_write = field (λ t. t.at3) all;
      total_uncached_input = field (λ t. t.at0) all;
      total_output = field (λ t. t.at1) all;
      input = context_of counters;
      output_tokens = field (λ t. t.at1) counters;
      cache_read = field (λ t. t.at2) counters;
      cache_write = field (λ t. t.at3) counters;
      context = context_of counters;
      model = model_of_response response;
      usage_seq = then_some known r.claude.usage_seq;
      compactions =
          then_some (known && r.compactions_valid && not r.claude.compaction_iteration)
            r.claude.compactions;
    }
