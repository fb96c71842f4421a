-- ===== src/Claude/Core.antt =====
-- What holds of a row of anton-runtime/src/claude.rs between two records.
use herdr_observatory.Claude.{ClaudeCursor, Group, Response, Start}
use herdr_observatory.Claude.Apply.{turn_state}
use herdr_observatory.Claude.Cursor.{
  ids_valid, group_valid, response_valid, start_valid, open_usage,
}
use herdr_observatory.Claude.Row.{Row}
use herdr_observatory.Common.{max_safe}
use herdr_observatory.Prelude.{
  String, List, Option, ℕ, Bool, ◌/◌, ◌<◌, length, Holds, is_some, is_none, true, ◌≡◌, ◌+◌,
  is_none_or, ◌≤◌, not, ◌||◌,
}
use herdr_observatory.Turns.Preserve.{Inv}

-- The bookkeeping of usage.
pub record Usage (input output cache_read cache_creation : ℕ) (last : Option Response)
    (last_valid : Bool) (usage_seq coverage_seq : ℕ) (open_group : Option Group)
    (closed : List String) (compactions : ℕ) : Type 0 where
  pub input_le : input + (open_usage open_group).at0 ≤ max_safe
  pub output_le : output + (open_usage open_group).at1 ≤ max_safe
  pub read_le : cache_read + (open_usage open_group).at2 ≤ max_safe
  pub creation_le : cache_creation + (open_usage open_group).at3 ≤ max_safe
  pub context_le :
      (input + (open_usage open_group).at0)
        + (cache_read + (open_usage open_group).at2)
        + (cache_creation + (open_usage open_group).at3)
      ≤ max_safe
  pub last_ok : is_none_or last (λ r. response_valid r) ≡ true
  pub last_flag : (last_valid || is_none last) ≡ true
  pub seq_le : usage_seq ≤ coverage_seq
  pub group_ok : is_none_or open_group (λ g. group_valid closed g) ≡ true
  pub ring_le : length closed ≤ 32
  pub ids_ok : ids_valid closed ≡ true
  pub compactions_le : compactions ≤ max_safe

abbrev pub UsageOk : ClaudeCursor → Type 0
UsageOk c =
    Usage c.input c.output c.cache_read c.cache_creation c.last c.last_valid c.usage_seq
      c.coverage_seq c.open_group c.closed c.compactions

-- The bookkeeping of times.
pub record Times (horizon coverage_seq : ℕ) (pending_start : Option Start) (pending_command : Bool)
    (queued : Option ℕ) (end_floor : ℕ) : Type 0 where
  pub coverage_le : coverage_seq ≤ horizon
  pub pending_ok : is_none_or pending_start (λ s. start_valid s) ≡ true
  pub command_ok : (not pending_command || is_some pending_start) ≡ true
  pub queued_ok : Holds (λ at. (0 < at) × (at ≤ coverage_seq)) queued
  pub floor_le : end_floor ≤ coverage_seq / 1000000

abbrev pub TimesOk : ℕ → ClaudeCursor → Type 0
TimesOk horizon c =
    Times horizon c.coverage_seq c.pending_start c.pending_command c.queued_since_start c.end_floor

-- `stamp` is the stamp of the record that is being applied.
pub record Core (foreign : Bool) (horizon : ℕ) (stamp : Option ℕ) (r : Row) : Type 0 where
  pub turns_ok : Inv r.turns
  pub usage_ok : UsageOk r.claude
  pub times_ok : TimesOk horizon r.claude
  pub state_ok : turn_state r ≡ true
  pub foreign_is : r.claude.foreign ≡ foreign
  pub covered : Holds (λ s. s ≤ r.claude.coverage_seq) stamp
