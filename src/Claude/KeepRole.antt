-- ===== src/Claude/KeepRole.antt =====
-- Each role of a record in anton-runtime/src/claude.rs keeps the row in shape.
use herdr_observatory.Claude.{stop_other, stop_end_turn, Record}
use herdr_observatory.Claude.Children.{lose_clean}
use herdr_observatory.Claude.Core.{Core}
use herdr_observatory.Claude.KeepTurn.{confirm-Core, unqueued-Times}
use herdr_observatory.Claude.Losing.{forget, ambiguous-Core, lose_clean-Core}
use herdr_observatory.Claude.Row.{ambiguous, Row}
use herdr_observatory.Claude.Timing.{
  confirm, is_local_command, is_local_output, is_queued_prompt, local_output, assistant_turn,
  ignored_turn, silent_turn, is_active, set_cursor,
}
use herdr_observatory.Prelude.{
  &&-eq_true, ◌==◌, is_some, is_none, true, ◌&&◌, arith, if_elim, ◌≡◌, not, ◌||◌, if◌then◌else◌,
  false, Option, ℕ, Bool,
}

module _ {f : Bool} {horizon : ℕ} {stamp : Option ℕ} where
  local_output-Core :
      (r : Row)
      → is_active r ≡ false
      → r.claude.ambiguous ≡ false
      → r.claude.lost_idle ≡ false
      → Core f horizon stamp r
      → Core f horizon stamp (local_output r)
  local_output-Core r idle sure kept i = record {
    turns_ok = i.turns_ok;
    usage_ok = i.usage_ok;
    times_ok = forget i.times_ok;
    state_ok = ground (arith, i.state_ok, idle, sure, kept);
    foreign_is = i.foreign_is;
    covered = i.covered;
  }

  -- A pending command is a pending start.
  command_state :
      (r : Row)
      → Core f horizon stamp r
      → r.claude.pending_command ≡ true
      → (is_active r ≡ false) × (r.claude.ambiguous ≡ false) × (r.claude.lost_idle ≡ false)
  command_state r i h = ground (arith, i.state_ok, h, i.times_ok.command_ok)

  local_turn-Core :
      (shown : Bool) (r : Row)
      → Core f horizon stamp r
      → Core f horizon stamp (
          if shown && r.claude.pending_command && is_some r.claude.queued_since_start
          then ambiguous r
          else if shown && r.claude.pending_command
          then local_output r
          else r)
  local_turn-Core shown r i =
      if_elim (Core f horizon stamp)
        (shown && r.claude.pending_command && is_some r.claude.queued_since_start)
        (λ _. ambiguous-Core r i)
        λ _.
          if_elim (Core f horizon stamp) (shown && r.claude.pending_command)
            (λ h.
              let (idle, sure, kept) =
                command_state r i (&&-eq_true shown r.claude.pending_command h).1 in
              local_output-Core r idle sure kept i)
            (λ _. i)

  pub ignored_turn-Core :
      (e : Record) (r : Row) → Core f horizon stamp r → Core f horizon stamp (ignored_turn e r)
  unfolding ignored_turn
  ignored_turn-Core e r i =
      if_elim (Core f horizon stamp)
        (is_queued_prompt e
          && ((not (is_active r) && is_none r.claude.pending_start) || r.claude.silent_end))
        (λ _. ambiguous-Core r i)
        λ _.
          if_elim
            (λ (u : Row). Core f horizon stamp (
              if is_local_output e
                && u.claude.pending_command
                && is_some u.claude.queued_since_start
              then ambiguous u
              else if is_local_output e && u.claude.pending_command
              then local_output u
              else u))
            (is_local_command e)
            (λ _. local_turn-Core (is_local_output e) (lose_clean r) (lose_clean-Core r i))
            (λ _. local_turn-Core (is_local_output e) r i)

  pub silent_turn-Core : (r : Row) → Core f horizon stamp r → Core f horizon stamp (silent_turn r)
  unfolding silent_turn
  silent_turn-Core r i = record {
    turns_ok = i.turns_ok;
    usage_ok = i.usage_ok;
    times_ok = unqueued-Times i.times_ok;
    state_ok = ground (arith, i.state_ok);
    foreign_is = i.foreign_is;
    covered = i.covered;
  }

  unadjacent-Core :
      (r : Row)
      → Core f horizon stamp r
      → Core f horizon stamp (set_cursor (λ c. record c { abort_adjacent = false }) r)
  unadjacent-Core r i = record {
    turns_ok = i.turns_ok;
    usage_ok = i.usage_ok;
    times_ok = i.times_ok;
    state_ok = i.state_ok;
    foreign_is = i.foreign_is;
    covered = i.covered;
  }

  pub assistant_turn-Core :
      (e : Record) (r : Row) → Core f horizon stamp r → Core f horizon stamp (assistant_turn e r)
  unfolding assistant_turn silent_turn
  assistant_turn-Core e r i =
      let u = set_cursor (λ c. record c { abort_adjacent = false }) r in
      let kept = confirm-Core u (unadjacent-Core r i) in
      if_elim (Core f horizon stamp)
        ((r.claude.lost_idle || (not r.claude.abort_adjacent && not r.claude.ambiguous))
          && not (is_active r)
          && is_none r.claude.pending_start)
        (λ _. ambiguous-Core u (unadjacent-Core r i))
        λ _.
          if_elim (Core f horizon stamp) (e.stop == stop_end_turn || e.stop == stop_other)
            (λ _. silent_turn-Core (confirm u) kept) (λ _. kept)
