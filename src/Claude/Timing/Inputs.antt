-- ===== src/Claude/Timing/Inputs.antt =====
-- `turn` of anton-runtime/src/claude.rs on input that is ignored or queued, on a silent end and on an
-- assistant line.
use herdr_observatory.Claude.{
  stop_other, mode_prompt, stop_end_turn, kind_system, kind_attachment, Record,
}
use herdr_observatory.Claude.Children.{lose_clean, max}
use herdr_observatory.Claude.Roles.{lead_of}
use herdr_observatory.Claude.Row.{ambiguous, is_idle, unknown_time, Row}
use herdr_observatory.Claude.Timing.Times.{
  max_option, is_unstamped, confirm, set_cursor, second_of, is_active,
}
use herdr_observatory.Prelude.{
  Bool, true, ℕ, Option, false, is_some, is_some_and, ◌||◌, leb, unwrap_or, is_none, filter, ◌&&◌,
  none, if◌then◌else◌, ◌==◌, not,
}

abbrev pub is_local_command : Record → Bool
is_local_command e = e.kind == kind_system && e.subtype == 5

abbrev pub is_local_output : Record → Bool
is_local_output e =
    is_some_and (lead_of e.text) (λ lead. lead == 2 || lead == 3) || is_local_command e

abbrev pub is_queued_prompt : Record → Bool
is_queued_prompt e = e.kind == kind_attachment && e.queued && e.mode == mode_prompt

-- The record shows that a pending slash command ran locally.
abbrev pub local_output : Row → Row
local_output r =
    set_cursor
      (λ c. record c {
        pending_command = false;
        pending_start = none;
        queued_since_start = none;
        local_idle = true;
        clean = false;
      })
      r

unfoldable pub ignored_turn : Record → Row → Row
ignored_turn e r =
    if is_queued_prompt e
      && ((not (is_active r) && is_none r.claude.pending_start) || r.claude.silent_end)
    then ambiguous r
    else let u = if is_local_command e then lose_clean r else r in
      if is_local_output e && u.claude.pending_command && is_some u.claude.queued_since_start
      then ambiguous u
      else if is_local_output e && u.claude.pending_command
      then local_output u
      else u

-- Input is taken while a turn runs or a start is pending.
abbrev pub take_input : Option ℕ → Row → Row
take_input stamp r =
    let usable = filter (λ s. leb 1000000 s) stamp in
    if is_none usable && r.claude.pending_command
    then ambiguous r
    else set_cursor (λ c. record c { queued_since_start = max_option c.queued_since_start usable })
        r

-- Input is taken otherwise.
abbrev pub take_idle : Option ℕ → Row → Row
take_idle second r =
    let u =
      if is_idle r
      then set_cursor
          (λ c. record c {
            end_floor = max c.end_floor (unwrap_or second 0);
            abort_adjacent = false;
          })
          r
      else r in
    if u.claude.lost_idle then ambiguous u else if is_unstamped second then unknown_time u else u

unfoldable pub queue_turn : Record → Row → Row
unfolding unknown_time
queue_turn e r =
    if e.operation == 2 || e.operation == 3
    then (if (is_active r || is_some r.claude.pending_start) && not r.claude.silent_end
        then take_input e.stamp r
        else take_idle (second_of e.stamp) r)
    else r

unfoldable pub silent_turn : Row → Row
silent_turn r =
    set_cursor
      (λ c. record c {
        queued_since_start = none;
        silent_end = is_active r;
        clean = c.clean && not (is_active r);
      })
      r

unfoldable pub assistant_turn : Record → Row → Row
unfolding confirm
assistant_turn e r =
    let adjacent = r.claude.abort_adjacent in
    let u = set_cursor (λ c. record c { abort_adjacent = false }) r in
    if (r.claude.lost_idle || (not adjacent && not r.claude.ambiguous))
      && not (is_active r)
      && is_none r.claude.pending_start
    then ambiguous u
    else let v = confirm u in
      if e.stop == stop_end_turn || e.stop == stop_other
      then set_cursor
          (λ c. record c {
            queued_since_start = none;
            silent_end = is_active v;
            clean = c.clean && not (is_active v);
          })
          v
      else v
