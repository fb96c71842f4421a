-- ===== src/Claude/Timing/Edges.antt =====
-- `turn` of anton-runtime/src/claude.rs on what starts or ends a turn.
use herdr_observatory.Claude.{lead_command, kind_user, kind_attachment, Record}
use herdr_observatory.Claude.Children.{max}
use herdr_observatory.Claude.Roles.{lead_of}
use herdr_observatory.Claude.Row.{turns_unknown, ambiguous, unknown_time, Row}
use herdr_observatory.Claude.Timing.Times.{
  is_unstamped, agrees, has_running, is_dated, end_interval, set_cursor, confirm, second_of,
  is_active,
}
use herdr_observatory.Prelude.{
  Bool, true, ℕ, Option, false, String, is_some, is_some_and, ◌||◌, leb, unwrap_or, ltb, ◌&&◌, none,
  some, if◌then◌else◌, ◌==◌, not,
}
use herdr_observatory.Turns.{finish as finish_turn, abort as abort_turn}

abbrev pub is_injected : Record → Bool
is_injected e = (e.kind == kind_user && ltb 1 e.origin) || e.kind == kind_attachment

-- The evidence of input taken covers this trigger.
abbrev pub is_taken : Option ℕ → Option ℕ → Bool
is_taken (some at) (some stamp) = leb stamp at
is_taken _ _ = false

abbrev pub is_command : Record → Bool
is_command e = e.kind == kind_user && is_some_and (lead_of e.text) (λ lead. lead == lead_command)

abbrev pub latest_end : Row → ℕ
latest_end r = max (unwrap_or r.turns.last_end 0) r.claude.end_floor

-- A trigger with a key and a second becomes a pending start, unless a turn may be running.
unfoldable pub open_start : Record → String → ℕ → ℕ → Row → Row
open_start e key second floor r =
    let taken = is_taken r.claude.queued_since_start e.stamp in
    let u = set_cursor (λ c. record c { queued_since_start = none }) r in
    if taken && is_active r
    then u
    else let v = set_cursor (λ c. record c { clean = c.clean && not (is_injected e) }) u in
      let w =
        if is_active v || is_some v.claude.pending_start || v.claude.lost_idle || ltb second floor
        then ambiguous v
        else v in
      if w.claude.ambiguous
      then w
      else set_cursor
          (λ c. record c {
            pending_command = is_command e;
            pending_start = some (record { key = key; second = second });
            lost_idle = false;
          })
          w

abbrev pub keyed_start : Option String → Option ℕ → Record → ℕ → Row → Row
keyed_start (some key) (some second) e floor r =
    if second == 0 then ambiguous r else open_start e key second floor r
keyed_start _ _ e floor r = ambiguous r

unfoldable pub trigger_turn : Record → Row → Row
unfolding open_start
trigger_turn e r =
    let local = r.claude.local_idle in
    let u = record r {
      turns = record r.turns { supported = true };
      claude = record r.claude { abort_adjacent = false; silent_end = false; local_idle = false };
    } in
    if local && is_injected e
    then ambiguous u
    else keyed_start e.uuid (second_of e.stamp) e (latest_end r) u

abbrev pub mark_abort : Option ℕ → Row → Row
mark_abort second r =
    set_cursor
      (λ c. record c {
        end_floor = max c.end_floor (unwrap_or second 0);
        ambiguous = false;
        silent_end = false;
        lost_idle = false;
        local_idle = false;
        abort_adjacent = true;
        clean = false;
      })
      r

-- The interval that an abort ends is the last one only if its start was dated.
abbrev pub abort_interval : Bool → Option ℕ → Row → Row
abort_interval dated second r =
    if not (is_active r) || dated
    then (let u = end_interval second (λ ended t. abort_turn ended t) r in
        if is_active r then record u { turns = record u.turns { valid = false } } else u)
    else turns_unknown r

unfoldable pub aborted_turn : Record → Row → Row
unfolding confirm end_interval unknown_time
aborted_turn e r =
    let second = second_of e.stamp in
    let u = if r.claude.local_idle then turns_unknown r else r in
    let w = abort_interval (is_dated r) second (mark_abort second (confirm u)) in
    if is_unstamped second then unknown_time w else w

-- A `turn_duration` that ends the active turn.
abbrev pub finish_active : Record → Option ℕ → Row → Row
finish_active e second r =
    let u = end_interval second (λ ended t. finish_turn ended t) r in
    set_cursor
      (λ c. record c {
        clean =
            (not (is_active u) && u.turns.current_known)
            && not e.background
            && u.valid
            && not (has_running u.children);
      })
      u

-- A `turn_duration` with no turn running.
abbrev pub finish_idle : Bool → Row → Row
finish_idle adjacent r =
    let u = if not adjacent || is_some r.claude.pending_start then turns_unknown r else r in
    set_cursor (λ c. record c { local_idle = true; clean = false }) u

abbrev pub mark_end : Option ℕ → Row → Row
mark_end second r = record r {
  turns = record r.turns { supported = true };
  claude = record r.claude {
    abort_adjacent = false;
    end_floor = max r.claude.end_floor (unwrap_or second 0);
    ambiguous = false;
    silent_end = false;
    lost_idle = false;
    local_idle = false;
  };
}

unfoldable pub ended_turn : Record → Row → Row
unfolding end_interval unknown_time
ended_turn e r =
    let second = second_of e.stamp in
    let u = mark_end second r in
    let w =
      if is_active r && agrees e r
      then finish_active e second u
      else if is_active r
      then turns_unknown u
      else finish_idle r.claude.abort_adjacent u in
    if is_unstamped second then unknown_time w else w
