-- ===== src/Claude/KeepTrigger.antt =====
-- A trigger in anton-runtime/src/claude.rs keeps the row in shape.
use herdr_observatory.Claude.{max_safe, Start, Record}
use herdr_observatory.Claude.Core.{Core}
use herdr_observatory.Claude.Cursor.{start_valid}
use herdr_observatory.Claude.KeepTurn.{unqueued-Times}
use herdr_observatory.Claude.Losing.{ambiguous-Core}
use herdr_observatory.Claude.Row.{ambiguous, Row}
use herdr_observatory.Claude.Timing.{
  latest_end, is_command, second_of, is_injected, keyed_start, is_taken, trigger_turn, open_start,
  is_active, set_cursor,
}
use herdr_observatory.Common.{hex_id}
use herdr_observatory.Prelude.{
  ◌==◌, ltb, is_some, ◌/◌, ◌&&◌, Holds, true, ◌≤◌, arith, if_elim, ◌≡◌, none, some, not, ◌||◌, refl,
  if◌then◌else◌, String, false, Option, ℕ, Bool,
}
use herdr_observatory.Turns.Preserve.{flags-Inv}

module _ {f : Bool} {horizon : ℕ} {stamp : Option ℕ} where
  unqueued-Core :
      (r : Row)
      → Core f horizon stamp r
      → Core f horizon stamp (set_cursor (λ c. record c { queued_since_start = none }) r)
  unqueued-Core r i = record {
    turns_ok = i.turns_ok;
    usage_ok = i.usage_ok;
    times_ok = unqueued-Times i.times_ok;
    state_ok = ground (arith, i.state_ok);
    foreign_is = i.foreign_is;
    covered = i.covered;
  }

  unclean-Core :
      (b : Bool) (r : Row)
      → Core f horizon stamp r
      → Core f horizon stamp (set_cursor (λ c. record c { clean = c.clean && b }) r)
  unclean-Core b r i = record {
    turns_ok = i.turns_ok;
    usage_ok = i.usage_ok;
    times_ok = i.times_ok;
    state_ok = ground (arith, i.state_ok);
    foreign_is = i.foreign_is;
    covered = i.covered;
  }

  -- A start becomes pending where no turn can be running.
  pending-Core :
      (command : Bool) (s : Start) (r : Row)
      → start_valid s ≡ true
      → is_active r ≡ false
      → r.claude.ambiguous ≡ false
      → r.claude.local_idle ≡ false
      → Core f horizon stamp r
      → Core f horizon stamp (
          set_cursor
            (λ c. record c { pending_command = command; pending_start = some s; lost_idle = false })
            r)
  pending-Core command s r ok idle sure shown i = record {
    turns_ok = i.turns_ok;
    usage_ok = i.usage_ok;
    times_ok = record {
      coverage_le = i.times_ok.coverage_le;
      pending_ok = ok;
      command_ok = ground arith;
      queued_ok = i.times_ok.queued_ok;
      floor_le = i.times_ok.floor_le;
    };
    state_ok = ground (arith, i.state_ok, idle, sure, shown);
    foreign_is = i.foreign_is;
    covered = i.covered;
  }

  -- Either the start is pending, or the current turn is ambiguous.
  opened-Core :
      (command : Bool) (s : Start) (floor : ℕ) (r : Row)
      → start_valid s ≡ true
      → r.claude.local_idle ≡ false
      → Core f horizon stamp r
      → (let w =
            if is_active r
              || is_some r.claude.pending_start
              || r.claude.lost_idle
              || ltb s.second floor
            then ambiguous r
            else r in
          Core f horizon stamp (
            if w.claude.ambiguous
            then w
            else set_cursor
                (λ c. record c {
                  pending_command = command;
                  pending_start = some s;
                  lost_idle = false;
                })
                w))
  opened-Core command s floor r ok shown i =
      let Opened : Row → Type 0 = λ w. Core f horizon stamp (
        if w.claude.ambiguous
        then w
        else set_cursor
            (λ c. record c { pending_command = command; pending_start = some s; lost_idle = false })
            w) in
      if_elim Opened
        (is_active r || is_some r.claude.pending_start || r.claude.lost_idle || ltb s.second floor)
        (λ _. ambiguous-Core r i)
        (λ free.
          if_elim (Core f horizon stamp) r.claude.ambiguous (λ _. i)
            (λ sure. pending-Core command s r ok (ground (arith, free)) sure shown i))

  pub open_start-Core :
      (e : Record) (s : Start) (floor : ℕ) (r : Row)
      → start_valid s ≡ true
      → r.claude.local_idle ≡ false
      → Core f horizon stamp r
      → Core f horizon stamp (open_start e s.key s.second floor r)
  unfolding open_start
  open_start-Core e s floor r ok shown i =
      let u = set_cursor (λ c. record c { queued_since_start = none }) r in
      if_elim (Core f horizon stamp) (is_taken r.claude.queued_since_start e.stamp && is_active r)
        (λ _. unqueued-Core r i)
        (λ _.
          opened-Core (is_command e) s floor
            (set_cursor (λ c. record c { clean = c.clean && not (is_injected e) }) u) ok shown
            (unclean-Core (not (is_injected e)) u (unqueued-Core r i)))

  supported-Core :
      (r : Row)
      → Core f horizon stamp r
      → Core f horizon stamp (record r {
        turns = record r.turns { supported = true };
        claude = record r.claude { abort_adjacent = false; silent_end = false; local_idle = false };
      })
  supported-Core r i = record {
    turns_ok = flags-Inv r.turns r.turns.valid true (λ e. e) i.turns_ok;
    usage_ok = i.usage_ok;
    times_ok = i.times_ok;
    state_ok = ground (arith, i.state_ok);
    foreign_is = i.foreign_is;
    covered = i.covered;
  }

second_ok :
    (key : String) (stamp horizon : ℕ)
    → hex_id key 24 ≡ true
    → stamp ≤ horizon
    → horizon ≤ max_safe
    → (stamp / 1000000 == 0) ≡ false
    → start_valid (record { key = key; second = stamp / 1000000 }) ≡ true
second_ok key stamp horizon hex le safe pos = ground arith

module _ {f : Bool} (horizon : ℕ) (safe : horizon ≤ max_safe) (e : Record) where
  keyed_start-Core :
      (uuid : Option String) (stamp : Option ℕ) (floor : ℕ) (r : Row)
      → Holds (λ key. hex_id key 24 ≡ true) uuid
      → r.claude.local_idle ≡ false
      → Core f horizon stamp r
      → Core f horizon stamp (keyed_start uuid (second_of stamp) e floor r)
  keyed_start-Core (some key) (some stamp) floor r hex shown i =
      if_elim (Core f horizon (some stamp)) (stamp / 1000000 == 0) (λ _. ambiguous-Core r i)
        (λ pos.
          open_start-Core e (record { key = key; second = stamp / 1000000 }) floor r
            (second_ok key stamp horizon hex (omega (arith, i.covered, i.times_ok.coverage_le)) safe
              pos)
            shown i)
  keyed_start-Core (some key) none floor r hex shown i = ambiguous-Core r i
  keyed_start-Core none stamp floor r hex shown i = ambiguous-Core r i

  pub trigger_turn-Core :
      (r : Row)
      → Holds (λ key. hex_id key 24 ≡ true) e.uuid
      → Core f horizon e.stamp r
      → Core f horizon e.stamp (trigger_turn e r)
  unfolding trigger_turn
  trigger_turn-Core r hex i =
      let u = record r {
        turns = record r.turns { supported = true };
        claude = record r.claude { abort_adjacent = false; silent_end = false; local_idle = false };
      } in
      let k : Core f horizon e.stamp u = supported-Core r i in
      if_elim (Core f horizon e.stamp) (r.claude.local_idle && is_injected e)
        (λ _. ambiguous-Core u k) (λ _. keyed_start-Core e.uuid e.stamp (latest_end r) u hex refl k)
