-- ===== src/Claude/KeepQueue.antt =====
-- The queue operations in anton-runtime/src/claude.rs keep the row in shape.
use herdr_observatory.Claude.{Start, Record}
use herdr_observatory.Claude.Children.{max}
use herdr_observatory.Claude.Core.{Core, Times}
use herdr_observatory.Claude.Losing.{ambiguous-Core, unknown_time-Core}
use herdr_observatory.Claude.Row.{is_idle, Row}
use herdr_observatory.Claude.Timing.{
  is_unstamped, take_input, take_idle, second_of, max_option, queue_turn, is_active, set_cursor,
}
use herdr_observatory.Prelude.{
  not-eq_true, &&-eq_true, is_none, ◌&&◌, true, ◌==◌, unwrap_or, is_some, leb, filter, ◌<◌, ◌/◌,
  Holds, ◌≤◌, arith, if_elim, ◌≡◌, none, some, not, ◌||◌, if◌then◌else◌, false, Option, ℕ, Bool,
}

pub second_mono : (a b : ℕ) → a ≤ b → a / 1000000 ≤ b / 1000000
second_mono a b h = omega (arith, h)

-- The second of a record that is covered does not pass the covered second.
pub floor_raised :
    (stamp : Option ℕ) (floor covered : ℕ)
    → Holds (λ s. s ≤ covered) stamp
    → floor ≤ covered / 1000000
    → max floor (unwrap_or (second_of stamp) 0) ≤ covered / 1000000
floor_raised none floor covered s h = ground (arith, h)
floor_raised (some stamp) floor covered s h = ground (arith, h, second_mono stamp covered s)

pub raised-Times :
    {h cov : ℕ} {p : Option Start} {b : Bool} {q : Option ℕ} {floor : ℕ} (raised : ℕ)
    → raised ≤ cov / 1000000
    → Times h cov p b q floor
    → Times h cov p b q raised
raised-Times raised le t = record {
  coverage_le = t.coverage_le;
  pending_ok = t.pending_ok;
  command_ok = t.command_ok;
  queued_ok = t.queued_ok;
  floor_le = le;
}

-- The latest input taken.
latest_input :
    (q stamp : Option ℕ) (covered : ℕ)
    → Holds (λ at. (0 < at) × (at ≤ covered)) q
    → Holds (λ s. s ≤ covered) stamp
    → Holds (λ at. (0 < at) × (at ≤ covered)) (max_option q (filter (λ s. leb 1000000 s) stamp))
latest_input none none covered q s = tt
latest_input (some at) none covered q s = q
latest_input none (some stamp) covered q s =
    if_elim (λ o. Holds (λ at. (0 < at) × (at ≤ covered)) (max_option none o)) (leb 1000000 stamp)
      (λ h. (ground (arith, h), s)) (λ _. tt)
latest_input (some at) (some stamp) covered q s =
    if_elim (λ o. Holds (λ at. (0 < at) × (at ≤ covered)) (max_option (some at) o))
      (leb 1000000 stamp) (λ h. (ground (arith, h, q), ground (arith, q, s))) (λ _. q)

module _ {f : Bool} {horizon : ℕ} (stamp : Option ℕ) where
  take_input-Core :
      (r : Row)
      → (is_active r || is_some r.claude.pending_start) ≡ true
      → r.claude.silent_end ≡ false
      → Core f horizon stamp r
      → Core f horizon stamp (take_input stamp r)
  take_input-Core r running loud i =
      if_elim (Core f horizon stamp)
        (is_none (filter (λ s. leb 1000000 s) stamp) && r.claude.pending_command)
        (λ _. ambiguous-Core r i)
        (λ _. record {
          turns_ok = i.turns_ok;
          usage_ok = i.usage_ok;
          times_ok = record {
            coverage_le = i.times_ok.coverage_le;
            pending_ok = i.times_ok.pending_ok;
            command_ok = i.times_ok.command_ok;
            queued_ok =
                latest_input r.claude.queued_since_start stamp r.claude.coverage_seq
                  i.times_ok.queued_ok i.covered;
            floor_le = i.times_ok.floor_le;
          };
          state_ok = ground (arith, i.state_ok, running, loud);
          foreign_is = i.foreign_is;
          covered = i.covered;
        })

  idle_floor-Core :
      (r : Row)
      → Core f horizon stamp r
      → Core f horizon stamp (
          if is_idle r
          then set_cursor
              (λ c. record c {
                end_floor = max c.end_floor (unwrap_or (second_of stamp) 0);
                abort_adjacent = false;
              })
              r
          else r)
  idle_floor-Core r i =
      if_elim (Core f horizon stamp) (is_idle r)
        (λ _. record {
          turns_ok = i.turns_ok;
          usage_ok = i.usage_ok;
          times_ok =
              raised-Times (max r.claude.end_floor (unwrap_or (second_of stamp) 0))
                (floor_raised stamp r.claude.end_floor r.claude.coverage_seq i.covered
                  i.times_ok.floor_le)
                i.times_ok;
          state_ok = i.state_ok;
          foreign_is = i.foreign_is;
          covered = i.covered;
        })
        (λ _. i)

  take_idle-Core :
      (r : Row) → Core f horizon stamp r → Core f horizon stamp (take_idle (second_of stamp) r)
  take_idle-Core r i =
      let u =
        if is_idle r
        then set_cursor
            (λ c. record c {
              end_floor = max c.end_floor (unwrap_or (second_of stamp) 0);
              abort_adjacent = false;
            })
            r
        else r in
      let k : Core f horizon stamp u = idle_floor-Core r i in
      if_elim (Core f horizon stamp) u.claude.lost_idle (λ _. ambiguous-Core u k)
        λ _.
          if_elim (Core f horizon stamp) (is_unstamped (second_of stamp))
            (λ _. unknown_time-Core u k) (λ _. k)

pub queue_turn-Core :
    {f : Bool} {horizon : ℕ} (e : Record) (r : Row)
    → Core f horizon e.stamp r
    → Core f horizon e.stamp (queue_turn e r)
unfolding queue_turn
queue_turn-Core {f = f} {horizon = horizon} e r i =
    let Kept = Core f horizon e.stamp in
    if_elim Kept (e.operation == 2 || e.operation == 3)
      (λ _.
        if_elim Kept ((is_active r || is_some r.claude.pending_start) && not r.claude.silent_end)
          (λ h.
            let (running, loud) =
              &&-eq_true (is_active r || is_some r.claude.pending_start) (not r.claude.silent_end)
                h in
            take_input-Core e.stamp r running (not-eq_true r.claude.silent_end loud) i)
          (λ _. take_idle-Core e.stamp r i))
      (λ _. i)
