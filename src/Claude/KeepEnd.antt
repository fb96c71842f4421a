-- ===== src/Claude/KeepEnd.antt =====
-- An abort and an end in anton-runtime/src/claude.rs keep the row in shape.
use herdr_observatory.Claude.{Record}
use herdr_observatory.Claude.Children.{max}
use herdr_observatory.Claude.Core.{Core}
use herdr_observatory.Claude.KeepQueue.{floor_raised, raised-Times}
use herdr_observatory.Claude.KeepTurn.{confirm-Core, end_interval-Core}
use herdr_observatory.Claude.Losing.{turns_unknown-Core, unknown_time-Core}
use herdr_observatory.Claude.Row.{Row, unknown_time, turns_unknown}
use herdr_observatory.Claude.Timing.{
  is_dated, confirm, agrees, has_running, second_of, is_unstamped, aborted_turn, finish_idle,
  mark_end, ended_turn, finish_active, mark_abort, abort_interval, end_interval, is_active,
  set_cursor,
}
use herdr_observatory.Prelude.{
  unwrap_or, ◌&&◌, true, is_some, arith, if_elim, ◌≡◌, not, ◌||◌, refl, if◌then◌else◌, false,
  Option, ℕ, Bool,
}
use herdr_observatory.Turns.{unknown, Turns, finish as finish_turn, abort as abort_turn}
use herdr_observatory.Turns.Closed.{active-finish, active-abort}
use herdr_observatory.Turns.Preserve.{finish-Inv, abort-Inv, flags-Inv}

-- No flag that an end clears is set.
pub record Quiet (r : Row) : Type 0 where
  pub loud : r.claude.silent_end ≡ false
  pub sure : r.claude.ambiguous ≡ false
  pub known : r.claude.lost_idle ≡ false
  pub shown : r.claude.local_idle ≡ false

end_interval-Quiet :
    (second : Option ℕ) (end : ℕ → Turns → Turns) (r : Row)
    → Quiet r
    → Quiet (end_interval second end r)
unfolding end_interval unknown
end_interval-Quiet second end r q = record {
  loud = ground (arith, q.loud);
  sure = ground (arith, q.sure);
  known = ground (arith, q.known);
  shown = ground (arith, q.shown);
}

module _ {f : Bool} {horizon : ℕ} (stamp : Option ℕ) where
  mark_abort-Core :
      (r : Row) → Core f horizon stamp r → Core f horizon stamp (mark_abort (second_of stamp) r)
  mark_abort-Core r i = record {
    turns_ok = i.turns_ok;
    usage_ok = i.usage_ok;
    times_ok =
        raised-Times (max r.claude.end_floor (unwrap_or (second_of stamp) 0))
          (floor_raised stamp r.claude.end_floor r.claude.coverage_seq i.covered
            i.times_ok.floor_le)
          i.times_ok;
    state_ok = ground (arith, i.state_ok);
    foreign_is = i.foreign_is;
    covered = i.covered;
  }

  mark_end-Core :
      (r : Row) → Core f horizon stamp r → Core f horizon stamp (mark_end (second_of stamp) r)
  mark_end-Core r i = record {
    turns_ok = flags-Inv r.turns r.turns.valid true (λ e. e) i.turns_ok;
    usage_ok = i.usage_ok;
    times_ok =
        raised-Times (max r.claude.end_floor (unwrap_or (second_of stamp) 0))
          (floor_raised stamp r.claude.end_floor r.claude.coverage_seq i.covered
            i.times_ok.floor_le)
          i.times_ok;
    state_ok = ground (arith, i.state_ok);
    foreign_is = i.foreign_is;
    covered = i.covered;
  }

  invalid_turns-Core :
      (r : Row)
      → Core f horizon stamp r
      → Core f horizon stamp (record r { turns = record r.turns { valid = false } })
  invalid_turns-Core r i = record {
    turns_ok = flags-Inv r.turns false r.turns.supported (λ e. cc) i.turns_ok;
    usage_ok = i.usage_ok;
    times_ok = i.times_ok;
    state_ok = ground (arith, i.state_ok);
    foreign_is = i.foreign_is;
    covered = i.covered;
  }

  abort_interval-Core :
      (dated : Bool) (second : Option ℕ) (r : Row)
      → r.claude.silent_end ≡ false
      → Core f horizon stamp r
      → Core f horizon stamp (abort_interval dated second r)
  abort_interval-Core dated second r loud i =
      let u = end_interval second (λ ended t. abort_turn ended t) r in
      let k : Core f horizon stamp u =
        end_interval-Core (λ ended t. abort_turn ended t) second r
          (λ n. abort-Inv n r.turns i.turns_ok) (active-abort r.turns i.turns_ok) loud i in
      if_elim (Core f horizon stamp) (not (is_active r) || dated)
        (λ _. if_elim (Core f horizon stamp) (is_active r) (λ _. invalid_turns-Core u k) (λ _. k))
        (λ _. turns_unknown-Core r i)

  clean-Core :
      (b : Bool) (r : Row)
      → Quiet r
      → Core f horizon stamp r
      → Core f horizon stamp (set_cursor (λ c. record c { clean = b }) r)
  clean-Core b r q i = record {
    turns_ok = i.turns_ok;
    usage_ok = i.usage_ok;
    times_ok = i.times_ok;
    state_ok = ground (arith, i.state_ok, q.loud, q.sure, q.known, q.shown);
    foreign_is = i.foreign_is;
    covered = i.covered;
  }

  finish_active-Core :
      (e : Record) (second : Option ℕ) (r : Row)
      → Quiet r
      → Core f horizon stamp r
      → Core f horizon stamp (finish_active e second r)
  finish_active-Core e second r q i =
      let u = end_interval second (λ ended t. finish_turn ended t) r in
      clean-Core
        ((not (is_active u) && u.turns.current_known)
          && not e.background
          && u.valid
          && not (has_running u.children))
        u (end_interval-Quiet second (λ ended t. finish_turn ended t) r q)
        (end_interval-Core (λ ended t. finish_turn ended t) second r
          (λ n. finish-Inv n r.turns i.turns_ok) (active-finish r.turns i.turns_ok) q.loud i)

  shown-Core :
      (r : Row)
      → (is_active r || is_some r.claude.pending_start) ≡ false
      → r.claude.ambiguous ≡ false
      → Core f horizon stamp r
      → Core f horizon stamp (set_cursor (λ c. record c { local_idle = true; clean = false }) r)
  shown-Core r idle sure i = record {
    turns_ok = i.turns_ok;
    usage_ok = i.usage_ok;
    times_ok = i.times_ok;
    state_ok = ground (arith, i.state_ok, idle, sure);
    foreign_is = i.foreign_is;
    covered = i.covered;
  }

  finish_idle-Core :
      (adjacent : Bool) (r : Row)
      → is_active r ≡ false
      → Quiet r
      → Core f horizon stamp r
      → Core f horizon stamp (finish_idle adjacent r)
  unfolding unknown
  finish_idle-Core adjacent r idle q i =
      if_elim
        (λ (u : Row).
          Core f horizon stamp (set_cursor (λ c. record c { local_idle = true; clean = false }) u))
        (not adjacent || is_some r.claude.pending_start)
        (λ _. shown-Core (turns_unknown r) refl q.sure (turns_unknown-Core r i))
        (λ free. shown-Core r (ground (arith, idle, free)) q.sure i)

  dated_end-Core :
      (r : Row)
      → Core f horizon stamp r
      → Core f horizon stamp (if is_unstamped (second_of stamp) then unknown_time r else r)
  dated_end-Core r i =
      if_elim (Core f horizon stamp) (is_unstamped (second_of stamp)) (λ _. unknown_time-Core r i)
        (λ _. i)

module _ {f : Bool} {horizon : ℕ} (e : Record) (r : Row) (i : Core f horizon e.stamp r) where
  pub aborted_turn-Core : Core f horizon e.stamp (aborted_turn e r)
  unfolding aborted_turn
  aborted_turn-Core =
      let u = if r.claude.local_idle then turns_unknown r else r in
      let k : Core f horizon e.stamp u =
        if_elim (Core f horizon e.stamp) r.claude.local_idle (λ _. turns_unknown-Core r i)
          (λ _. i) in
      let marked = mark_abort (second_of e.stamp) (confirm u) in
      dated_end-Core e.stamp (abort_interval (is_dated r) (second_of e.stamp) marked) (
        abort_interval-Core e.stamp (is_dated r) (second_of e.stamp) marked refl
          (mark_abort-Core e.stamp (confirm u) (confirm-Core u k)))

  pub ended_turn-Core : Core f horizon e.stamp (ended_turn e r)
  unfolding ended_turn
  ended_turn-Core =
      let second = second_of e.stamp in
      let u = mark_end second r in
      let k : Core f horizon e.stamp u = mark_end-Core e.stamp r i in
      let q : Quiet u = record { loud = refl; sure = refl; known = refl; shown = refl } in
      let w =
        if is_active r && agrees e r
        then finish_active e second u
        else if is_active r
        then turns_unknown u
        else finish_idle r.claude.abort_adjacent u in
      dated_end-Core e.stamp w (
        if_elim (Core f horizon e.stamp) (is_active r && agrees e r)
          (λ _. finish_active-Core e.stamp e second u q k)
          λ _.
            if_elim (Core f horizon e.stamp) (is_active r) (λ _. turns_unknown-Core u k)
              (λ idle. finish_idle-Core e.stamp r.claude.abort_adjacent u idle q k))
