-- ===== src/Claude/Timing/Times.antt =====
-- The times that `turn` of anton-runtime/src/claude.rs reads, and its methods `running`, `dated`,
-- `agrees`, `confirm` and `end`.
use herdr_observatory.BTreeMap.{BTreeMap}
use herdr_observatory.Claude.{ClaudeCursor, Record, Start}
use herdr_observatory.Claude.Children.{max}
use herdr_observatory.Claude.Row.{turns_unknown, ambiguous, Row}
use herdr_observatory.Prelude.{
  Bool, ℕ, Option, false, String, ◌^◌, str_eq, ◌*◌, ◌+◌, ◌-◌, is_some, any, ◌/◌, is_some_and,
  is_none_or, leb, ltb, ◌&&◌, none, some, if◌then◌else◌, ◌==◌, not,
}
use herdr_observatory.Turns.{Turns, begin}

abbrev pub is_active : Row → Bool
is_active r = is_some r.turns.active

-- A child has been launched or resumed, and has not been reported finished.
abbrev pub has_running : BTreeMap String → Bool
has_running children = any (λ (key, status). str_eq status "running") children

abbrev pub is_dated : Row → Bool
is_dated r = r.claude.clean && r.valid && not (has_running r.children)

-- `stamp / 1_000_000`.
abbrev pub second_of : Option ℕ → Option ℕ
second_of none = none
second_of (some stamp) = some (stamp / 1000000)

abbrev pub is_unstamped : Option ℕ → Bool
is_unstamped second = is_none_or second (λ s. s == 0)

abbrev pub max_option : Option ℕ → Option ℕ → Option ℕ
max_option none b = b
max_option (some a) none = some a
max_option (some a) (some b) = some (max a b)

-- `checked_mul(1000)` and `checked_sub`.
abbrev pub implied_start : ℕ → ℕ → Option ℕ
implied_start stamp elapsed =
    if ltb (elapsed * 1000) (2 ^ 64) && leb (elapsed * 1000) stamp
    then some ((stamp - elapsed * 1000) / 1000000)
    else none

abbrev pub abs_diff : ℕ → ℕ → ℕ
abs_diff a b = if leb a b then b - a else a - b

abbrev pub agrees_with : Option ℕ → Option ℕ → Option ℕ → Option ℕ → Bool
agrees_with (some start) (some stamp) (some elapsed) last_end =
    is_some_and (implied_start stamp elapsed)
      (λ implied. leb (abs_diff implied start) 2 && is_none_or last_end (λ e. leb e (implied + 2)))
agrees_with _ _ _ last_end = false

abbrev pub agrees : Record → Row → Bool
agrees e r = agrees_with r.turns.start e.stamp e.elapsed r.turns.last_end

abbrev pub set_cursor : (ClaudeCursor → ClaudeCursor) → Row → Row
set_cursor f r = record r { claude = f r.claude }

abbrev pub confirm_start : Option Start → Row → Row
confirm_start none r = r
confirm_start (some s) r =
    let u =
      if leb r.claude.end_floor s.second
      then record r { turns = begin s.key s.second r.turns }
      else r in
    if is_active u then u else ambiguous u

unfoldable pub confirm : Row → Row
confirm r =
    confirm_start r.claude.pending_start
      (set_cursor (λ c. record c { pending_command = false; pending_start = none }) r)

abbrev pub end_at : Option ℕ → (ℕ → Turns → Turns) → Row → Row
end_at none f r = turns_unknown r
end_at (some second) f r = record r {
  turns = f second r.turns;
  claude = record r.claude { queued_since_start = none };
}

unfoldable pub end_interval : Option ℕ → (ℕ → Turns → Turns) → Row → Row
end_interval second f r = if is_active r then end_at second f r else r
