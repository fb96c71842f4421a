-- ===== src/Turns.antt =====
-- anton-runtime/src/turns.rs: the turn accounting of one session. Its methods mutate `self`, so
-- each is a function from the old record to the new one.
pub mod Observe
pub mod Validate
pub mod WellFormed
pub mod Touch
pub mod Preserve
pub mod Reached
pub mod Grows
pub mod Kept
pub mod Bounded
pub mod Completed
pub mod ObserveInv
pub mod Observed
pub mod History
pub mod Closed
use herdr_observatory.BTreeMap.{BTreeMap, get, insert}
use herdr_observatory.Common.{hex_id, max_safe}
use herdr_observatory.Prelude.{
  ℕ, ◌+◌, ◌-◌, ◌^◌, String, Bool, true, false, not, ◌||◌, Option, none, some, [], ltb, leb, ◌==◌,
  if◌then◌else◌, length, filter, is_some, is_some_and,
}

-- The value `(u64, u64, String)` of the map `finished`.
pub record Row : Type 0 where
  pub begun : ℕ
  pub ended : ℕ
  pub outcome : String

pub record Turns : Type 0 where
  pub valid : Bool
  pub supported : Bool
  pub current_known : Bool
  pub active : Option String
  pub start : Option ℕ
  pub last : Option String
  pub last_duration : Option ℕ
  pub last_outcome : Option String
  pub last_end : Option ℕ
  pub total : ℕ
  pub finished : BTreeMap Row

abbrev pub default : Turns
default = record {
  valid = true;
  supported = false;
  current_known = false;
  active = none;
  start = none;
  last = none;
  last_duration = none;
  last_outcome = none;
  last_end = none;
  total = 0;
  finished = [];
}

abbrev pub capacity : ℕ
capacity = 512

-- `u64::checked_add`.
abbrev pub checked_add : ℕ → ℕ → Option ℕ
checked_add a b = if ltb (a + b) (2 ^ 64) then some (a + b) else none

-- Both totals that the code adds to are held to `max_safe`.
abbrev pub add_safe : ℕ → ℕ → Option ℕ
add_safe a b = filter (λ v. leb v max_safe) (checked_add a b)

abbrev pub duration : Row → ℕ
duration r = r.ended - r.begun

unfoldable pub unknown : Turns → Turns
unknown t = record t { valid = false; current_known = false; active = none; start = none }

-- `self.active = Some(key); self.start = Some(start); self.current_known = true`.
abbrev pub open_interval : String → ℕ → Turns → Turns
open_interval key begun t = record t { active = some key; start = some begun; current_known = true }

-- The rest of `begin`, once an open interval has been given up.
begin_closed : String → ℕ → Turns → Turns
unfolding unknown
begin_closed key begun t = elim (get key t.finished) [
  | some row ↦ if row.begun == begun then t else unknown t
  | none ↦
      if is_some_and t.last_end (λ ended. ltb begun ended)
      then unknown t
      else open_interval key begun t
]

unfoldable pub begin : String → ℕ → Turns → Turns
unfolding begin_closed
begin key begun t =
    let u = record t { supported = true } in
    if not (hex_id key 24) || begun == 0 || ltb max_safe begun
    then unknown u
    else begin_closed key begun (if is_some u.active then unknown u else u)

-- `self.last = …` and the three assignments after it.
abbrev pub set_last : String → Row → Turns → Turns
set_last key row t = record t {
  last = some key;
  last_duration = some (duration row);
  last_outcome = some row.outcome;
  last_end = some row.ended;
}

-- The `match total` of `end`.
store_total : String → Row → Turns → Turns
store_total key row t = elim (add_safe t.total (duration row)) [
  | some total ↦
      if ltb (length t.finished) capacity
      then record t { finished = insert key row t.finished; total = total }
      else record t { valid = false }
  | none ↦ record t { valid = false }
]

-- `end` with an open interval.
end_open : String → Row → Turns → Turns
unfolding unknown store_total
end_open key row t =
    if ltb row.ended row.begun || ltb max_safe row.ended
    then unknown t
    else set_last key row
        (store_total key row (record t { active = none; start = none; current_known = true }))

end_from : Option String → Option ℕ → ℕ → String → Turns → Turns
unfolding end_open
end_from (some key) (some begun) ended outcome t =
    end_open key (record { begun = begun; ended = ended; outcome = outcome }) t
end_from _ _ ended outcome t = record t { valid = false }

end_turn : ℕ → String → Turns → Turns
unfolding end_from
end_turn ended outcome t =
    let u = record t { supported = true } in end_from u.active u.start ended outcome u

unfoldable pub finish : ℕ → Turns → Turns
unfolding end_turn
finish ended t = end_turn ended "completed" t

unfoldable pub abort : ℕ → Turns → Turns
unfolding end_turn
abort ended t = end_turn ended "aborted" t
