-- ===== src/Turns/Observe.antt =====
-- `Turns::observe` of anton-runtime/src/turns.rs: one payload of a Codex transcript.
use herdr_observatory.BTreeMap.{get, insert}
use herdr_observatory.Common.{safe_id, take_chars}
use herdr_observatory.Json.{Value, index, as_str, as_u64}
use herdr_observatory.Prelude.{
  ℕ, String, Bool, true, false, not, ◌&&◌, ◌||◌, Option, none, some, str_eq, str_append, ltb, leb,
  ◌==◌, if◌then◌else◌, length, filter, is_some, is_some_and, is_none_or, unwrap_or,
}
use herdr_observatory.Turns.{
  Row, Turns, capacity, add_safe, duration, unknown, open_interval, set_last,
}

abbrev pub opt_is : Option String → String → Bool
opt_is o s = is_some_and o (λ x. str_eq x s)

abbrev pub opt_eq : Option ℕ → ℕ → Bool
opt_eq o n = is_some_and o (λ x. x == n)

-- The `task_started` block.
unfoldable pub started : String → ℕ → Turns → Turns
unfolding unknown
started key begun t = elim (get key t.finished) [
  | some row ↦ if row.begun == begun then t else unknown t
  | none ↦
      if opt_is t.active key
      then if opt_eq t.start begun then t else unknown t
      else if is_some t.active && is_some_and t.start (λ old. ltb begun old)
      then record t { valid = false }
      else if is_some_and t.last_end (λ ended. ltb begun ended)
      then unknown t
      else open_interval key begun (if is_some t.active then record t { valid = false } else t)
]

-- `previous != &row`, negated.
abbrev pub row_eq : Row → Row → Bool
row_eq a b = a.begun == b.begun && a.ended == b.ended && str_eq a.outcome b.outcome

unfoldable pub add_total : Row → Turns → Turns
add_total row t = elim (add_safe t.total (duration row)) [
  | some total ↦ record t { total = total }
  | none ↦ record t { valid = false }
]

-- Storing a finished turn: the row goes in before the total is known to be safe.
unfoldable pub store_row : String → Row → Turns → Turns
unfolding add_total
store_row key row t =
    if ltb (length t.finished) capacity
    then add_total row (record t { finished = insert key row t.finished })
    else record t { valid = false }

-- Which open interval a finished turn ends.
unfoldable pub close_interval : Bool → Row → Turns → Turns
close_interval matched row t =
    if matched
    then record t { active = none; start = none; current_known = true }
    else if is_some t.active && is_some_and t.start (λ begun. ltb begun row.ended)
    then record t { active = none; start = none; current_known = false }
    else t

-- The finished turn began before the last end and ended after it, and is not the open one.
abbrev pub straddles : Bool → Row → Turns → Bool
straddles matched row t =
    not matched && is_some_and t.last_end (λ last. ltb row.begun last && ltb last row.ended)

abbrev pub is_later : Bool → Row → Turns → Bool
is_later matched row t =
    is_none_or t.last_end (λ last. ltb last row.ended && (matched || leb last row.begun))

-- Whether a finished turn becomes the last one.
unfoldable pub settle_last : Bool → String → Row → Turns → Turns
settle_last matched key row t =
    if straddles matched row t
    then record t { active = none; start = none; current_known = false }
    else if is_later matched row t
    then set_last key row t
    else t

-- `matched`: the turn is the open interval, with the same start.
abbrev pub is_matched : String → ℕ → Turns → Bool
is_matched key begun t = opt_is t.active key && opt_eq t.start begun

-- `if !matched || … { self.valid = false }`.
unfoldable pub mark_gap : Bool → Row → Turns → Turns
mark_gap matched row t =
    if not matched || is_some_and t.last_end (λ last. ltb row.begun last)
    then record t { valid = false }
    else t

unfoldable pub completed : String → Row → Turns → Turns
unfolding unknown mark_gap store_row close_interval settle_last
completed key row t = elim (get key t.finished) [
  | some previous ↦ if row_eq previous row then t else unknown t
  | none ↦
      let matched = is_matched key row.begun t in
      settle_last matched key row
        (close_interval matched row (store_row key row (mark_gap matched row t)))
]

abbrev pub is_turn_event : String → Bool
is_turn_event kind =
    str_eq kind "task_started" || str_eq kind "task_complete" || str_eq kind "turn_aborted"

-- `&sha256(format!("anton-turn-v1:{session}:{turn}"))[..24]`. The digest is the crate sha2's.
abbrev pub turn_key : (String → String) → String → String → String
turn_key sha256 session turn =
    take_chars 24 (sha256 (str_append "anton-turn-v1:" (str_append session (str_append ":" turn))))

abbrev pub outcome_of : String → String
outcome_of kind = if str_eq kind "turn_aborted" then "aborted" else "completed"

-- `reached v` is `v as f64 <= now`.
module _ (reached : ℕ → Bool) where
  abbrev pub start_time : Value → Option ℕ
  start_time payload = filter (λ v. ltb 0 v && reached v) (as_u64 (index payload "started_at"))

  abbrev pub end_time : Value → ℕ → Option ℕ
  end_time payload begun =
      filter (λ v. leb begun v && reached v) (as_u64 (index payload "completed_at"))

  -- What follows the guards on `turn_id` and `started_at`.
  unfoldable pub observe_turn : String → String → ℕ → Value → Turns → Turns
  unfolding started completed
  observe_turn kind key begun payload t =
      if str_eq kind "task_started" then started key begun t else elim (end_time payload begun) [
        | none ↦ unknown t
        | some ended ↦
            completed key (record { begun = begun; ended = ended; outcome = outcome_of kind }) t
      ]

abbrev pub turn_id : Value → Option String
turn_id payload = filter (λ s. safe_id s 128) (as_str (index payload "turn_id"))

module _ (sha256 : String → String) (reached : ℕ → Bool) where
  unfoldable pub observe_event : String → Value → String → Turns → Turns
  unfolding observe_turn
  observe_event kind payload session t = elim (turn_id payload) [
    | none ↦ unknown t
    | some turn ↦ elim (start_time reached payload) [
      | none ↦ unknown t
      | some begun ↦ observe_turn reached kind (turn_key sha256 session turn) begun payload t
    ]
  ]

  unfoldable pub observe : Value → String → Turns → Turns
  unfolding observe_event
  observe payload session t =
      let kind = unwrap_or (as_str (index payload "type")) "" in
      if is_turn_event kind
      then observe_event kind payload session (record t { supported = true })
      else t
