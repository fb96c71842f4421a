-- ===== src/Claude/Frame.antt =====
-- The timing of turns in anton-runtime/src/claude.rs leaves the rest of the row alone.
use herdr_observatory.Claude.{Record, Start, Group}
use herdr_observatory.Claude.Roles.{
  Role, role_of, trigger, ignored, end, silent, queue, assistant as answer, unknown as unknown_role,
  abort as abort_role,
}
use herdr_observatory.Claude.Row.{
  turns_unknown, ambiguous, is_running, is_idle, Row, lose_turn, unknown_time,
}
use herdr_observatory.Claude.Timing.{
  is_injected, finish_idle, is_dated, finish_active, mark_abort, agrees, latest_end, mark_end,
  keyed_start, second_of, abort_interval, turn, assistant_turn, ended_turn, turn_as, silent_turn,
  trigger_turn, aborted_turn, is_unstamped, is_active, set_cursor, confirm_start, ignored_turn,
  queue_turn, open_start, confirm, end_interval,
}
use herdr_observatory.Prelude.{
  true, ap, String, false, Option, ℕ, Bool, ◌∙◌, ◌==◌, ◌||◌, is_some, leb, ◌&&◌, if_elim, ◌≡◌, none,
  some, not, refl, if◌then◌else◌, arith,
}
use herdr_observatory.Turns.{finish as finish_turn, abort as abort_turn, begin, Turns}

-- What is known of a row besides its turns.
pub record Known : Type 0 where
  pub valid : Bool
  pub compactions_valid : Bool
  pub totals_valid : Bool
  pub foreign : Bool
  pub coverage_seq : ℕ

abbrev pub known : Row → Known
known r = record {
  valid = r.valid;
  compactions_valid = r.compactions_valid;
  totals_valid = r.claude.totals_valid;
  foreign = r.claude.foreign;
  coverage_seq = r.claude.coverage_seq;
}

-- What is counted of the usage.
pub record Purse : Type 0 where
  pub input : ℕ
  pub output : ℕ
  pub cache_read : ℕ
  pub cache_creation : ℕ
  pub open_group : Option Group

abbrev pub purse : Row → Purse
purse r = record {
  input = r.claude.input;
  output = r.claude.output;
  cache_read = r.claude.cache_read;
  cache_creation = r.claude.cache_creation;
  open_group = r.claude.open_group;
}

abbrev framed : Row → Known × Purse
framed r = (known r, purse r)

framed-lose_turn : (r : Row) → framed (lose_turn r) ≡ framed r
unfolding lose_turn
framed-lose_turn r =
    if_elim (λ (u : Row). framed u ≡ framed r) (is_running r) (λ _. refl) (λ _. refl)

framed-unknown_time : (r : Row) → framed (unknown_time r) ≡ framed r
unfolding unknown_time
framed-unknown_time r =
    if_elim (λ (u : Row). framed u ≡ framed r) (is_idle r && not r.claude.ambiguous) (λ _. refl)
      (λ _. refl)

confirm_start-framed : (p : Option Start) (r : Row) → framed (confirm_start p r) ≡ framed r
confirm_start-framed none r = refl
confirm_start-framed (some s) r =
    if_elim (λ (u : Row). framed (if is_active u then u else ambiguous u) ≡ framed r)
      (leb r.claude.end_floor s.second)
      (λ _.
        if_elim (λ (u : Row). framed u ≡ framed r) (is_some (begin s.key s.second r.turns).active)
          (λ _. refl) (λ _. refl))
      (λ _. if_elim (λ (u : Row). framed u ≡ framed r) (is_active r) (λ _. refl) (λ _. refl))

framed-confirm : (r : Row) → framed (confirm r) ≡ framed r
unfolding confirm
framed-confirm r =
    confirm_start-framed r.claude.pending_start
      (set_cursor (λ c. record c { pending_command = false; pending_start = none }) r)

framed-end_interval :
    (second : Option ℕ) (close : ℕ → Turns → Turns) (r : Row)
    → framed (end_interval second close r) ≡ framed r
unfolding end_interval
framed-end_interval none close r =
    if_elim (λ (u : Row). framed u ≡ framed r) (is_active r) (λ _. refl) (λ _. refl)
framed-end_interval (some second) close r =
    if_elim (λ (u : Row). framed u ≡ framed r) (is_active r) (λ _. refl) (λ _. refl)

framed-ignored_turn : (e : Record) (r : Row) → framed (ignored_turn e r) ≡ framed r
unfolding ignored_turn
framed-ignored_turn e r = ground arith

framed-queue_turn : (e : Record) (r : Row) → framed (queue_turn e r) ≡ framed r
unfolding queue_turn unknown_time
framed-queue_turn e r = ground arith

framed-open_start :
    (e : Record) (key : String) (second floor : ℕ) (r : Row)
    → framed (open_start e key second floor r) ≡ framed r
unfolding open_start
framed-open_start e key second floor r = ground arith

framed-assistant_turn : (e : Record) (r : Row) → framed (assistant_turn e r) ≡ framed r
unfolding assistant_turn
framed-assistant_turn e r =
    let u = set_cursor (λ c. record c { abort_adjacent = false }) r in
    ground (arith, framed-confirm u)

framed-trigger_turn : (e : Record) (r : Row) → framed (trigger_turn e r) ≡ framed r
unfolding trigger_turn
framed-trigger_turn e r =
    let u = record r {
      turns = record r.turns { supported = true };
      claude = record r.claude { abort_adjacent = false; silent_end = false; local_idle = false };
    } in
    if_elim (λ (v : Row). framed v ≡ framed r) (r.claude.local_idle && is_injected e) (λ _. refl)
      (λ _. keyed e.uuid (second_of e.stamp) u)
  where
    keyed :
        (key : Option String) (second : Option ℕ) (u : Row)
        → framed (keyed_start key second e (latest_end r) u) ≡ framed u
    keyed (some key) (some second) u =
        if_elim (λ (v : Row). framed v ≡ framed u) (second == 0) (λ _. refl)
          (λ _. framed-open_start e key second (latest_end r) u)
    keyed (some key) none u = refl
    keyed none second u = refl

framed-dated_end :
    (second : Option ℕ) (r : Row)
    → framed (if is_unstamped second then unknown_time r else r) ≡ framed r
framed-dated_end second r =
    if_elim (λ (u : Row). framed u ≡ framed r) (is_unstamped second) (λ _. framed-unknown_time r)
      (λ _. refl)

framed-abort_interval :
    (dated : Bool) (second : Option ℕ) (r : Row) → framed (abort_interval dated second r) ≡ framed r
framed-abort_interval dated second r =
    if_elim (λ (u : Row). framed u ≡ framed r) (not (is_active r) || dated)
      (λ _.
        if_elim (λ (u : Row). framed u ≡ framed r) (is_active r)
          (λ _. framed-end_interval second (λ ended t. abort_turn ended t) r)
          (λ _. framed-end_interval second (λ ended t. abort_turn ended t) r))
      (λ _. refl)

framed-aborted_turn : (e : Record) (r : Row) → framed (aborted_turn e r) ≡ framed r
unfolding aborted_turn
framed-aborted_turn e r =
    let second = second_of e.stamp in
    let u = if r.claude.local_idle then turns_unknown r else r in
    let marked = mark_abort second (confirm u) in
    framed-dated_end second (abort_interval (is_dated r) second marked)
    ∙ framed-abort_interval (is_dated r) second marked
    ∙ framed-confirm u
    ∙ if_elim (λ (v : Row). framed v ≡ framed r) r.claude.local_idle (λ _. refl) (λ _. refl)

framed-ended_turn : (e : Record) (r : Row) → framed (ended_turn e r) ≡ framed r
unfolding ended_turn
framed-ended_turn e r =
    let second = second_of e.stamp in
    let u = mark_end second r in
    let w =
      if is_active r && agrees e r
      then finish_active e second u
      else if is_active r
      then turns_unknown u
      else finish_idle r.claude.abort_adjacent u in
    framed-dated_end second w
    ∙ if_elim (λ (v : Row). framed v ≡ framed r) (is_active r && agrees e r)
        (λ _. framed-end_interval second (λ ended t. finish_turn ended t) u)
        λ _.
          if_elim (λ (v : Row). framed v ≡ framed r) (is_active r) (λ _. refl)
            λ _.
              if_elim
                (λ (v : Row).
                  framed (set_cursor (λ c. record c { local_idle = true; clean = false }) v)
                  ≡ framed r)
                (not r.claude.abort_adjacent || is_some r.claude.pending_start) (λ _. refl)
                (λ _. refl)

framed-silent_turn : (r : Row) → framed (silent_turn r) ≡ framed r
unfolding silent_turn
framed-silent_turn r = refl

framed-turn_as : (role : Role) (e : Record) (r : Row) → framed (turn_as role e r) ≡ framed r
framed-turn_as ignored e r = framed-ignored_turn e r
framed-turn_as unknown_role e r = refl
framed-turn_as queue e r = framed-queue_turn e r
framed-turn_as silent e r = framed-silent_turn r
framed-turn_as answer e r = framed-assistant_turn e r
framed-turn_as trigger e r = framed-trigger_turn e r
framed-turn_as abort_role e r = framed-aborted_turn e r
framed-turn_as end e r = framed-ended_turn e r

framed-turn : (e : Record) (r : Row) → framed (turn e r) ≡ framed r
unfolding turn
framed-turn e r = framed-turn_as (role_of e) e r

pub known-lose_turn : (r : Row) → known (lose_turn r) ≡ known r
known-lose_turn r = ap (λ p. p.0) (framed-lose_turn r)

pub known-unknown_time : (r : Row) → known (unknown_time r) ≡ known r
known-unknown_time r = ap (λ p. p.0) (framed-unknown_time r)

pub known-turn : (e : Record) (r : Row) → known (turn e r) ≡ known r
known-turn e r = ap (λ p. p.0) (framed-turn e r)

-- The timing of turns counts nothing.
pub purse-turn : (e : Record) (r : Row) → purse (turn e r) ≡ purse r
purse-turn e r = ap (λ p. p.1) (framed-turn e r)
