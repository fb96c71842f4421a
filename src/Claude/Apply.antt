-- ===== src/Claude/Apply.antt =====
-- `close_group`, `assistant`, `apply`, `turn_state`, `published_turns` and `status_seq` of
-- anton-runtime/src/claude.rs.
use herdr_observatory.Claude.{
  kind_attachment, kind_user, no_counters, Counters, kind_assistant, stop_null, ClaudeCursor,
  kind_system, Record, Group, Response, Four,
}
use herdr_observatory.Claude.Children.{children, max}
use herdr_observatory.Claude.Cursor.{response_valid, contains, sum_all, totals}
use herdr_observatory.Claude.Row.{fail_totals, unclassified, invalid, Row}
use herdr_observatory.Claude.Timing.{turn, is_active, set_cursor, is_dated}
use herdr_observatory.Common.{max_safe}
use herdr_observatory.Prelude.{
  Option, ℕ, false, Bool, String, List, is_none_or, is_none, leb, true, ◌%◌, length, unwrap_or,
  ◌&&◌, ◌++◌, is_some, str_eq, ◌||◌, ◌+◌, ltb, filter, none, some, [], ◌∷◌, if◌then◌else◌, ◌==◌,
  not,
}
use herdr_observatory.Turns.{Turns}

-- `u64` addition.
abbrev pub add64 : ℕ → ℕ → ℕ
add64 a b = (a + b) % 18446744073709551616

-- The ring of closed identities: the oldest one goes.
abbrev pub drop_first : List String → List String
drop_first [] = []
drop_first (x ∷ xs) = xs

abbrev pub push_closed : List String → String → List String
push_closed closed id =
    let longer = closed ++ (id ∷ []) in if ltb 32 (length longer) then drop_first longer else longer

abbrev pub answer_of : Option Response → Option Response → Option Response
answer_of none last = last
answer_of (some response) last = some response

abbrev pub close_group_of : Option Group → ClaudeCursor → ClaudeCursor
close_group_of none c = c
close_group_of (some g) c = record c {
  input = add64 c.input g.usage.at0;
  output = add64 c.output g.usage.at1;
  cache_read = add64 c.cache_read g.usage.at2;
  cache_creation = add64 c.cache_creation g.usage.at3;
  open_group = none;
  last = answer_of g.response c.last;
  last_valid = is_some g.response || c.last_valid;
  closed = push_closed c.closed g.id;
}

unfoldable pub close_group : ClaudeCursor → ClaudeCursor
close_group c = close_group_of c.open_group c

abbrev pub zeros_for : Four (Option ℕ) → Counters
zeros_for u = record {
  at0 = unwrap_or u.at0 0;
  at1 = unwrap_or u.at1 0;
  at2 = unwrap_or u.at2 0;
  at3 = unwrap_or u.at3 0;
}

abbrev pub all_present : Four (Option ℕ) → Bool
all_present u = is_some u.at0 && is_some u.at1 && is_some u.at2 && is_some u.at3

-- The response of a line whose stop is not null.
abbrev pub response_of : Record → Option Response
response_of e =
    if e.stop == stop_null
    then none
    else some (record { usage = unwrap_or e.selected (zeros_for e.usage); model = e.model })

abbrev pub is_complete : Record → Bool
is_complete e =
    all_present e.usage
    && is_some (sum_all (zeros_for e.usage))
    && is_none_or (response_of e) (λ r. response_valid r)

-- The open group, with the contribution of its latest line.
abbrev pub count_line : Record → Group → Group
count_line e g = record g {
  usage = zeros_for e.usage;
  stop = e.stop;
  response = filter (λ r. is_complete e && not g.tainted) (response_of e);
}

abbrev pub zero_group : Option Group → Option Group
zero_group none = none
zero_group (some g) = some (record g { usage = no_counters })

-- The line counts for the group that is open.
unfoldable pub count_open : Record → ℕ → Group → Row → Row
unfolding totals
count_open e stamp g r =
    let u =
      set_cursor
        (λ c. record c {
          usage_seq = max c.usage_seq stamp;
          compaction_iteration = c.compaction_iteration || e.compaction_iteration;
          open_group = some (count_line e g);
        })
        r in
    if not (is_complete e) || is_none (totals u.claude)
    then fail_totals (set_cursor (λ c. record c { open_group = zero_group c.open_group }) u)
    else u

abbrev pub fresh_group : String → Group
fresh_group id = record {
  id = id;
  usage = no_counters;
  stop = stop_null;
  response = none;
  tainted = false;
}

-- Another identity than the open one: the open group is closed, and a new one opened.
abbrev pub open_new : Record → ℕ → String → Row → Row
open_new e stamp id r =
    let u = set_cursor (λ c. close_group c) r in
    if contains u.claude.closed id then fail_totals u else count_open e stamp (fresh_group id) u

abbrev pub group_line : Record → ℕ → String → Option Group → Row → Row
group_line e stamp id none r = open_new e stamp id r
group_line e stamp id (some g) r =
    if str_eq g.id id then count_open e stamp g r else open_new e stamp id r

abbrev pub assistant_line : Option String → Option ℕ → Record → Row → Row
assistant_line (some id) (some stamp) e r =
    let u =
      set_cursor
        (λ c. record c { compaction_iteration = c.compaction_iteration || e.compaction_iteration })
        r in
    group_line e stamp id u.claude.open_group u
assistant_line _ _ e r = unclassified kind_assistant r

unfoldable pub assistant : Record → Row → Row
unfolding count_open close_group unclassified
assistant e r = assistant_line e.message e.stamp e r

abbrev pub is_relevant : Record → Bool
is_relevant e =
    e.kind == kind_assistant
    || e.kind == kind_user
    || e.kind == kind_attachment
    || e.kind == kind_system

-- The stamp counts as seen before anything else.
abbrev pub cover : Option ℕ → Row → Row
cover none r = r
cover (some stamp) r = set_cursor (λ c. record c { coverage_seq = max c.coverage_seq stamp }) r

abbrev pub count_compaction : Record → Row → Row
count_compaction e r =
    if e.kind == kind_system && e.subtype == 1
    then set_cursor
        (λ c. record c {
          compactions = if leb (c.compactions + 1) max_safe then c.compactions + 1 else max_safe;
        })
        r
    else r

-- A record of this session that is no copy.
unfoldable pub apply_own : Record → Row → Row
unfolding assistant children turn unclassified
apply_own e r =
    if e.kind == kind_assistant && e.synthetic
    then turn e (
        set_cursor
          (λ c. record c {
            compaction_iteration = c.compaction_iteration || e.compaction_iteration;
          })
          r)
    else if e.bad && is_relevant e
    then unclassified e.kind r
    else let u = count_compaction e r in
      let v = if e.kind == kind_assistant then assistant e u else u in turn e (children e v)

unfoldable pub apply : Record → Row → Row
unfolding apply_own invalid unclassified
apply e r =
    let u = cover e.stamp r in
    if u.claude.foreign
    then u
    else if e.identity == 2
    then invalid (set_cursor (λ c. record c { foreign = true }) u)
    else if e.identity == 0
    then unclassified e.kind u
    else if e.forked
    then u
    else apply_own e u

-- What the classifier says of one line.
pub data Outcome : Type 0 where
  rejected : Outcome
  uncertain : ℕ → Outcome
  whole : Record → Outcome

-- `oversized`, once a line has been read.
unfoldable pub settle : Outcome → Row → Row
unfolding apply invalid unclassified
settle rejected r = invalid r
settle (uncertain kind) r = unclassified kind r
settle (whole e) r = apply e r

abbrev pub turn_state : Row → Bool
turn_state r =
    let active = is_active r in
    let pending = is_some r.claude.pending_start in
    let idle = not active && not pending in
    let queued = is_some r.claude.queued_since_start in
    let c = r.claude in
    (not queued || active || pending)
    && (not c.silent_end || (active && not queued))
    && (not c.ambiguous || (not active && not pending && not r.turns.valid))
    && (not pending || not active)
    && (not c.lost_idle || (idle && not c.ambiguous))
    && (not c.local_idle || (idle && not c.ambiguous))
    && (not c.clean || (not c.ambiguous && not c.lost_idle && not c.local_idle && not c.silent_end))

-- The turns to publish.
unfoldable pub published_turns : Row → Turns
published_turns r =
    let c = r.claude in
    let t = if c.silent_end then record r.turns { valid = false } else r.turns in
    if c.silent_end || is_some c.pending_start || c.lost_idle || c.local_idle || not (is_dated r)
    then record t { current_known = false }
    else t

abbrev pub status_seq : Row → ℕ
status_seq r = if ltb 0 r.seq then r.seq else r.claude.coverage_seq
